-- ===== src/Base/Grouping/Laws.antt =====
-- The groups against what the rows of each key add up to.
use content_hub.Base.{
  ◌≡◌, refl, ◌∙◌, ap, inl, inr, Bool, true, List, [], ◌∷◌, Option, none, some, arith, keep,
  Bool-cases, ◌↔◌, if◌then◌else◌,
}
use mathlib.Core.Path.{subst}
use content_hub.Base.Grouping.{accumulate, group_loop}

-- `groups.get(key)`
abbrev pub group_at : {T K : Type 0} → (K → K → Bool) → K → List (K × T) → Option T
group_at same key [] = none
group_at same key ((k, t) ∷ groups) = if same k key then some t else group_at same key groups

-- The group of a key: there is one exactly if there are rows with the key, and it adds them up. `IsSum old t cs`
-- says that `t` is `old` with the rows `cs` added.
abbrev pub IsGroup :
    {C T : Type 0} → (C → T) → (T → T → List C → Type 0) → List C → Option T → Type 0
IsGroup zero IsSum [] group = group ≡ none
IsGroup {T} zero IsSum (c ∷ cs) group = (t : T) × (group ≡ some t) × IsSum (zero c) t (c ∷ cs)

module _ {C T K : Type 0} (zero : C → T) (add : C → T → T) (IsSum : T → T → List C → Type 0)
    (sum_none : (t : T) → IsSum t t [])
    (sum_step : (c : C) (old t : T) (cs : List C) → IsSum (add c old) t cs → IsSum old t (c ∷ cs))
    (same : K → K → Bool) (same_iff : (a b : K) → (same a b ≡ true) ↔ (a ≡ b)) where
  abbrev total_or : C → Option T → T
  total_or c none = zero c
  total_or c (some t) = t

  group_at-accumulate :
      (key k : K) (c : C) (groups : List (K × T))
      → group_at same k (accumulate zero add same key c groups) ≡ (
          if same key k
          then some (add c (total_or c (group_at same key groups)))
          else group_at same k groups)
  unfolding accumulate
  group_at-accumulate key k c [] = refl
  group_at-accumulate key k c ((j, t) ∷ groups) =
      ground
        (arith, same_iff j key, same_iff j k, same_iff key k, group_at-accumulate key k c groups)

  -- A group, after the rows of its key.
  abbrev After : Option T → List C → Option T → Type 0
  After none [] new = new ≡ none
  After none (c ∷ cs) new = (t : T) × (new ≡ some t) × IsSum (zero c) t (c ∷ cs)
  After (some old) cs new = (t : T) × (new ≡ some t) × IsSum old t cs

  After-step :
      (c : C) (old new : Option T) (cs : List C)
      → After (some (add c (total_or c old))) cs new
      → After old (c ∷ cs) new
  After-step c none new cs (t, e, h) = (t, e, sum_step c (zero c) t cs h)
  After-step c (some old) new cs (t, e, h) = (t, e, sum_step c old t cs h)

  After-none : (old : Option T) → After old [] old
  After-none none = refl
  After-none (some t) = (t, refl, sum_none t)

  loop_sum :
      (key : C → K) (k : K) (cs : List C) (groups : List (K × T))
      → After
          (group_at same k groups)
          (keep (λ c. same (key c) k) cs)
          (group_at same k (group_loop zero add same key cs groups))
  unfolding group_loop
  loop_sum key k [] groups = After-none (group_at same k groups)
  loop_sum key k (c ∷ cs) groups = elim (Bool-cases (same (key c) k)) [
    | inl own ↦
        let e = (same_iff (key c) k).0 own in
        let next = accumulate zero add same (key c) c groups in
        let at_k : group_at same k next ≡ some (add c (total_or c (group_at same k groups))) =
          group_at-accumulate (key c) k c groups
          ∙ rw own (ap (λ j. some (add c (total_or c (group_at same j groups)))) e) in
        rw own (
          After-step c (group_at same k groups) _ (keep (λ d. same (key d) k) cs) (
            subst
              (λ g.
                After g (keep (λ d. same (key d) k) cs)
                  (group_at same k (group_loop zero add same key cs next)))
              at_k (loop_sum key k cs next)))
    | inr other ↦
        let next = accumulate zero add same (key c) c groups in
        let at_k : group_at same k next ≡ group_at same k groups =
          group_at-accumulate (key c) k c groups ∙ rw other refl in
        rw other (
          subst
            (λ g.
              After g (keep (λ d. same (key d) k) cs)
                (group_at same k (group_loop zero add same key cs next)))
            at_k (loop_sum key k cs next))
  ]

  -- Every key has the group of its rows.
  pub grouped :
      (key : C → K) (k : K) (cs : List C)
      → IsGroup zero IsSum
          (keep (λ c. same (key c) k) cs)
          (group_at same k (group_loop zero add same key cs []))
  grouped key k cs = shaped (keep (λ c. same (key c) k) cs) _ (loop_sum key k cs [])
    where
      shaped : (kept : List C) (g : Option T) → After none kept g → IsGroup zero IsSum kept g
      shaped [] g h = h
      shaped (c ∷ kept) g h = h
