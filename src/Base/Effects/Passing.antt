-- ===== src/Base/Effects/Passing.antt =====
-- Checks: methods that return a value and write nothing, or throw.
use mathlib.Core.Path.{◌≡◌, refl, sym, ◌∙◌, ap}
use native.Mathlib.Omega.{arith}
use content_hub.Base.Effects.{M, Result, ok, err, Exn, feed, ensure}
use mathlib.Core.Bool.{Bool, true, false}
use mathlib.Core.Logic.{◌⊎◌, inl, inr}

-- The method returns a value with the property P and leaves the state alone, or it throws.
pub data Decides {S A : Type 0} (m : M S A) (s : S) (P : A → Type 0) : Type 0 where
  passes : (a : A) → m s ≡ (ok a, s) → P a → Decides m s P
  throws : (e : Exn) (t : S) → m s ≡ (err e, t) → Decides m s P

pub record Passed {S A B : Type 0} (P : A → Type 0) (f : A → M S B) (s : S) (b : B) (t : S)
    : Type 0 where
  pub value : A
  pub holds : P value
  pub rest : f value s ≡ (ok b, t)

-- A chain that returns has passed its first check, and the rest of it has returned.
pub passed :
    {S A B : Type 0} {P : A → Type 0} {m : M S A} {s : S} {f : A → M S B} {b : B} {t : S}
    → Decides m s P
    → feed (m s) f ≡ (ok b, t)
    → Passed P f s b t
passed {f = f} (passes a runs p) h = record {
  value = a;
  holds = p;
  rest = sym (ap (λ r. feed r f) runs) ∙ h;
}
passed (throws e t refused) h = absurd (ground arith)

pub ensure_decides :
    {S : Type 0} (b : Bool) (e : Exn) (s : S) → Decides (ensure b e) s (λ _. b ≡ true)
ensure_decides true e s = passes tt refl refl
ensure_decides false e s = throws e s refl

-- A chain whose first part returns goes on with the rest.
pub onward :
    {S A B : Type 0} {r : Result A × S} {a : A} {t : S} {x : Result B × S} (f : A → M S B)
    → r ≡ (ok a, t)
    → feed r f ≡ x
    → f a t ≡ x
onward f runs h = sym (ap (λ r. feed r f) runs) ∙ h

pub ensure_passes : {S : Type 0} {b : Bool} (e : Exn) (s : S) → b ≡ true → ensure b e s ≡ (ok tt, s)
ensure_passes e s h = ap (λ b. ensure b e s) h

-- A chain that returns: its first part has returned, and so has the rest.
pub feed-eq-ok :
    {S A B : Type 0} (r : Result A × S) (f : A → M S B) {b : B} {s' : S}
    → feed r f ≡ (ok b, s')
    → (a : A) × (t : S) × (r ≡ (ok a, t)) × (f a t ≡ (ok b, s'))
feed-eq-ok (ok a, s) f h = (a, s, refl, h)
feed-eq-ok (err e, s) f h = absurd (ground arith)

-- A chain that throws: its first part has thrown, or it has returned and the rest has thrown.
pub feed-eq-err :
    {S A B : Type 0} (r : Result A × S) (f : A → M S B) {e : Exn} {s' : S}
    → feed r f ≡ (err e, s')
    → (r ≡ (err e, s')) ⊎ ((a : A) × (t : S) × (r ≡ (ok a, t)) × (f a t ≡ (err e, s')))
feed-eq-err (ok a, s) f h = inr (a, s, refl, h)
feed-eq-err (err e', s) f h = inl (ground arith)

-- A chain whose first part returns ends as its rest does; a chain whose first part throws ends there.
pub continues :
    {S A B : Type 0} {r : Result A × S} {a : A} {t : S} {x : Result B × S} (f : A → M S B)
    → r ≡ (ok a, t)
    → f a t ≡ x
    → feed r f ≡ x
continues f runs rest = ap (λ r. feed r f) runs ∙ rest

pub stops :
    {S A B : Type 0} {r : Result A × S} {e : Exn} {t : S} (f : A → M S B)
    → r ≡ (err e, t)
    → feed r f ≡ (err e, t)
stops f refused = ap (λ r. feed r f) refused
