-- ===== src/Ranking/Recommendation/Current/Order.antt =====
-- The order of the rows of a query, newest first, and what its first row for a platform is.
use content_hub.Base.{
  ℕ, ◌≤◌, ◌≡◌, refl, sym, inl, inr, Bool, true, false, List, [], ◌∷◌, Option, none, some, All,
  All-map, find, arith, ◌==◌, Bool-cases,
}
use mathlib.Core.Path.{subst}
use content_hub.Schema.{asset_index}
use content_hub.Ranking.Recommendation.{Score, comes_before, insert_row, order_rows}

-- A row of a platform, by the platform's index.
abbrev pub on : ℕ → Score → Bool
on k s = asset_index s.platform == k

comes_before_asymm : (r s : Score) → comes_before r s ≡ true → comes_before s r ≡ false
unfolding comes_before
comes_before_asymm r s h = ground arith

comes_before_trans :
    (r s t : Score) → comes_before r s ≡ false → comes_before s t ≡ false → comes_before r t ≡ false
unfolding comes_before
comes_before_trans r s t h k = ground arith

comes_before-le : (r s : Score) → comes_before r s ≡ false → r.computed_at ≤ s.computed_at
unfolding comes_before
comes_before-le r s h = ground arith

-- No row comes before one that stands in front of it.
abbrev pub Ordered : List Score → Type 0
Ordered [] = Unit
Ordered (s ∷ rows) = All (λ r. comes_before r s ≡ false) rows × Ordered rows

module _ (P : Score → Type 0) where
  insert_row-All : (r : Score) (rows : List Score) → P r → All P rows → All P (insert_row r rows)
  unfolding insert_row
  insert_row-All r [] p h = (p, tt)
  insert_row-All r (s ∷ rows) p h = elim (Bool-cases (comes_before s r)) [
    | inl before ↦ rw before (h.0, insert_row-All r rows p h.1)
    | inr after ↦ rw after (p, h)
  ]

  All-insert_row : (r : Score) (rows : List Score) → All P (insert_row r rows) → P r × All P rows
  unfolding insert_row
  All-insert_row r [] h = h
  All-insert_row r (s ∷ rows) h = elim (Bool-cases (comes_before s r)) [
    | inl before ↦
        let (first, rest) = rw before at h in
        let (new, old) = All-insert_row r rows rest in (new, (first, old))
    | inr after ↦ rw after at h
  ]

  pub order_rows-All : (rows : List Score) → All P rows → All P (order_rows rows)
  unfolding order_rows
  order_rows-All [] h = tt
  order_rows-All (r ∷ rows) h = insert_row-All r (order_rows rows) h.0 (order_rows-All rows h.1)

  pub All-order_rows : (rows : List Score) → All P (order_rows rows) → All P rows
  unfolding order_rows
  All-order_rows [] h = tt
  All-order_rows (r ∷ rows) h =
      let (new, old) = All-insert_row r (order_rows rows) h in (new, All-order_rows rows old)

insert_row-Ordered : (r : Score) (rows : List Score) → Ordered rows → Ordered (insert_row r rows)
unfolding insert_row
insert_row-Ordered r [] o = (tt, tt)
insert_row-Ordered r (s ∷ rows) o = elim (Bool-cases (comes_before s r)) [
  | inl before ↦ rw before (
    insert_row-All (λ t. comes_before t s ≡ false) r rows (comes_before_asymm s r before) o.0,
    insert_row-Ordered r rows o.1,
  )
  | inr after ↦ rw after ((after, All-map (λ t h. comes_before_trans t s r h after) rows o.0), o)
]

pub order_rows-Ordered : (rows : List Score) → Ordered (order_rows rows)
unfolding order_rows
order_rows-Ordered [] = tt
order_rows-Ordered (r ∷ rows) = insert_row-Ordered r (order_rows rows) (order_rows-Ordered rows)

-- `r`, if it is a row of the platform, is no newer than the row that was found.
abbrev pub Newest : ℕ → Option Score → Score → Type 0
Newest k none r = on k r ≡ false
Newest k (some s) r = on k r ≡ true → r.computed_at ≤ s.computed_at

Newest-miss : (k : ℕ) (o : Option Score) (s : Score) → on k s ≡ false → Newest k o s
Newest-miss k none s h = h
Newest-miss k (some t) s h = λ hit. cc

pub Ordered-Newest :
    (k : ℕ) (rows : List Score) → Ordered rows → All (Newest k (find (on k) rows)) rows
Ordered-Newest k [] o = tt
Ordered-Newest k (s ∷ rows) o = elim (Bool-cases (on k s)) [
  | inl hit ↦
      let first : find (on k) (s ∷ rows) ≡ some s = rw hit refl in
      subst (λ o. All (Newest k o) (s ∷ rows)) (sym first)
        ((λ _. omega arith), All-map (λ r h _. comes_before-le r s h) rows o.0)
  | inr miss ↦
      let later : find (on k) (s ∷ rows) ≡ find (on k) rows = rw miss refl in
      subst (λ o. All (Newest k o) (s ∷ rows)) (sym later)
        (Newest-miss k (find (on k) rows) s miss, Ordered-Newest k rows o.1)
]
