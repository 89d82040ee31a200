-- ===== src/Base/Tables.antt =====
-- Tables as lists of rows: Prisma's statements on one primary key, and a unique index as a test on pairs.
use content_hub.Base.Tests.{◌==◌, if◌then◌else◌, ==_iff, Bool-cases}
use content_hub.Base.Lists.{any, All}
use Prim.Native.Nat.{ℕ}
use mathlib.Core.Path.{◌≡◌, refl, sym, ap, subst}
use mathlib.Core.Logic.{◌⊎◌, inl, inr}
use mathlib.Core.Bool.{Bool, true, false}
use mathlib.Core.Option.{Option, none, some}
use mathlib.Core.List.{List, [], ◌∷◌}
use native.Mathlib.Omega.{arith}

-- A row with its primary key.
pub record Keyed (A : Type 0) : Type 0 where
  pub key : A → ℕ

module _ {A : Type 0} ⦃k : Keyed A⦄ where
  -- `findUnique({ where: { id } })`
  unfoldable pub find_row : ℕ → List A → Option A
  find_row id [] = none
  find_row id (a ∷ as_) = if k.key a == id then some a else find_row id as_

  -- `update({ where: { id }, data })`, on the rows.
  unfoldable pub update_row : ℕ → (A → A) → List A → List A
  update_row id data_ [] = []
  update_row id data_ (a ∷ as_) =
      if k.key a == id then data_ a ∷ as_ else a ∷ update_row id data_ as_

  pub find_row-update_row :
      (id : ℕ) (data_ : A → A) (rows : List A) {a : A}
      → ((x : A) → k.key (data_ x) ≡ k.key x)
      → find_row id rows ≡ some a
      → find_row id (update_row id data_ rows) ≡ some (data_ a)
  unfolding find_row update_row
  find_row-update_row id data_ [] keeps e = cc
  find_row-update_row id data_ (x ∷ rows) {a} keeps e =
      ground (arith, keeps x, find_row-update_row id data_ rows {a = a} keeps)

  -- A row that is found stays found after an update, as it was or with the data.
  pub find_row-updated :
      (id key : ℕ) (data_ : A → A) (rows : List A) {a : A}
      → ((x : A) → k.key (data_ x) ≡ k.key x)
      → find_row key rows ≡ some a
      → (b : A) × (find_row key (update_row id data_ rows) ≡ some b) × ((b ≡ a) ⊎ (b ≡ data_ a))
  unfolding find_row update_row
  find_row-updated id key data_ [] keeps e = cc
  find_row-updated id key data_ (x ∷ rows) {a} keeps e = elim (Bool-cases (k.key x == key)) [
    | inl here ↦ elim (Bool-cases (k.key x == id)) [
      | inl changed ↦
          let same : x ≡ a = ground arith in (data_ x, ground (arith, keeps x), inr (ap data_ same))
      | inr kept ↦ (x, ground arith, inl (ground arith))
    ]
    | inr there ↦ elim (Bool-cases (k.key x == id)) [
      | inl changed ↦ (a, ground (arith, keeps x), inl refl)
      | inr kept ↦
          let (b, found, one) = find_row-updated id key data_ rows {a = a} keeps (rw there at e) in
          (b, ground arith, one)
    ]
  ]

  -- What is found is a row of the table, under its key.
  pub find_row-key : (id : ℕ) (rows : List A) {a : A} → find_row id rows ≡ some a → k.key a ≡ id
  unfolding find_row
  find_row-key id [] e = cc
  find_row-key id (x ∷ rows) {a} e = ground (arith, find_row-key id rows {a = a})

  pub find_row_self :
      (id : ℕ) (rows : List A) {a : A}
      → find_row id rows ≡ some a
      → find_row (k.key a) rows ≡ some a
  find_row_self id rows {a} e =
      subst (λ n. find_row n rows ≡ some a) {x = id} (sym (find_row-key id rows e)) e

  pub find_row-All :
      (P : A → Type 0) (id : ℕ) (rows : List A) {a : A}
      → All P rows
      → find_row id rows ≡ some a
      → P a
  unfolding find_row
  find_row-All P id [] h e = cc
  find_row-All P id (x ∷ rows) {a} h e = elim (Bool-cases (k.key x == id)) [
    | inl here ↦ let e' : some x ≡ some a = rw here at e in subst P (cc) h.0
    | inr there ↦ find_row-All P id rows h.1 (rw there at e)
  ]

  pub update_row-All :
      (P : A → Type 0) (id : ℕ) (data_ : A → A) (rows : List A)
      → ((a : A) → P a → P (data_ a))
      → All P rows
      → All P (update_row id data_ rows)
  unfolding update_row
  update_row-All P id data_ [] keeps h = tt
  update_row-All P id data_ (x ∷ rows) keeps h = elim (Bool-cases (k.key x == id)) [
    | inl here ↦ rw here (keeps x h.0, h.1)
    | inr there ↦ rw there (h.0, update_row-All P id data_ rows keeps h.1)
  ]

  -- An update of the row that was found.
  pub update_row-All_found :
      (P : A → Type 0) (id : ℕ) (data_ : A → A) (rows : List A) {a : A}
      → find_row id rows ≡ some a
      → P (data_ a)
      → All P rows
      → All P (update_row id data_ rows)
  unfolding find_row update_row
  update_row-All_found P id data_ [] e p h = tt
  update_row-All_found P id data_ (x ∷ rows) {a} e p h = elim (Bool-cases (k.key x == id)) [
    | inl here ↦
        let e' : some x ≡ some a = rw here at e in
        let same : a ≡ x = cc in rw here (subst (λ y. P (data_ y)) same p, h.1)
    | inr there ↦ rw there (h.0, update_row-All_found P id data_ rows (rw there at e) p h.1)
  ]

-- No two rows clash: the unique index holds.
abbrev pub Apart : {A : Type 0} → (A → A → Bool) → List A → Type 0
Apart clash [] = Unit
Apart clash (a ∷ as_) = (any (clash a) as_ ≡ false) × Apart clash as_

-- `create` under a unique index; `none` is a violation, P2002.
unfoldable pub insert_unique : {A : Type 0} → (A → A → Bool) → A → List A → Option (List A)
insert_unique clash a rows = if any (clash a) rows then none else some (a ∷ rows)

pub insert_unique-Apart :
    {A : Type 0} (clash : A → A → Bool) (a : A) (rows : List A) {rows' : List A}
    → Apart clash rows
    → insert_unique clash a rows ≡ some rows'
    → Apart clash rows'
unfolding insert_unique
insert_unique-Apart clash a rows {rows'} apart e = elim (Bool-cases (any (clash a) rows)) [
  | inl taken ↦ cc (rw taken at e)
  | inr free ↦
      let e' : some (a ∷ rows) ≡ some rows' = rw free at e in
      subst (Apart clash) {x = a ∷ rows} (cc) (free, apart)
]

pub insert_unique-All :
    {A : Type 0} (P : A → Type 0) (clash : A → A → Bool) (a : A) (rows : List A) {rows' : List A}
    → P a
    → All P rows
    → insert_unique clash a rows ≡ some rows'
    → All P rows'
unfolding insert_unique
insert_unique-All P clash a rows {rows'} p h e = elim (Bool-cases (any (clash a) rows)) [
  | inl taken ↦ cc (rw taken at e)
  | inr free ↦
      let e' : some (a ∷ rows) ≡ some rows' = rw free at e in
      subst (All P) {x = a ∷ rows} (cc) (p, h)
]

-- An insertion under an index that covers the primary key: what was found before is found afterwards.
module _ {A : Type 0} ⦃k : Keyed A⦄ (clash : A → A → Bool)
    (covers : (a b : A) → (k.key a == k.key b) ≡ true → clash a b ≡ true) where
  fresh_key : (a : A) (rows : List A) → any (clash a) rows ≡ false → find_row (k.key a) rows ≡ none
  unfolding find_row
  fresh_key a [] h = refl
  fresh_key a (x ∷ rows) h = ground (arith, covers a x, fresh_key a rows)

  pub find_row-insert_unique :
      (a : A) (rows : List A) (id : ℕ) {rows' : List A} {b : A}
      → insert_unique clash a rows ≡ some rows'
      → find_row id rows ≡ some b
      → find_row id rows' ≡ some b
  unfolding find_row insert_unique
  find_row-insert_unique a rows id {rows'} {b} e found =
      ground (arith, ==_iff (k.key a) id, fresh_key a rows)

-- An update that brings no row into a clash keeps the index.
module _ {A : Type 0} ⦃k : Keyed A⦄ (clash : A → A → Bool) (data_ : A → A)
    (left : (a b : A) → clash a b ≡ false → clash (data_ a) b ≡ false)
    (right : (a b : A) → clash a b ≡ false → clash a (data_ b) ≡ false) where
  update_row-any :
      (id : ℕ) (a : A) (rows : List A)
      → any (clash a) rows ≡ false
      → any (clash a) (update_row id data_ rows) ≡ false
  unfolding update_row
  update_row-any id a [] h = refl
  update_row-any id a (x ∷ rows) h = ground (arith, right a x, update_row-any id a rows)

  changed_any :
      (a : A) (rows : List A) → any (clash a) rows ≡ false → any (clash (data_ a)) rows ≡ false
  changed_any a [] h = refl
  changed_any a (x ∷ rows) h = ground (arith, left a x, changed_any a rows)

  pub update_row-Apart :
      (id : ℕ) (rows : List A) → Apart clash rows → Apart clash (update_row id data_ rows)
  unfolding update_row
  update_row-Apart id [] h = tt
  update_row-Apart id (x ∷ rows) h = elim (Bool-cases (k.key x == id)) [
    | inl here ↦ rw here (changed_any x rows h.0, h.1)
    | inr there ↦ rw there (update_row-any id x rows h.0, update_row-Apart id rows h.1)
  ]
