-- ===== src/Publish/Posts/Laws.antt =====
-- How the statements on the `posts` table act on a lookup, and what the unique index says of two
-- lookups.
use content_hub.Base.{
  ℕ, ◌≡◌, ◌≢◌, refl, sym, ap, ◌∙◌, ◌⊎◌, inl, inr, Bool-cases, Bool, true, false, ◌==◌,
  if◌then◌else◌, any, arith, List, ◌∷◌, [], Option, none, some, Option-cases,
}
use mathlib.Core.Option.{some-injective}
use content_hub.Publish.Posts.{
  Post, clashes, index_holds, find_post, update_rows, update_count, update_many, create_post,
}
use native.Mathlib.Decide.{ℕ_discrete}

pub find_post-id : (k : ℕ) (ps : List Post) {p : Post} → find_post k ps ≡ some p → p.id ≡ k
unfolding find_post
find_post-id k [] e = cc
find_post-id k (x ∷ ps) {p} e = ground (arith, find_post-id k ps {p = p})

-- What an update does to a row, as the row is looked up.
abbrev pub patched : (Post → Bool) → (Post → Post) → Option Post → Option Post
patched where_ data_ none = none
patched where_ data_ (some p) = some (if where_ p then data_ p else p)

module _ (k : ℕ) (where_ : Post → Bool) (data_ : Post → Post)
    (keeps : (p : Post) → (data_ p).id ≡ p.id) where
  pub find_post-update_rows :
      (j : ℕ) (ps : List Post)
      → find_post j (update_rows k where_ data_ ps)
        ≡ (if k == j then patched where_ data_ (find_post j ps) else find_post j ps)
  unfolding find_post update_rows
  find_post-update_rows j [] = ground arith
  find_post-update_rows j (x ∷ ps) = ground (arith, keeps x, find_post-update_rows j ps)

pub clashes_symm : (p q : Post) → clashes p q ≡ true → clashes q p ≡ true
unfolding clashes
clashes_symm p q h = ground (arith, h)

-- A row that clashes with a row of the table is caught by the search.
any-clashes :
    (k : ℕ) (x : Post) (ps : List Post) {p : Post}
    → find_post k ps ≡ some p
    → clashes x p ≡ true
    → any (clashes x) ps ≡ true
unfolding find_post
any-clashes k x [] e c = cc
any-clashes k x (y ∷ ps) {p} e c = ground (arith, any-clashes k x ps {p = p})

-- Under the index two rows with different keys do not clash.
pub index_holds-lookup :
    (j k : ℕ) (ps : List Post) {p q : Post}
    → index_holds ps ≡ true
    → find_post j ps ≡ some p
    → find_post k ps ≡ some q
    → clashes p q ≡ true
    → j ≡ k
unfolding find_post index_holds
index_holds-lookup j k [] h e f c = cc
index_holds-lookup j k (x ∷ ps) {p} {q} h e f c = ground (
  arith,
  index_holds-lookup j k ps {p = p} {q = q},
  any-clashes k x ps {p = q},
  any-clashes j x ps {p = p},
  clashes_symm p q,
)

module _ (k : ℕ) (where_ : Post → Bool) (data_ : Post → Post)
    (keeps : (p : Post) → (data_ p).id ≡ p.id) where
  pub find_post-update_rows_ne :
      (j : ℕ) (ps : List Post)
      → j ≢ k
      → find_post j (update_rows k where_ data_ ps) ≡ find_post j ps
  find_post-update_rows_ne j ps ne = find_post-update_rows k where_ data_ keeps j ps ∙ ground arith

  pub find_post-update_rows_self :
      (ps : List Post)
      → find_post k (update_rows k where_ data_ ps) ≡ patched where_ data_ (find_post k ps)
  find_post-update_rows_self ps = find_post-update_rows k where_ data_ keeps k ps ∙ ground arith

  -- Where no row is changed, a lookup finds what it found.
  pub find_post-update_rows_idle :
      (j : ℕ) (ps : List Post)
      → ((p : Post) → find_post k ps ≡ some p → where_ p ≡ false)
      → find_post j (update_rows k where_ data_ ps) ≡ find_post j ps
  find_post-update_rows_idle j ps never = elim (ℕ_discrete j k) [
    | yes e ↦ rw e (find_post-update_rows_self ps ∙ unchanged (find_post k ps) refl)
    | no ne ↦ find_post-update_rows_ne j ps ne
  ]
    where
      unchanged : (o : Option Post) → find_post k ps ≡ o → patched where_ data_ o ≡ o
      unchanged none e = refl
      unchanged (some p) e = rw (never p e) refl

module _ (k : ℕ) (where_ : Post → Bool) (data_ : Post → Post)
    (keeps : (p : Post) → (data_ p).id ≡ p.id) where
  -- A row that meets the condition is found as the data makes it.
  pub find_post-update_rows_hit :
      (ps : List Post) {p : Post}
      → find_post k ps ≡ some p
      → where_ p ≡ true
      → find_post k (update_rows k where_ data_ ps) ≡ some (data_ p)
  find_post-update_rows_hit ps e h =
      find_post-update_rows_self k where_ data_ keeps ps ∙ rw (e, h) refl

pub update_count_one :
    (k : ℕ) (where_ : Post → Bool) (ps : List Post) {p : Post}
    → find_post k ps ≡ some p
    → where_ p ≡ true
    → update_count k where_ ps ≡ 1
unfolding update_count
update_count_one k where_ ps e h = ground arith

pub update_count_zero :
    (k : ℕ) (where_ : Post → Bool) (ps : List Post)
    → ((p : Post) → find_post k ps ≡ some p → where_ p ≡ false)
    → update_count k where_ ps ≡ 0
unfolding update_count
update_count_zero k where_ ps never = elim (Option-cases (find_post k ps)) [
  | inl e ↦ ground arith
  | inr (p, e) ↦ ground (arith, never p e)
]

-- A statement that the index lets through has changed the rows, and the index holds of them.
pub update_many-some :
    (k : ℕ) (where_ : Post → Bool) (data_ : Post → Post) (ps : List Post) {n : ℕ} {rows : List Post}
    → update_many k where_ data_ ps ≡ some (n, rows)
    → (rows ≡ update_rows k where_ data_ ps)
      × (index_holds rows ≡ true)
      × (n ≡ update_count k where_ ps)
unfolding update_many
update_many-some k where_ data_ ps e = ground arith

pub create_post-some :
    (p : Post) (ps : List Post) {rows : List Post}
    → create_post p ps ≡ some rows
    → (find_post p.id ps ≡ none) × (rows ≡ p ∷ ps) × (index_holds rows ≡ true)
unfolding create_post
create_post-some p ps e = ground arith

-- The row that a condition meets, or that there is none.
pub row_cases :
    (where_ : Post → Bool) (o : Option Post)
    → ((p : Post) × (o ≡ some p) × (where_ p ≡ true)) ⊎ ((p : Post) → o ≡ some p → where_ p ≡ false)
row_cases where_ none = inr (λ p e. cc)
row_cases where_ (some p) = elim (Bool-cases (where_ p)) [
  | inl hit ↦ inl (p, refl, hit)
  | inr miss ↦ inr (λ q e. rw (sym (some-injective _ _ e)) miss)
]

pub find_post-cons :
    (p : Post) (ps : List Post) (j : ℕ) → j ≢ p.id → find_post j (p ∷ ps) ≡ find_post j ps
unfolding find_post
find_post-cons p ps j ne = ground arith

-- A view of the rows that the data leaves alone.
pub view-update_rows :
    {X : Type 0} (view : Option Post → X) (k : ℕ) (where_ : Post → Bool) (data_ : Post → Post)
    → ((p : Post) → (data_ p).id ≡ p.id)
    → ((p : Post) → view (some (data_ p)) ≡ view (some p))
    → (j : ℕ) (ps : List Post)
    → view (find_post j (update_rows k where_ data_ ps)) ≡ view (find_post j ps)
view-update_rows view k where_ data_ keeps same j ps = elim (ℕ_discrete j k) [
  | yes e ↦ rw (e, find_post-update_rows_self k where_ data_ keeps ps) (kept (find_post k ps))
  | no ne ↦ ap view (find_post-update_rows_ne k where_ data_ keeps j ps ne)
]
  where
    kept : (o : Option Post) → view (patched where_ data_ o) ≡ view o
    kept none = refl
    kept (some p) = elim (Bool-cases (where_ p)) [
      | inl hit ↦ rw hit (same p)
      | inr miss ↦ rw miss refl
    ]
