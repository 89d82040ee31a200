-- ===== src/Publish/Execution/Writes.antt =====
-- How a write of the run ends, and what its data does to a row.
use content_hub.Base.{inr, ◌+◌, String, some, ℕ, ◌≡◌, refl, ◌⊎◌, inl, Bool, true, List, arith}
use content_hub.Publish.Posts.{
  PostStatus, find_post, Post, index_holds, update_rows, update_count, update_many,
}
use content_hub.Publish.Posts.Laws.{
  find_post-update_rows_hit, find_post-update_rows_idle, update_count_one, update_count_zero,
  row_cases,
}
use content_hub.Publish.Execution.{
  claimable, at_version, set_claimed, set_posted, set_failed, Fate, Written, count, error, write,
  settle,
}

-- A write leaves the rows alone with an error, or does the update, and then the index holds.
abbrev pub WriteCases : ℕ → (Post → Bool) → (Post → Post) → List Post → Written × List Post → Type 0
WriteCases k where_ data_ ps r =
    (r ≡ (error, ps))
    ⊎ ((index_holds (update_rows k where_ data_ ps) ≡ true)
        × ((r ≡ (count (update_count k where_ ps), update_rows k where_ data_ ps))
            ⊎ (r ≡ (error, update_rows k where_ data_ ps))))

pub write_cases :
    (fate : Fate) (k : ℕ) (where_ : Post → Bool) (data_ : Post → Post) (ps : List Post)
    → WriteCases k where_ data_ ps (write fate k where_ data_ ps)
unfolding write settle update_many
write_cases Fate.lost k where_ data_ ps = inl refl
write_cases Fate.applied k where_ data_ ps = ground arith
write_cases Fate.applied_with_error k where_ data_ ps = ground arith

-- A write on a row that meets its condition: an error, or one row, which is found as the data makes it.
abbrev pub Hit : ℕ → Post → Written × List Post → Type 0
Hit k p (error, rows) = Unit
Hit k p (count n, rows) = (n ≡ 1) × (find_post k rows ≡ some p)

pub write-Hit :
    (fate : Fate) (k : ℕ) (where_ : Post → Bool) (data_ : Post → Post) (ps : List Post) {p : Post}
    → ((q : Post) → (data_ q).id ≡ q.id)
    → find_post k ps ≡ some p
    → where_ p ≡ true
    → Hit k (data_ p) (write fate k where_ data_ ps)
write-Hit fate k where_ data_ ps keeps found hit = elim (write_cases fate k where_ data_ ps) [
  | inl e ↦ rw e tt
  | inr (indexed, inl e) ↦ rw e (
    update_count_one k where_ ps found hit,
    find_post-update_rows_hit k where_ data_ keeps ps found hit,
  )
  | inr (indexed, inr e) ↦ rw e tt
]

-- The claim: an error, a row that is found as claimed, or nothing changed.
abbrev pub Claimed : ℕ → ℕ → List Post → Written × List Post → Type 0
Claimed k version ps (error, rows) = Unit
Claimed k version ps (count n, rows) =
    ((n ≡ 1) × ((p : Post) × (find_post k rows ≡ some p) × (p.version ≡ version)))
    ⊎ ((n ≡ 0) × ((j : ℕ) → find_post j rows ≡ find_post j ps))

set_claimed_keeps : (now by : ℕ) (q : Post) → (set_claimed now by q).id ≡ q.id
unfolding set_claimed
set_claimed_keeps now by q = refl

claimed_version :
    (version now by : ℕ) (p : Post)
    → claimable version p ≡ true
    → (set_claimed now by p).version ≡ version + 1
unfolding claimable set_claimed
claimed_version version now by p hit = ground arith

pub write-Claimed :
    (fate : Fate) (k version now by : ℕ) (ps : List Post)
    → Claimed k (version + 1) ps (write fate k (claimable version) (set_claimed now by) ps)
write-Claimed fate k version now by ps =
    elim (write_cases fate k (claimable version) (set_claimed now by) ps) [
      | inl e ↦ rw e tt
      | inr (indexed, inr e) ↦ rw e tt
      | inr (indexed, inl e) ↦ rw e (elim (row_cases (claimable version) (find_post k ps)) [
        | inl (p, found, hit) ↦ inl (
          update_count_one k _ ps found hit,
          (
            set_claimed now by p,
            find_post-update_rows_hit k _ _ (set_claimed_keeps now by) ps found hit,
            claimed_version version now by p hit,
          ),
        )
        | inr never ↦ inr (
          update_count_zero k _ ps never,
          λ j. find_post-update_rows_idle k _ _ (set_claimed_keeps now by) j ps never,
        )
      ])
    ]

pub set_posted_keeps : (now by : ℕ) (id : String) (q : Post) → (set_posted now by id q).id ≡ q.id
unfolding set_posted
set_posted_keeps now by id q = refl

pub set_posted_status :
    (now by : ℕ) (id : String) (q : Post) → (set_posted now by id q).status ≡ PostStatus.posted
unfolding set_posted
set_posted_status now by id q = refl

pub set_failed_keeps : (by : ℕ) (q : Post) → (set_failed by q).id ≡ q.id
unfolding set_failed
set_failed_keeps by q = refl

pub set_failed_status : (by : ℕ) (q : Post) → (set_failed by q).status ≡ PostStatus.failed
unfolding set_failed
set_failed_status by q = refl

pub at_version_hit : (version : ℕ) (p : Post) → p.version ≡ version → at_version version p ≡ true
unfolding at_version
at_version_hit version p e = ground arith
