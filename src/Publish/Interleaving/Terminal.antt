-- ===== src/Publish/Interleaving/Terminal.antt =====
-- The writes that end a run keep the invariant, whether they go through or not.
use content_hub.Base.{
  ℕ, ◌≡◌, refl, sym, ◌⊎◌, inl, inr, Bool, true, List, Option, none, some, String, ◌==◌, arith,
  ==_iff,
}
use mathlib.Core.Option.{some-injective}
use content_hub.Publish.Posts.{
  Post, PostStatus, scheduled, posted, index_holds, find_post, update_rows, update_count,
}
use content_hub.Publish.Posts.Laws.{
  find_post-update_rows_ne, update_count_one, find_post-update_rows_hit,
}
use content_hub.Publish.Store.{Store, Job}
use content_hub.Publish.Execution.{
  Env, Stage, at_version, set_posted, set_failed, set_unconfirmed, recording, failing, unconfirming,
  done, advance, dispatched, ExecutionOutcome,
}
use content_hub.Publish.Execution.Writes.{write_cases}
use content_hub.Publish.Interleaving.{assign, published_count}
use content_hub.Publish.Interleaving.Invariant.{
  Inv, Fits, MayBeLive, holder, status_of, version_of, drop-Inv,
}
use content_hub.Publish.Interleaving.Work.{After, known, held-Inv, move-Inv}

-- A status and a version are those of a row.
some_row :
    (o : Option Post)
    → (status_of o ≡ some scheduled) ⊎ (status_of o ≡ some posted)
    → (p : Post) × (o ≡ some p)
some_row none h = absurd (ground arith)
some_row (some p) h = (p, refl)

row_of :
    (o : Option Post) {status : PostStatus} {version : ℕ}
    → status_of o ≡ some status
    → version_of o ≡ some version
    → (p : Post) × (o ≡ some p) × (p.status ≡ status) × (p.version ≡ version)
row_of none h k = absurd (cc)
row_of (some p) h k = (p, refl, some-injective _ _ h, some-injective _ _ k)

module _ (env : Env) (i : ℕ) (s : Store) (live : List ℕ) (stages : ℕ → Stage)
    (inv : Inv s.posts live stages) where
  -- A write by the holder of `k` that goes through: the row is as the data makes it.
  updated-Inv :
      (k : ℕ) (where_ : Post → Bool) (data_ : Post → Post)
      → ((p : Post) → (data_ p).id ≡ p.id)
      → holder (stages i) ≡ some k
      → (p : Post) → find_post k s.posts ≡ some p
      → where_ p ≡ true
      → index_holds (update_rows k where_ data_ s.posts) ≡ true
      → (stage : Stage) → ((m : ℕ) → holder stage ≡ some m → m ≡ k)
      → (holder stage ≡ some k
          → Fits (some (data_ p).status) (some (data_ p).version) (published_count k live) stage)
      → (published_count k live ≡ 1 → MayBeLive (some (data_ p).status))
      → Inv (update_rows k where_ data_ s.posts) live (assign stages i stage)
  updated-Inv k where_ data_ keeps holds p e h indexed stage own fits row =
      let found = find_post-update_rows_hit k where_ data_ keeps s.posts e h in
      held-Inv inv i k holds _ stage indexed
        (λ j ne. find_post-update_rows_ne k where_ data_ keeps j s.posts ne) own
        (λ same. rw found (fits same)) (λ one. rw found (row one))

  -- Such a write after which the run lets the post go.
  released-Inv :
      (k : ℕ) (where_ : Post → Bool) (data_ : Post → Post)
      → ((p : Post) → (data_ p).id ≡ p.id)
      → holder (stages i) ≡ some k
      → (p : Post) → find_post k s.posts ≡ some p
      → where_ p ≡ true
      → index_holds (update_rows k where_ data_ s.posts) ≡ true
      → (stage : Stage) → holder stage ≡ none
      → (published_count k live ≡ 1 → MayBeLive (some (data_ p).status))
      → Inv (update_rows k where_ data_ s.posts) live (assign stages i stage)
  released-Inv k where_ data_ keeps holds p e h indexed stage empty row =
      updated-Inv k where_ data_ keeps holds p e h indexed stage (λ m e'. absurd (lost e'))
        (λ e'. absurd (lost e')) row
    where
      lost : {m : ℕ} → holder stage ≡ some m → ⊥
      lost e' = cc

  pub failing-Inv :
      (job : Job) (post_id version : ℕ)
      → stages i ≡ failing job post_id version
      → After env i (failing job post_id version) s live stages
  unfolding advance dispatched set_failed at_version
  failing-Inv job post_id version here =
      elim (write_cases env.fate post_id (at_version version) (set_failed job.requested_by)
        s.posts) [
          | inl e ↦ rw e (drop-Inv inv i _ refl)
          | inr (indexed, inl e) ↦ rw e (after indexed _ refl)
          | inr (indexed, inr e) ↦ rw e (after indexed _ refl)
        ]
    where
      fits :
          Fits
            (status_of (find_post post_id s.posts))
            (version_of (find_post post_id s.posts))
            (published_count post_id live)
            (failing job post_id version)
      fits = known env i s live stages inv (failing job post_id version) post_id here refl

      after :
          index_holds
              (update_rows post_id (at_version version) (set_failed job.requested_by) s.posts)
            ≡ true
          → (stage : Stage) → holder stage ≡ none
          → Inv
              (update_rows post_id (at_version version) (set_failed job.requested_by) s.posts)
              live
              (assign stages i stage)
      after indexed stage empty =
          let (p, found, _, same) = row_of (find_post post_id s.posts) fits.0 fits.1 in
          released-Inv post_id _ _ (λ q. refl) (rw here refl) p found (ground arith) indexed stage
            empty (λ one. absurd (omega (arith, fits.2)))

  pub unconfirming-Inv :
      (job : Job) (post_id : ℕ) (id : Option String)
      → stages i ≡ unconfirming job post_id id
      → After env i (unconfirming job post_id id) s live stages
  unfolding advance dispatched set_unconfirmed
  unconfirming-Inv job post_id id here =
      elim (write_cases env.fate post_id (λ _. true) (set_unconfirmed job.requested_by id)
        s.posts) [
          | inl e ↦ rw e (drop-Inv inv i _ refl)
          | inr (indexed, inl e) ↦ rw e (after indexed)
          | inr (indexed, inr e) ↦ rw e (after indexed)
        ]
    where
      fits :
          Fits
            (status_of (find_post post_id s.posts))
            (version_of (find_post post_id s.posts))
            (published_count post_id live)
            (unconfirming job post_id id)
      fits = known env i s live stages inv (unconfirming job post_id id) post_id here refl

      after :
          index_holds
              (update_rows post_id (λ _. true) (set_unconfirmed job.requested_by id) s.posts)
            ≡ true
          → Inv
              (update_rows post_id (λ _. true) (set_unconfirmed job.requested_by id) s.posts)
              live
              (assign stages i (done ExecutionOutcome.posted_unconfirmed))
      after indexed =
          let (p, found) = some_row (find_post post_id s.posts) fits.0 in
          released-Inv post_id _ _ (λ q. refl) (rw here refl) p found refl indexed _ refl
            (λ one. inr (inr refl))

  pub recording-Inv :
      (job : Job) (post : Post) (version : ℕ) (id : String)
      → stages i ≡ recording job post version id
      → After env i (recording job post version id) s live stages
  unfolding advance dispatched set_posted at_version
  recording-Inv job post version id here =
      elim (write_cases env.fate post.id (at_version version)
        (set_posted env.now job.requested_by id) s.posts) [
          | inl e ↦ rw e (
              move-Inv inv i post.id (rw here refl) (unconfirming job post.id (some id)) refl
                (inl fits.0, fits.2))
          | inr (indexed, inl e) ↦
              rw (e, one)
                (released-Inv post.id _ _ (λ q. refl) (rw here refl) p found matches indexed
                  (done ExecutionOutcome.posted) refl (λ _. inr (inl refl)))
          | inr (indexed, inr e) ↦ rw e (
              updated-Inv post.id _ _ (λ q. refl) (rw here refl) p found matches indexed
                (unconfirming job post.id (some id)) (λ m h. some-injective _ _ (sym h))
                (λ _. (inr refl, fits.2)) (λ _. inr (inl refl)))
        ]
    where
      fits :
          Fits
            (status_of (find_post post.id s.posts))
            (version_of (find_post post.id s.posts))
            (published_count post.id live)
            (recording job post version id)
      fits = known env i s live stages inv (recording job post version id) post.id here refl

      row :
          (p : Post) × (find_post post.id s.posts ≡ some p)
          × (p.status ≡ scheduled)
          × (p.version ≡ version)
      row = row_of (find_post post.id s.posts) fits.0 fits.1

      p : Post
      p = row.0

      found : find_post post.id s.posts ≡ some p
      found = row.1

      matches : (p.version == version) ≡ true
      matches = (==_iff _ _).1 row.3

      one : update_count post.id (at_version version) s.posts ≡ 1
      one = update_count_one post.id (at_version version) s.posts found matches
