-- ===== src/Publish/Interleaving/Claim.antt =====
-- The claim keeps the invariant: it succeeds for a post that nobody holds and that is not on the
-- platform, and otherwise changes no row.
use content_hub.Base.{
  ℕ, ◌+◌, ◌≡◌, ◌≢◌, refl, sym, ap, ◌⊎◌, inl, inr, true, false, List, Option, none, some, arith,
}
use mathlib.Core.Option.{some-injective}
use content_hub.Publish.Posts.{
  Post, PostStatus, scheduled, posted, posted_unconfirmed, index_holds, find_post, update_rows,
}
use content_hub.Publish.Posts.Laws.{
  find_post-update_rows_ne, find_post-update_rows_idle, update_count_one, update_count_zero,
  row_cases, find_post-update_rows_hit,
}
use content_hub.Publish.Store.{Store, Job}
use content_hub.Publish.Execution.{
  Env, Stage, claimable, set_claimed, claiming, fetching, opening, dispatching, recording, failing,
  unconfirming, crashed, advance, dispatched,
}
use content_hub.Publish.Execution.Writes.{write_cases}
use content_hub.Publish.Interleaving.{assign, published_count}
use content_hub.Publish.Interleaving.Invariant.{
  Inv, Fits, holder, status_of, version_of, drop-Inv, view-Inv, local-Inv,
}
use content_hub.Publish.Interleaving.Work.{After}

-- A post that is held is scheduled, or posted while its run doubts it.
pub held_status :
    (st : Option PostStatus) (v : Option ℕ) (n : ℕ) (stage : Stage) {k : ℕ}
    → holder stage ≡ some k
    → Fits st v n stage
    → (st ≡ some scheduled) ⊎ (st ≡ some posted)
held_status st v n (fetching job post version) h f = inl f.0
held_status st v n (opening job post version token) h f = inl f.0
held_status st v n (dispatching job post version) h f = inl f.0
held_status st v n (recording job post version id) h f = inl f.0
held_status st v n (failing job post_id version) h f = inl f.0
held_status st v n (unconfirming job post_id id) h f = f.0
held_status st v n _ h f = absurd (cc)

module _ {posts : List Post} {live : List ℕ} {stages : ℕ → Stage} (inv : Inv posts live stages)
    (k : ℕ) (p : Post) (found : find_post k posts ≡ some p) where
  -- A post whose status is none of the two is free.
  pub unheld : p.status ≢ scheduled → p.status ≢ posted → (j : ℕ) → holder (stages j) ≢ some k
  unheld not_scheduled not_posted j h =
      ground (arith, held_status _ _ _ (stages j) h (inv.held j k h), found)

  -- A post whose status is none of the three was not created on the platform.
  pub unpublished :
      p.status ≢ scheduled
      → p.status ≢ posted
      → p.status ≢ posted_unconfirmed
      → published_count k live ≡ 0
  unpublished a b c = ground (arith, inv.once k, inv.row k, found)

claimable_iff :
    (version : ℕ) (p : Post)
    → claimable version p ≡ true
    → (p.status ≢ scheduled)
      × (p.status ≢ posted)
      × (p.status ≢ posted_unconfirmed)
      × (p.version ≡ version)
unfolding claimable
claimable_iff version p h = (ground arith, ground arith, ground arith, ground arith)

module _ (env : Env) (i : ℕ) (s : Store) (live : List ℕ) (stages : ℕ → Stage)
    (inv : Inv s.posts live stages) (job : Job) (post : Post) where
  abbrev rows : List Post
  rows = update_rows post.id (claimable post.version) (set_claimed env.now job.requested_by) s.posts

  -- Where the claim is lost the rows look alike.
  lost_claim-Inv :
      ((p : Post) → find_post post.id s.posts ≡ some p → claimable post.version p ≡ false)
      → index_holds rows ≡ true
      → (stage : Stage) → holder stage ≡ none
      → Inv rows live (assign stages i stage)
  unfolding set_claimed
  lost_claim-Inv never indexed stage empty =
      drop-Inv
        (view-Inv inv rows indexed (λ j. ap status_of (same j)) (λ j. ap version_of (same j))) i
        stage empty
    where
      same : (j : ℕ) → find_post j rows ≡ find_post j s.posts
      same j = find_post-update_rows_idle post.id _ _ (λ q. refl) j s.posts never

  won_claim-Inv :
      (p : Post)
      → find_post post.id s.posts ≡ some p
      → claimable post.version p ≡ true
      → index_holds rows ≡ true
      → (stage : Stage) → (stage ≡ crashed) ⊎ (stage ≡ fetching job post (post.version + 1))
      → Inv rows live (assign stages i stage)
  unfolding set_claimed
  won_claim-Inv p found won indexed stage next = local-Inv inv {k = post.id} {i = i} (record {
    indexed = indexed;
    other_rows = λ j ne. find_post-update_rows_ne post.id _ _ (λ q. refl) j s.posts ne;
    other_live = λ j ne. refl;
    free = λ j ne. unheld inv post.id p found facts.0 facts.1 j;
    own = λ m h. own m next h;
    fits = λ h. fits next h;
    once = inv.once post.id;
    row = λ one. rw after (inl refl);
  })
    where
      facts :
          (p.status ≢ scheduled)
          × (p.status ≢ posted)
          × (p.status ≢ posted_unconfirmed)
          × (p.version ≡ post.version)
      facts = claimable_iff post.version p won

      after : find_post post.id rows ≡ some (set_claimed env.now job.requested_by p)
      after = find_post-update_rows_hit post.id _ _ (λ q. refl) s.posts found won

      quiet : published_count post.id live ≡ 0
      quiet = unpublished inv post.id p found facts.0 facts.1 facts.2

      own :
          (m : ℕ)
          → (stage ≡ crashed) ⊎ (stage ≡ fetching job post (post.version + 1))
          → holder stage ≡ some m
          → m ≡ post.id
      own m (inl e) h = absurd (lost (rw e at h))
        where
          lost : ◌≡◌ {A = Option ℕ} none (some m) → ⊥
          lost h' = cc
      own m (inr e) h = some-injective _ _ (sym (rw e at h))

      fits :
          (stage ≡ crashed) ⊎ (stage ≡ fetching job post (post.version + 1))
          → holder stage ≡ some post.id
          → Fits
              (status_of (find_post post.id rows))
              (version_of (find_post post.id rows))
              (published_count post.id live)
              stage
      fits (inl e) h = rw e tt
      fits (inr e) h = rw (e, after) (refl, ap (λ v. some (v + 1)) facts.3, quiet)

  pub claiming-Inv : After env i (claiming job post) s live stages
  unfolding advance dispatched
  claiming-Inv =
      elim (write_cases env.fate post.id (claimable post.version)
        (set_claimed env.now job.requested_by) s.posts) [
          | inl e ↦ rw e (drop-Inv inv i _ refl)
          | inr (indexed, w) ↦
              elim (row_cases (claimable post.version) (find_post post.id s.posts)) [
                | inl (p, found, won) ↦ elim w [
                  | inl e ↦
                      rw (e, update_count_one post.id (claimable post.version) s.posts found won)
                        (won_claim-Inv p found won indexed _ (inr refl))
                  | inr e ↦ rw e (won_claim-Inv p found won indexed _ (inl refl))
                ]
                | inr never ↦ elim w [
                  | inl e ↦
                      rw (e, update_count_zero post.id (claimable post.version) s.posts never)
                        (lost_claim-Inv never indexed _ refl)
                  | inr e ↦ rw e (lost_claim-Inv never indexed _ refl)
                ]
              ]
        ]
