-- ===== src/Publish/Interleaving/Work.antt =====
-- A step of a run keeps the invariant: one lemma for each stage.
use content_hub.Base.{ℕ, ◌≡◌, ◌≢◌, refl, true, List, some, String, arith}
use content_hub.Publish.Posts.{Post, index_holds, find_post}
use content_hub.Publish.Store.{Store, Job}
use content_hub.Publish.Execution.{Env, Stage, loading, fetching, opening, advance, dispatched}
use content_hub.Publish.Interleaving.{assign, published_count}
use content_hub.Publish.Interleaving.Invariant.{
  Inv, Fits, MayBeLive, holder, status_of, version_of, drop-Inv, local-Inv,
}

module _ {posts : List Post} {live : List ℕ} {stages : ℕ → Stage} (inv : Inv posts live stages)
    (i k : ℕ) (holds : holder (stages i) ≡ some k) where
  -- A step on the post that the run holds.
  pub held-Inv :
      (rows : List Post) (stage : Stage)
      → index_holds rows ≡ true
      → ((j : ℕ) → j ≢ k → find_post j rows ≡ find_post j posts)
      → ((m : ℕ) → holder stage ≡ some m → m ≡ k)
      → (holder stage ≡ some k
          → Fits
              (status_of (find_post k rows))
              (version_of (find_post k rows))
              (published_count k live)
              stage)
      → (published_count k live ≡ 1 → MayBeLive (status_of (find_post k rows)))
      → Inv rows live (assign stages i stage)
  held-Inv rows stage indexed others own fits row = local-Inv inv {k = k} {i = i} (record {
    indexed = indexed;
    other_rows = others;
    other_live = λ j ne. refl;
    free = λ j ne e. ne (inv.alone j i k e holds);
    own = own;
    fits = fits;
    once = inv.once k;
    row = row;
  })

  -- The same with the rows as they were.
  pub move-Inv :
      (stage : Stage)
      → holder stage ≡ some k
      → Fits
          (status_of (find_post k posts))
          (version_of (find_post k posts))
          (published_count k live)
          stage
      → Inv posts live (assign stages i stage)
  move-Inv stage same fits =
      held-Inv posts stage inv.index (λ j ne. refl) (λ m e. ground arith) (λ _. fits) (inv.row k)

-- The invariant after run `i`, which stands at `stage`, takes a step.
abbrev pub After : Env → ℕ → Stage → Store → List ℕ → (ℕ → Stage) → Type 0
After env i stage s live stages =
    Inv (advance env stage s).1.posts (dispatched env stage live)
      (assign stages i (advance env stage s).0)

module _ (env : Env) (i : ℕ) (s : Store) (live : List ℕ) (stages : ℕ → Stage)
    (inv : Inv s.posts live stages) where
  -- What run `i` knows at the stage where it stands.
  pub known :
      (stage : Stage) (k : ℕ)
      → stages i ≡ stage
      → holder stage ≡ some k
      → Fits
          (status_of (find_post k s.posts))
          (version_of (find_post k s.posts))
          (published_count k live)
          stage
  known stage k e holds = rw e at (inv.held i k (rw e holds))

  pub loading-Inv : (job : Job) → After env i (loading job) s live stages
  unfolding advance dispatched
  loading-Inv job = drop-Inv inv i _ (ground arith)

  pub fetching-Inv :
      (job : Job) (post : Post) (version : ℕ)
      → stages i ≡ fetching job post version
      → After env i (fetching job post version) s live stages
  unfolding advance dispatched
  fetching-Inv job post version e =
      move-Inv inv i post.id (rw e refl) _ (ground arith)
        (ground (arith, known (fetching job post version) post.id e refl))

  pub opening-Inv :
      (job : Job) (post : Post) (version : ℕ) (token : String)
      → stages i ≡ opening job post version token
      → After env i (opening job post version token) s live stages
  unfolding advance dispatched
  opening-Inv job post version token e =
      move-Inv inv i post.id (rw e refl) _ (ground arith)
        (ground (arith, known (opening job post version token) post.id e refl))
