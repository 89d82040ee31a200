-- ===== src/Publish/Interleaving/Dispatch.antt =====
-- The step that calls the platform keeps the invariant: it is taken by the one run that holds the
-- post, and by a post that was never created.
use content_hub.Base.{
  ℕ, suc, ◌≤◌, ◌≡◌, ◌≢◌, refl, sym, ◌⊎◌, inl, inr, false, List, ◌∷◌, none, some, String, arith,
}
use mathlib.Core.Option.{some-injective}
use content_hub.Publish.Posts.{Post, find_post}
use content_hub.Publish.Store.{Store, Job}
use content_hub.Publish.Execution.{
  Env, Stage, dispatching, recording, failing, unconfirming, advance, dispatched, raised, published,
  Answer,
}
use content_hub.Publish.Interleaving.Work.{After, known}
use content_hub.Publish.Interleaving.{published_count, IsHonest}
use content_hub.Publish.Interleaving.Invariant.{Inv, Fits, holder, status_of, version_of, local-Inv}

published_count_hit :
    (k : ℕ) (live : List ℕ) → published_count k (k ∷ live) ≡ suc (published_count k live)
unfolding published_count
published_count_hit k live = ground arith

published_count_miss :
    (j k : ℕ) (live : List ℕ) → j ≢ k → published_count j (k ∷ live) ≡ published_count j live
unfolding published_count
published_count_miss j k live ne = ground arith

module _ (env : Env) (i : ℕ) (s : Store) (live : List ℕ) (stages : ℕ → Stage)
    (inv : Inv s.posts live stages) (job : Job) (post : Post) (version : ℕ)
    (here : stages i ≡ dispatching job post version) where
  abbrev Next : Stage → Type 0
  Next stage =
      (stage ≡ failing job post.id version) × (env.reply.created ≡ false)
      ⊎ (stage ≡ unconfirming job post.id none)
      ⊎ ((id : String) × (stage ≡ recording job post version id))

  dispatching-Next : IsHonest env.reply → Next (advance env (dispatching job post version) s).0
  unfolding advance
  dispatching-Next honest = go env.reply.answer refl
    where
      go :
          (a : Answer)
          → env.reply.answer ≡ a
          → Next (advance env (dispatching job post version) s).0
      go (published id) e = inr (inr (id, ground arith))
      go (raised err) e = ground (arith, honest err)

  claimed :
      Fits
        (status_of (find_post post.id s.posts))
        (version_of (find_post post.id s.posts))
        (published_count post.id live)
        (dispatching job post version)
  claimed = known env i s live stages inv (dispatching job post version) post.id here refl

  -- What was created counts for the post of the run alone.
  created_live : published_count post.id (dispatched env (dispatching job post version) live) ≤ 1
  unfolding dispatched
  created_live = ground (arith, published_count_hit post.id live, claimed.2)

  fits :
      (stage : Stage)
      → Next stage
      → Fits
          (status_of (find_post post.id s.posts))
          (version_of (find_post post.id s.posts))
          (published_count post.id (dispatched env (dispatching job post version) live))
          stage
  unfolding dispatched
  fits stage (inl (e, none_created)) = rw (e, none_created) claimed
  fits stage (inr (inl e)) = rw e (inl claimed.0, created_live)
  fits stage (inr (inr (id, e))) = rw e (claimed.0, claimed.1, created_live)

  own : (stage : Stage) → Next stage → (m : ℕ) → holder stage ≡ some m → m ≡ post.id
  own stage (inl (e, _)) m h = some-injective _ _ (sym (rw e at h))
  own stage (inr (inl e)) m h = some-injective _ _ (sym (rw e at h))
  own stage (inr (inr (id, e))) m h = some-injective _ _ (sym (rw e at h))

  others :
      (j : ℕ)
      → j ≢ post.id
      → published_count j (dispatched env (dispatching job post version) live)
        ≡ published_count j live
  unfolding dispatched
  others j ne = ground (arith, published_count_miss j post.id live)

  pub dispatching-Inv :
      IsHonest env.reply → After env i (dispatching job post version) s live stages
  unfolding advance
  dispatching-Inv honest = local-Inv inv {k = post.id} {i = i} (record {
    indexed = inv.index;
    other_rows = λ j ne. refl;
    other_live = others;
    free = λ j ne e. ne (inv.alone j i post.id e (rw here refl));
    own = own _ (dispatching-Next honest);
    fits = λ _. fits _ (dispatching-Next honest);
    once = created_live;
    row = λ _. inl claimed.0;
  })
