-- ===== src/Publish/Interleaving/Safety.antt =====
-- Nothing is published twice: the invariant holds in every reachable state, and what it says of the
-- platform.
use content_hub.Base.{
  ℕ, ◌≤◌, ◌≡◌, refl, inl, inr, true, List, [], Option, none, some, arith, ==_refl,
}
use content_hub.Publish.Posts.{
  Post, PostStatus, scheduled, posted, posted_unconfirmed, is_indexed, clashes, index_holds,
  find_post,
}
use content_hub.Publish.Posts.Laws.{index_holds-lookup}
use content_hub.Publish.Store.{Store}
use content_hub.Publish.Resolution.{set_resolved_posted, set_resolved_failed}
use content_hub.Publish.Execution.{
  Env, Stage, idle, loading, claiming, fetching, opening, dispatching, recording, failing,
  unconfirming, done, crashed, advance, dispatched,
}
use content_hub.Publish.Interleaving.{
  System, Step, deliver, work, crash, insert, recommend, confirm_posted, confirm_not_posted,
  elsewhere, Reach, start, next, published_count, IsHonest,
}
use content_hub.Publish.Interleaving.Invariant.{Inv, MayBeLive, drop-Inv}
use content_hub.Publish.Interleaving.Work.{After, loading-Inv, fetching-Inv, opening-Inv}
use content_hub.Publish.Interleaving.Claim.{claiming-Inv}
use content_hub.Publish.Interleaving.Dispatch.{dispatching-Inv}
use content_hub.Publish.Interleaving.Requests.{insert-Inv, resolve-Inv, recommend-Inv}
use content_hub.Publish.Interleaving.Terminal.{recording-Inv, failing-Inv, unconfirming-Inv}

live_indexed : (st : PostStatus) → MayBeLive (some st) → is_indexed st ≡ true
live_indexed scheduled h = refl
live_indexed posted h = refl
live_indexed posted_unconfirmed h = refl
live_indexed st h = absurd (ground arith)

-- Rows that may both be live, of one content on one platform, clash in the index.
live_clash :
    (p q : Post)
    → MayBeLive (some p.status)
    → MayBeLive (some q.status)
    → p.content_id ≡ q.content_id
    → p.platform ≡ q.platform
    → clashes p q ≡ true
unfolding clashes
live_clash p q lp lq c e =
    rw (live_indexed p.status lp, live_indexed q.status lq, c, e, ==_refl, ==_refl) refl

work-Inv :
    (env : Env) (i : ℕ) (s : Store) (live : List ℕ) (stages : ℕ → Stage)
    → IsHonest env.reply
    → Inv s.posts live stages
    → (stage : Stage) → stages i ≡ stage
    → After env i stage s live stages
unfolding advance dispatched
work-Inv env i s live stages honest inv idle e = drop-Inv inv i _ refl
work-Inv env i s live stages honest inv (loading job) e = loading-Inv env i s live stages inv job
work-Inv env i s live stages honest inv (claiming job post) e =
    claiming-Inv env i s live stages inv job post
work-Inv env i s live stages honest inv (fetching job post version) e =
    fetching-Inv env i s live stages inv job post version e
work-Inv env i s live stages honest inv (opening job post version token) e =
    opening-Inv env i s live stages inv job post version token e
work-Inv env i s live stages honest inv (dispatching job post version) e =
    dispatching-Inv env i s live stages inv job post version e honest
work-Inv env i s live stages honest inv (recording job post version id) e =
    recording-Inv env i s live stages inv job post version id e
work-Inv env i s live stages honest inv (failing job post_id version) e =
    failing-Inv env i s live stages inv job post_id version e
work-Inv env i s live stages honest inv (unconfirming job post_id id) e =
    unconfirming-Inv env i s live stages inv job post_id id e
work-Inv env i s live stages honest inv (done outcome) e = drop-Inv inv i _ refl
work-Inv env i s live stages honest inv crashed e = drop-Inv inv i _ refl

-- Every step of a run, of a request, of a resolution and of a crash keeps the invariant of the publish
-- system.
pub Step-Inv :
    {s t : System}
    → Step s t
    → Inv s.store.posts s.live s.stages
    → Inv t.store.posts t.live t.stages
unfolding set_resolved_posted set_resolved_failed
Step-Inv (deliver i job free queued) inv = drop-Inv inv i _ refl
Step-Inv {s} (work i env honest) inv =
    work-Inv env i s.store s.live s.stages honest inv (s.stages i) refl
Step-Inv (crash i) inv = drop-Inv inv i _ refl
Step-Inv (insert p rows e) inv = insert-Inv inv p rows e
Step-Inv (recommend id n r rows e) inv = recommend-Inv inv id n r rows e
Step-Inv (confirm_posted id n version now admin external rows e) inv =
    resolve-Inv inv id n version _ rows (λ p. refl) (λ p _. inr (inl refl)) e
Step-Inv (confirm_not_posted id n version admin rows e none_live) inv =
    resolve-Inv inv id n version _ rows (λ p. refl) (λ p one. absurd (omega arith)) e
Step-Inv {s} (elsewhere store same) inv = rw same inv

start-Inv : (posts : List Post) → index_holds posts ≡ true → Inv posts [] (λ _. idle)
unfolding published_count
start-Inv posts h = record {
  index = h;
  once = λ k. omega arith;
  row = λ k one. absurd (omega arith);
  held = λ i k e. absurd (lost e);
  alone = λ i j k e. absurd (lost e);
}
  where
    lost : {k : ℕ} → ◌≡◌ {A = Option ℕ} none (some k) → ⊥
    lost e = cc

pub Reach-Inv :
    {posts : List Post} {s : System}
    → index_holds posts ≡ true
    → Reach posts s
    → Inv s.store.posts s.live s.stages
Reach-Inv h (start store same) = rw same (start-Inv _ h)
Reach-Inv h (next r st) = Step-Inv st (Reach-Inv h r)

-- From any table of posts that the index allows, every reachable state of the system has created each post
-- on its platform once at most, whatever is delivered twice, runs at once, dies, fails or is retried, as
-- long as the confirmed errors of the adapters and the confirmations of the admins are true.
pub published_once :
    {posts : List Post} {s : System}
    → index_holds posts ≡ true
    → Reach posts s
    → (k : ℕ) → published_count k s.live ≤ 1
published_once h r k = (Reach-Inv h r).once k

-- From any table of posts that the index allows, and as long as the confirmed errors of the adapters and
-- the confirmations of the admins are true, two posts of one content on one platform that were both
-- created there are the same post.
pub published_apart :
    {posts : List Post} {s : System}
    → index_holds posts ≡ true
    → Reach posts s
    → (j k : ℕ) {p q : Post} → published_count j s.live ≡ 1
    → published_count k s.live ≡ 1
    → find_post j s.store.posts ≡ some p
    → find_post k s.store.posts ≡ some q
    → p.content_id ≡ q.content_id
    → p.platform ≡ q.platform
    → j ≡ k
published_apart {s} h r j k {p} {q} lj lk fj fk same_content same_platform =
    let inv = Reach-Inv h r in
    index_holds-lookup j k s.store.posts inv.index fj fk (
      live_clash p q (rw fj at (inv.row j lj)) (rw fk at (inv.row k lk)) same_content same_platform)
