-- ===== src/Publish/Interleaving.antt =====
-- The publish system at work: any number of job runs (BullMQ may deliver a job any number of times, to
-- several processes at once), interleaved with the statements that the requests make. The platform is
-- seen as the list of the posts that were created there through an adapter.
pub mod Invariant
pub mod Work
pub mod Dispatch
pub mod Claim
pub mod Terminal
pub mod Requests
pub mod Safety
pub mod Services
pub mod Refused
mod Tests
use content_hub.Base.{
  ℕ, suc, ◌≡◌, Bool, true, false, List, [], ◌∷◌, Option, none, some, ◌==◌, if◌then◌else◌, Among,
  arith,
}
use content_hub.Publish.Posts.{Post, find_post, update_many, create_post}
use content_hub.Publish.Store.{Store, Job}
use content_hub.Publish.Orchestrator.{Recommendation, set_recommendation}
use content_hub.Publish.Execution.{
  Env, Reply, Answer, published, raised, is_confirmed_not_posted, Stage, idle, loading, crashed,
  advance, dispatched, with_posts,
}
use content_hub.Publish.Resolution.{resolvable, set_resolved_posted, set_resolved_failed}

pub record System : Type 0 where
  pub store : Store
  pub live : List ℕ
  pub stages : ℕ → Stage

abbrev pub assign : (ℕ → Stage) → ℕ → Stage → ℕ → Stage
assign stages i stage j = if i == j then stage else stages j

-- How often a post was created on the platform.
unfoldable pub published_count : ℕ → List ℕ → ℕ
published_count id [] = 0
published_count id (x ∷ live) =
    let rest = published_count id live in if x == id then suc rest else rest

-- What the adapters promise: an error of the three confirmed kinds means that nothing was created.
abbrev pub IsHonest : Reply → Type 0
IsHonest reply =
    (e : _) → reply.answer ≡ raised e → is_confirmed_not_posted e ≡ true → reply.created ≡ false

pub data Step (s : System) : System → Type 0 where
  -- A run starts on a job of the queue; the job may be delivered again.
  deliver :
      (i : ℕ) (job : Job)
      → s.stages i ≡ idle
      → Among job s.store.queue
      → Step s (record s { stages = assign s.stages i (loading job) })
  -- A run takes its next step.
  work :
      (i : ℕ) (env : Env)
      → IsHonest env.reply
      → Step s (record {
        store = (advance env (s.stages i) s.store).1;
        live = dispatched env (s.stages i) s.live;
        stages = assign s.stages i (advance env (s.stages i) s.store).0;
      })
  -- A process dies, or a read fails.
  crash : (i : ℕ) → Step s (record s { stages = assign s.stages i crashed })
  -- The insert of a request.
  insert :
      (p : Post) (rows : List Post)
      → create_post p s.store.posts ≡ some rows
      → Step s (record s { store = with_posts s.store rows })
  -- The update of `redispatch`.
  recommend :
      (id n : ℕ) (r : Recommendation) (rows : List Post)
      → update_many id (λ _. true) (set_recommendation r) s.store.posts ≡ some (n, rows)
      → Step s (record s { store = with_posts s.store rows })
  -- The updates of the two resolutions, with the version that the request has read. An admin who says
  -- that nothing was posted is right.
  confirm_posted :
      (id n version now admin : ℕ) (external : _) (rows : List Post)
      → update_many id (resolvable version) (set_resolved_posted now admin external) s.store.posts
        ≡ some (n, rows)
      → Step s (record s { store = with_posts s.store rows })
  confirm_not_posted :
      (id n version admin : ℕ) (rows : List Post)
      → update_many id (resolvable version) (set_resolved_failed admin) s.store.posts
        ≡ some (n, rows)
      → published_count id s.live ≡ 0
      → Step s (record s { store = with_posts s.store rows })
  -- All that a request changes beside the posts.
  elsewhere : (store : Store) → store.posts ≡ s.store.posts → Step s (record s { store = store })

-- At the start no run is under way and nothing was published; the posts are any that the index allows.
pub data Reach (posts : List Post) : System → Type 0 where
  start :
      (store : Store)
      → store.posts ≡ posts
      → Reach posts (record { store = store; live = []; stages = λ _. idle })
  next : {s t : System} → Reach posts s → Step s t → Reach posts t
