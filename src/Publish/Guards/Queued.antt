-- ===== src/Publish/Guards/Queued.antt =====
-- backend/src/modules/publish/publish-orchestrator.service.ts: what `auditAndEnqueue` adds to what was persisted before it.
use content_hub.Base.{ℕ, ◌≡◌, true, false, List, ◌∷◌, some, arith, any, Bool-cases, inl, inr, ◌⊎◌}
use mathlib.Core.Path.{subst, sym}
use content_hub.Base.Effects.Passing.{feed-eq-ok, feed-eq-err}
use content_hub.Base.Effects.{M, ok, err, Exn, ◌>>◌, return}
use content_hub.Publish.Posts.{Post}
use content_hub.Publish.Store.{Store, Ports, Job, record_audit, audit_row, publish_attempt_started}
use content_hub.Publish.Enqueue.{
  Intent, dispatch_intent, job_of, same_job, add_job, audit_and_enqueue,
}

-- The queue before and after a job was given to it.
pub data Enqueued (job : Job) (before after : List Job) : Type 0 where
  added : any (same_job job) before ≡ false → after ≡ job ∷ before → Enqueued job before after
  known : any (same_job job) before ≡ true → after ≡ before → Enqueued job before after

add_job-Enqueued : (job : Job) (jobs : List Job) → Enqueued job jobs (add_job job jobs)
unfolding add_job
add_job-Enqueued job jobs = elim (Bool-cases (any (same_job job) jobs)) [
  | inl again ↦ known again (ground arith)
  | inr new ↦ added new (ground arith)
]

-- What was persisted, and what came after it.
pub record Dispatched (persist : M Store Intent) (user_id : ℕ) (s s' : Store) (post : Post)
    : Type 0 where
  pub intent : Intent
  pub between : Store
  pub persists : persist s ≡ (ok intent, between)
  pub returned : post ≡ intent.post
  pub kept : s'.posts ≡ between.posts
  pub queued : Enqueued (job_of post user_id intent.account_id) between.queue s'.queue
  pub audited :
      s'.audit ≡ audit_row user_id publish_attempt_started true (some post.id) ∷ between.audit

delivered :
    (ports : Ports) (user_id : ℕ) (intent : Intent) (t s' : Store) {post : Post}
    → ((audit_and_enqueue ports intent.post user_id intent.account_id >> return intent.post) t)
      ≡ (ok post, s')
    → (post ≡ intent.post)
      × (s'.posts ≡ t.posts)
      × (s'.queue ≡ add_job (job_of post user_id intent.account_id) t.queue)
      × (s'.audit ≡ audit_row user_id publish_attempt_started true (some post.id) ∷ t.audit)
unfolding audit_and_enqueue record_audit
delivered ports user_id intent t s' h = ground arith

undelivered :
    (ports : Ports) (user_id : ℕ) (intent : Intent) (t s' : Store) {e : Exn}
    → ((audit_and_enqueue ports intent.post user_id intent.account_id >> return intent.post) t)
      ≡ (err e, s')
    → (ports.queue_up ≡ false)
      × (s'.posts ≡ t.posts)
      × (s'.queue ≡ t.queue)
      × (s'.audit ≡ audit_row user_id publish_attempt_started true (some intent.post.id) ∷ t.audit)
unfolding audit_and_enqueue record_audit
undelivered ports user_id intent t s' h = ground arith

pub dispatch_intent-Dispatched :
    (ports : Ports) (user_id : ℕ) (persist : M Store Intent) (s s' : Store) {post : Post}
    → dispatch_intent ports user_id persist s ≡ (ok post, s')
    → Dispatched persist user_id s s' post
dispatch_intent-Dispatched ports user_id persist s s' {post} h =
    let (intent, between, persists, rest) = feed-eq-ok (persist s) _ h in
    let (returned, kept, queue, audited) = delivered ports user_id intent between s' rest in
    record {
      intent = intent;
      between = between;
      persists = persists;
      returned = returned;
      kept = kept;
      queued =
          subst (Enqueued (job_of post user_id intent.account_id) between.queue) (sym queue)
            (add_job-Enqueued _ between.queue);
      audited = audited;
    }

-- What was persisted before the queue failed.
pub record Undelivered (ports : Ports) (persist : M Store Intent) (user_id : ℕ) (s s' : Store)
    : Type 0 where
  pub down : ports.queue_up ≡ false
  pub intent : Intent
  pub between : Store
  pub persists : persist s ≡ (ok intent, between)
  pub kept : s'.posts ≡ between.posts
  pub unqueued : s'.queue ≡ between.queue
  pub audited :
      s'.audit
      ≡ audit_row user_id publish_attempt_started true (some intent.post.id) ∷ between.audit

pub dispatch_intent_refused :
    (ports : Ports) (user_id : ℕ) (persist : M Store Intent) (s s' : Store) {e : Exn}
    → dispatch_intent ports user_id persist s ≡ (err e, s')
    → (persist s ≡ (err e, s')) ⊎ Undelivered ports persist user_id s s'
dispatch_intent_refused ports user_id persist s s' {e} h = elim (feed-eq-err (persist s) _ h) [
  | inl threw ↦ inl threw
  | inr (intent, between, persists, rest) ↦
      let (down, kept, unqueued, audited) = undelivered ports user_id intent between s' rest in
      inr record {
        down = down;
        intent = intent;
        between = between;
        persists = persists;
        kept = kept;
        unqueued = unqueued;
        audited = audited;
      }
]
