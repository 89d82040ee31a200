-- ===== src/Publish/Enqueue.antt =====
-- backend/src/modules/publish/publish-orchestrator.service.ts: `auditAndEnqueue`, and how the two requests end that
-- give a job to the queue.
use content_hub.Base.{ℕ, Bool, true, ◌&&◌, List, ◌∷◌, some, ◌==◌, any, if◌then◌else◌}
use content_hub.Base.Effects.{M, ok, err, ◌>>=◌, ◌>>◌, return, database}
use content_hub.Publish.Posts.{Post}
use content_hub.Publish.Store.{Store, Ports, Job, record_audit, audit_row, publish_attempt_started}

abbrev pub job_of : Post → ℕ → ℕ → Job
job_of post user_id account_id = record {
  post_id = post.id;
  requested_by = user_id;
  connected_account_id = account_id;
  job_version = post.version;
}

-- The two jobs have one `jobId`, which is made of the key of the post and its version.
unfoldable pub same_job : Job → Job → Bool
same_job a b = a.post_id == b.post_id && a.job_version == b.job_version

-- `Queue.add`: a job whose `jobId` is known to the queue, which keeps its jobs, is not added again.
unfoldable pub add_job : Job → List Job → List Job
unfolding same_job
add_job job jobs = if any (same_job job) jobs then jobs else job ∷ jobs

-- `auditAndEnqueue`
unfoldable pub audit_and_enqueue : Ports → Post → ℕ → ℕ → M Store (Unit {0})
unfolding record_audit
audit_and_enqueue ports post user_id account_id s =
    let s' = record_audit (audit_row user_id publish_attempt_started true (some post.id)) s in
    if ports.queue_up
    then (ok tt, record s' { queue = add_job (job_of post user_id account_id) s'.queue })
    else (err database, s')

-- What is to be dispatched: the row in the table, and the account to publish it from.
pub record Intent : Type 0 where
  pub post : Post
  pub account_id : ℕ

-- How `createAndDispatch` and `redispatch` end.
abbrev pub dispatch_intent : Ports → ℕ → M Store Intent → M Store Post
dispatch_intent ports user_id persist = do
  intent ← persist
  audit_and_enqueue ports intent.post user_id intent.account_id
  return intent.post
