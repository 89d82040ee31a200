-- ===== src/Publish/Execution.antt =====
-- backend/src/modules/publish/publish-execution.service.ts: one run of a publish job, cut at the places
-- where it awaits. A stage holds the local variables that are live there. What a stage meets outside
-- (the token, the platform's answer, whether a write to the database goes through) is its `Env`.
pub mod Writes
pub mod Outcome
use content_hub.Base.{
  ℕ, zero, suc, ◌+◌, ◌≡◌, Bool, true, false, not, ◌&&◌, ◌||◌, List, [], ◌∷◌, Option, none, some,
  String, length, ◌==◌, if◌then◌else◌,
}
use content_hub.Content.Gate.Trim.{codes}
use content_hub.Publish.Posts.{Post, PostStatus, is_dispatchable, find_post, update_many}
use content_hub.Publish.Store.{
  Store, Job, AuditAction, publish_succeeded, publish_failed, publish_unconfirmed, record_audit,
  audit_row, find_account,
}

-- adapters/publisher.errors.ts; `other` is any error outside the family of PublisherError.
pub data PublisherError : Type 0 where
  token_error validation_error rejected_error ambiguous_error not_implemented other : PublisherError

-- `isConfirmedNotPosted`
unfoldable pub is_confirmed_not_posted : PublisherError → Bool
is_confirmed_not_posted token_error = true
is_confirmed_not_posted validation_error = true
is_confirmed_not_posted rejected_error = true
is_confirmed_not_posted _ = false

-- How `adapter.publish` ends: with the platform's id of the post, or by a throw.
pub data Answer : Type 0 where
  published : String → Answer
  raised : PublisherError → Answer

-- The answer, and whether the platform did create a post.
pub record Reply : Type 0 where
  pub answer : Answer
  pub created : Bool

-- A write to the database: done, refused with an error, or done although an error is reported.
pub data Fate : Type 0 where
  applied lost applied_with_error : Fate

pub record Env : Type 0 where
  pub now : ℕ
  pub token : Option String
  pub reply : Reply
  pub fate : Fate

-- `ExecutionOutcome`
pub data ExecutionOutcome : Type 0 where
  posted failed posted_unconfirmed lost_claim missing : ExecutionOutcome

pub data Stage : Type 0 where
  idle : Stage
  loading : Job → Stage  -- before `post.findUnique`
  claiming : Job → Post → Stage  -- before the claim
  fetching : Job → Post → ℕ → Stage  -- before `getTokenOrNull`
  opening : Job → Post → ℕ → String → Stage  -- before `connectedAccount.findUnique`
  dispatching : Job → Post → ℕ → Stage  -- before `adapter.publish`
  recording : Job → Post → ℕ → String → Stage  -- before the terminal write
  failing : Job → ℕ → ℕ → Stage  -- before the write of `markFailed`
  unconfirming : Job → ℕ → Option String → Stage  -- before the write of `markUnconfirmed`
  done : ExecutionOutcome → Stage
  crashed : Stage  -- the promise was rejected, or the process died

-- How an `updateMany` ends for its caller, with the rows that it leaves.
pub data Written : Type 0 where
  count : ℕ → Written
  error : Written

settle : Fate → List Post → Option (ℕ × List Post) → Written × List Post
settle lost ps r = (error, ps)
settle fate ps none = (error, ps)
settle applied ps (some (n, rows)) = (count n, rows)
settle applied_with_error ps (some (n, rows)) = (error, rows)

unfoldable pub write : Fate → ℕ → (Post → Bool) → (Post → Post) → List Post → Written × List Post
unfolding settle
write fate id where_ data_ ps = settle fate ps (update_many id where_ data_ ps)

-- The condition and the data of the claim.
unfoldable pub claimable : ℕ → Post → Bool
claimable version p = is_dispatchable p.status && p.version == version

unfoldable pub set_claimed : ℕ → ℕ → Post → Post
set_claimed now requested_by p = record p {
  status = PostStatus.scheduled;
  scheduled_at = some now;
  executed_by = some requested_by;
  version = p.version + 1;
}

-- The condition of the terminal writes: the version that the claim has set.
unfoldable pub at_version : ℕ → Post → Bool
at_version version p = p.version == version

unfoldable pub set_posted : ℕ → ℕ → String → Post → Post
set_posted now requested_by external_post_id p = record p {
  status = PostStatus.posted;
  external_post_id = some external_post_id;
  posted_at = some now;
  executed_by = some requested_by;
  version = p.version + 1;
}

unfoldable pub set_failed : ℕ → Post → Post
set_failed requested_by p = record p {
  status = PostStatus.failed;
  executed_by = some requested_by;
  version = p.version + 1;
}

-- `...(externalPostId && { externalPostId })`: null and the empty string write nothing.
abbrev or_keep : Option String → Option String → Option String
or_keep none old = old
or_keep (some new) old = if length (codes new) == 0 then old else some new

unfoldable pub set_unconfirmed : ℕ → Option String → Post → Post
set_unconfirmed requested_by external_post_id p = record p {
  status = PostStatus.posted_unconfirmed;
  external_post_id = or_keep external_post_id p.external_post_id;
  executed_by = some requested_by;
  version = p.version + 1;
}

abbrev pub with_posts : Store → List Post → Store
with_posts s rows = record s { posts = rows }

-- `execute`, up to the claim.
load : Job → Store → Stage
load job s = elim (find_post job.post_id s.posts) [
  | none ↦ done missing
  | some post ↦ elim post.selected_platform [ none ↦ done missing | some _ ↦ claiming job post ]
]

-- `claim`: the stage after its write.
after_claim : Job → Post → Written → Stage
after_claim job post (count n) =
    if n == 1 then fetching job post (post.version + 1) else done lost_claim
after_claim job post error = crashed

-- `getTokenOrNull` and the branch on it.
fetch : Job → Post → ℕ → Option String → Stage
fetch job post version none = failing job post.id version
fetch job post version (some token) = opening job post version token

open_account : Job → Post → ℕ → Store → Stage
open_account job post version s = elim (find_account job.connected_account_id s.accounts) [
  | none ↦ failing job post.id version
  | some _ ↦ dispatching job post version
]

-- The `try` and `catch` of `dispatchAndRecord`.
after_dispatch : Job → Post → ℕ → Answer → Stage
unfolding is_confirmed_not_posted
after_dispatch job post version (published id) = recording job post version id
after_dispatch job post version (raised e) =
    if is_confirmed_not_posted e then failing job post.id version else unconfirming job post.id none

-- `recordSuccess` after its write; the audit row only on success.
after_record : Job → Post → String → Written → Store → Stage × Store
after_record job post id (count n) s =
    if n == 1
    then (
      done posted,
      record_audit (audit_row job.requested_by publish_succeeded true (some post.id)) s,
    )
    else (unconfirming job post.id (some id), s)
after_record job post id error s = (unconfirming job post.id (some id), s)

-- `markFailed` after its write, whose count nobody reads.
after_fail : Job → ℕ → Written → Store → Stage × Store
after_fail job post_id (count n) s =
    (done failed, record_audit (audit_row job.requested_by publish_failed false (some post_id)) s)
after_fail job post_id error s = (crashed, s)

-- One step of a run.
unfoldable pub advance : Env → Stage → Store → Stage × Store
unfolding load after_claim fetch open_account after_dispatch after_record after_fail record_audit
advance env idle s = (idle, s)
advance env (loading job) s = (load job s, s)
advance env (claiming job post) s =
    let (w, rows) =
      write env.fate post.id (claimable post.version) (set_claimed env.now job.requested_by)
        s.posts in
    (after_claim job post w, with_posts s rows)
advance env (fetching job post version) s = (fetch job post version env.token, s)
advance env (opening job post version token) s = (open_account job post version s, s)
advance env (dispatching job post version) s = (after_dispatch job post version env.reply.answer, s)
advance env (recording job post version id) s =
    let (w, rows) =
      write env.fate post.id (at_version version) (set_posted env.now job.requested_by id)
        s.posts in
    after_record job post id w (with_posts s rows)
advance env (failing job post_id version) s =
    let (w, rows) =
      write env.fate post_id (at_version version) (set_failed job.requested_by) s.posts in
    after_fail job post_id w (with_posts s rows)
advance env (unconfirming job post_id id) s =
    let (w, rows) =
      write env.fate post_id (λ _. true) (set_unconfirmed job.requested_by id) s.posts in
    (
      done posted_unconfirmed,
      record_audit (audit_row job.requested_by publish_unconfirmed false (some post_id))
          (with_posts s rows),
    )
advance env (done outcome) s = (done outcome, s)
advance env crashed s = (crashed, s)

-- The platform's posts after the step, each by the post that it was published for.
unfoldable pub dispatched : Env → Stage → List ℕ → List ℕ
dispatched env (dispatching job post version) live =
    if env.reply.created then post.id ∷ live else live
dispatched env _ live = live

-- `execute`, with an environment for each of its steps.
unfoldable pub run : List Env → Stage × Store → Stage × Store
run [] (stage, s) = (stage, s)
run (env ∷ envs) (stage, s) = run envs (advance env stage s)

abbrev pub execute : List Env → Job → Store → Stage × Store
execute envs job s = run envs (loading job, s)
