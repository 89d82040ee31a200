-- ===== src/Publish/Execution/Outcome.antt =====
-- What the outcome of a run says of the row and of the audit log, where nothing else writes meanwhile.
use content_hub.Base.{
  ℕ, ◌+◌, ◌≡◌, refl, ◌∙◌, inl, inr, true, false, List, [], ◌∷◌, some, String, arith, Option-cases,
}
use content_hub.Publish.Posts.{Post, PostStatus, find_post}
use content_hub.Publish.Posts.Laws.{find_post-id}
use content_hub.Publish.Store.{
  Store, Job, AuditEntry, publish_succeeded, publish_failed, publish_unconfirmed, audit_row,
  record_audit,
}
use content_hub.Publish.Execution.{
  Env, Written, count, error, Stage, ExecutionOutcome, idle, loading, claiming, fetching, opening,
  dispatching, recording, failing, unconfirming, done, crashed, posted, failed, posted_unconfirmed,
  lost_claim, missing, advance, run, execute, after_claim, after_record, after_fail, with_posts,
  at_version,
}
use content_hub.Publish.Execution.Writes.{
  Hit, write-Hit, Claimed, write-Claimed, set_posted_keeps, set_posted_status, set_failed_keeps,
  set_failed_status, at_version_hit,
}

-- The row is there with the status, and the last audit row is of the kind.
abbrev pub Shows : ℕ → PostStatus → Store → Type 0
Shows k status s = (p : Post) × (find_post k s.posts ≡ some p) × (p.status ≡ status)

-- No lookup and no audit row has changed.
abbrev pub Untouched : Store → Store → Type 0
Untouched s t = ((j : ℕ) → find_post j t.posts ≡ find_post j s.posts) × (t.audit ≡ s.audit)

abbrev pub Audited : AuditEntry → Store → Store → Type 0
Audited row s t = t.audit ≡ row ∷ s.audit

-- What an outcome says, for the job, the store before and the store after the run.
abbrev pub Told : Job → Store → ExecutionOutcome → Store → Type 0
Told job s posted t =
    Shows job.post_id PostStatus.posted t
    × Audited (audit_row job.requested_by publish_succeeded true (some job.post_id)) s t
Told job s failed t =
    Shows job.post_id PostStatus.failed t
    × Audited (audit_row job.requested_by publish_failed false (some job.post_id)) s t
Told job s posted_unconfirmed t =
    Audited (audit_row job.requested_by publish_unconfirmed false (some job.post_id)) s t
Told job s lost_claim t = Untouched s t
Told job s missing t = Untouched s t

-- The run holds the row: it is scheduled, with the version that the claim has set.
abbrev Holds : Job → Store → Job → ℕ → ℕ → Store → Type 0
Holds job s job' id version t =
    (job' ≡ job)
    × (id ≡ job.post_id)
    × (t.audit ≡ s.audit)
    × ((p : Post) × (find_post job.post_id t.posts ≡ some p) × (p.version ≡ version))

abbrev Tells : Job → Store → Stage → Store → Type 0
Tells job s idle t = Unit
Tells job s (loading job') t = (job' ≡ job) × Untouched s t
Tells job s (claiming job' post) t = (job' ≡ job) × (post.id ≡ job.post_id) × Untouched s t
Tells job s (fetching job' post version) t = Holds job s job' post.id version t
Tells job s (opening job' post version token) t = Holds job s job' post.id version t
Tells job s (dispatching job' post version) t = Holds job s job' post.id version t
Tells job s (recording job' post version id) t = Holds job s job' post.id version t
Tells job s (failing job' post_id version) t = Holds job s job' post_id version t
Tells job s (unconfirming job' post_id id) t =
    (job' ≡ job) × (post_id ≡ job.post_id) × (t.audit ≡ s.audit)
Tells job s (done outcome) t = Told job s outcome t
Tells job s crashed t = Unit

claiming-Tells :
    (job : Job) (s : Store) (post : Post) (t : Store) (r : Written × List Post)
    → post.id ≡ job.post_id
    → Untouched s t
    → Claimed post.id (post.version + 1) t.posts r
    → Tells job s (after_claim job post r.0) (with_posts t r.1)
unfolding after_claim
claiming-Tells job s post t (error, rows) same untouched claimed = tt
claiming-Tells job s post t (count n, rows) same (lookups, log) (inl (one, (p, found, version))) =
    rw one (refl, same, log, (p, rw same at found, version))
claiming-Tells job s post t (count n, rows) same (lookups, log) (inr (zero_rows, unchanged)) =
    rw zero_rows ((λ j. unchanged j ∙ lookups j), log)

recording-Tells :
    (job : Job) (s : Store) (post p : Post) (id : String) (t : Store) (r : Written × List Post)
    → post.id ≡ job.post_id
    → t.audit ≡ s.audit
    → p.status ≡ PostStatus.posted
    → Hit post.id p r
    → Tells job s
        (after_record job post id r.0 (with_posts t r.1)).0
        (after_record job post id r.0 (with_posts t r.1)).1
unfolding after_record record_audit
recording-Tells job s post p id t (error, rows) same log status hit = (refl, same, log)
recording-Tells job s post p id t (count n, rows) same log status (one, found) =
    rw one ((p, rw same at found, status), rw (same, log) refl)

failing-Tells :
    (job : Job) (s : Store) (p : Post) (id : ℕ) (t : Store) (r : Written × List Post)
    → id ≡ job.post_id
    → t.audit ≡ s.audit
    → p.status ≡ PostStatus.failed
    → Hit id p r
    → Tells job s
        (after_fail job id r.0 (with_posts t r.1)).0
        (after_fail job id r.0 (with_posts t r.1)).1
unfolding after_fail record_audit
failing-Tells job s p id t (error, rows) same log status hit = tt
failing-Tells job s p id t (count n, rows) same log status (one, found) =
    ((p, rw same at found, status), rw (same, log) refl)

advance-Tells :
    (env : Env) (job : Job) (s : Store) (stage : Stage) (t : Store)
    → Tells job s stage t
    → Tells job s (advance env stage t).0 (advance env stage t).1
unfolding advance
advance-Tells env job s idle t h = tt
advance-Tells env job s (loading job') t h = elim (Option-cases (find_post job'.post_id t.posts)) [
  | inl none_found ↦ ground arith
  | inr (p, found) ↦ elim (Option-cases p.selected_platform) [
    | inl legacy ↦ ground arith
    | inr (platform, chosen) ↦ ground (arith, find_post-id job'.post_id t.posts found)
  ]
]
advance-Tells env job s (claiming job' post) t (mine, same, untouched) = rw mine (
    claiming-Tells job s post t _ same untouched
      (write-Claimed env.fate post.id post.version env.now job.requested_by t.posts))
advance-Tells env job s (fetching job' post version) t h = ground arith
advance-Tells env job s (opening job' post version token) t h = ground arith
advance-Tells env job s (dispatching job' post version) t h = ground arith
advance-Tells env job s (recording job' post version id) t (mine, same, log, (p, found, at)) =
    rw mine (
      recording-Tells job s post _ id t _ same log (set_posted_status env.now job.requested_by id p)
        (write-Hit env.fate post.id (at_version version) _ t.posts
          (set_posted_keeps env.now job.requested_by id) (rw same found)
          (at_version_hit version p at)))
advance-Tells env job s (failing job' post_id version) t (mine, same, log, (p, found, at)) =
    rw mine (
      failing-Tells job s _ post_id t _ same log (set_failed_status job.requested_by p) (
        write-Hit env.fate post_id (at_version version) _ t.posts
          (set_failed_keeps job.requested_by) (rw same found) (at_version_hit version p at)))
advance-Tells env job s (unconfirming job' post_id id) t (mine, same, log) =
    rw (mine, same, log) refl
advance-Tells env job s (done outcome) t h = h
advance-Tells env job s crashed t h = tt

run-Tells :
    (envs : List Env) (job : Job) (s : Store) (stage : Stage) (t : Store)
    → Tells job s stage t
    → Tells job s (run envs (stage, t)).0 (run envs (stage, t)).1
unfolding run
run-Tells [] job s stage t h = h
run-Tells (env ∷ envs) job s stage t h =
    run-Tells envs job s (advance env stage t).0 (advance env stage t).1
      (advance-Tells env job s stage t h)

-- The outcome of a run of the job, where nothing else writes meanwhile: posted and failed mean that the
-- row has this status and that one audit row says so, posted_unconfirmed that one audit row says so, and
-- lost_claim and missing that no lookup of a post and no audit row has changed.
pub execute-Told :
    (envs : List Env) (job : Job) (s : Store) {outcome : ExecutionOutcome}
    → (execute envs job s).0 ≡ done outcome
    → Told job s outcome (execute envs job s).1
execute-Told envs job s {outcome} e =
    rw e at (run-Tells envs job s (loading job) s (refl, ((λ j. refl), refl)))
