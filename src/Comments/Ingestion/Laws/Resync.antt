-- ===== src/Comments/Ingestion/Laws/Resync.antt =====
-- A sync that is run again, with the same answers of the platforms.
use content_hub.Base.{
  ℕ, ◌≡◌, refl, sym, ap, ◌∙◌, inl, inr, true, false, List, [], ◌∷◌, arith, Bool-cases,
}
use mathlib.Core.Path.{subst}
use content_hub.Base.Effects.{Result, ok, err, conflict}
use content_hub.Publish.Posts.{Post}
use content_hub.Publish.Store.{ConnectedAccount, record_audit}
use content_hub.Comments.Records.{Comment}
use content_hub.Comments.Escalation.{Desk, evaluate}
use content_hub.Comments.Ingestion.{
  SyncEnv, Feed, account_of, eligible_posts, sync_loop, CommentSyncResult, result_of, conclude_sync,
  run_sync, sync_comments,
}
use content_hub.Comments.Ingestion.Laws.Posts.{
  later, SeenPost-later, SeenAll, posts_seen, posts_again,
}

-- The alerts leave the comments alone.
evaluate-comments :
    (id actor now : ℕ) (s : Desk) → (evaluate id actor now s).1.comments ≡ s.comments
unfolding evaluate
evaluate-comments id actor now s = ground arith

-- The end of a run leaves the comments, the posts and the accounts alone.
concluded_comments :
    (env : SyncEnv) (user_id : ℕ) (result : CommentSyncResult) (s : Feed)
    → (conclude_sync env user_id result s).desk.comments ≡ s.desk.comments
unfolding conclude_sync
concluded_comments env user_id result s = evaluate-comments env.alert_id user_id env.now s.desk

concluded_posts :
    (env : SyncEnv) (user_id : ℕ) (result : CommentSyncResult) (s : Feed)
    → (conclude_sync env user_id result s).store.posts ≡ s.store.posts
unfolding conclude_sync record_audit
concluded_posts env user_id result s = refl

concluded_accounts :
    (env : SyncEnv) (user_id : ℕ) (result : CommentSyncResult) (s : Feed)
    → (conclude_sync env user_id result s).store.accounts ≡ s.store.accounts
unfolding conclude_sync record_audit
concluded_accounts env user_id result s = refl

SeenAll-later :
    (env : SyncEnv) (posts : List Post) (user_id : ℕ) (accounts : List ConnectedAccount)
    (cs : List Comment) (a n : ℕ)
    → SeenAll env posts user_id accounts cs
    → SeenAll (later env a n) posts user_id accounts cs
SeenAll-later env [] user_id accounts cs a n h = tt
SeenAll-later env (p ∷ ps) user_id accounts cs a n (h, hs) = (
  SeenPost-later env (account_of p user_id accounts) p cs a n h,
  SeenAll-later env ps user_id accounts cs a n hs,
)

-- After a run every eligible post was seen.
after_run :
    (env : SyncEnv) (user_id : ℕ) (s : Feed)
    → let t = (run_sync env user_id s).1 in
      SeenAll env (eligible_posts t.store.posts) user_id t.store.accounts t.desk.comments
unfolding run_sync
after_run env user_id s =
    let posts = eligible_posts s.store.posts in
    let (items, t) = sync_loop env posts user_id s in
    let result = result_of posts items in
    let (g, seen) = posts_seen env posts user_id s in
    subst
      (λ ps.
        SeenAll env (eligible_posts ps) user_id (conclude_sync env user_id result t).store.accounts
          (conclude_sync env user_id result t).desk.comments)
      (sym (concluded_posts env user_id result t ∙ ap (λ store. store.posts) g.store))
      (subst
        (λ accounts.
          SeenAll env posts user_id accounts (conclude_sync env user_id result t).desk.comments)
        (sym (concluded_accounts env user_id result t ∙ ap (λ store. store.accounts) g.store))
        (subst (λ cs. SeenAll env posts user_id s.store.accounts cs)
          (sym (concluded_comments env user_id result t)) seen))

-- A run over a world that was seen.
run_again :
    (env : SyncEnv) (user_id : ℕ) (s : Feed)
    → SeenAll env (eligible_posts s.store.posts) user_id s.store.accounts s.desk.comments
    → let r = run_sync env user_id s in (r.0.inserted ≡ 0) × (r.1.desk.comments ≡ s.desk.comments)
unfolding run_sync result_of
run_again env user_id s h =
    let posts = eligible_posts s.store.posts in
    let (items, t) = sync_loop env posts user_id s in
    let (same, none_new) = posts_again env posts user_id s h in
    (
      none_new,
      concluded_comments env user_id (result_of posts items) t ∙ ap (λ u. u.desk.comments) same,
    )

-- The feed between two runs.
pub record IsSettled (env : SyncEnv) (user_id : ℕ) (t : Feed) : Type 0 where
  pub free : t.sync_in_flight ≡ false
  pub seen : SeenAll env (eligible_posts t.store.posts) user_id t.store.accounts t.desk.comments

-- The run of a sync that finds the flag free.
abbrev ran : SyncEnv → ℕ → Feed → CommentSyncResult × Feed
ran env user_id s = run_sync env user_id (record s { sync_in_flight = true })

started :
    (env : SyncEnv) (user_id : ℕ) (s : Feed)
    → s.sync_in_flight ≡ false
    → sync_comments env user_id s
      ≡ (ok (ran env user_id s).0, record (ran env user_id s).1 { sync_in_flight = false })
unfolding sync_comments
started env user_id s idle = ground (arith, idle)

refused :
    (env : SyncEnv) (user_id : ℕ) (s : Feed)
    → s.sync_in_flight ≡ true
    → sync_comments env user_id s ≡ (err conflict, s)
unfolding sync_comments
refused env user_id s busy = ground (arith, busy)

pub settled :
    (env : SyncEnv) (user_id : ℕ) (s t : Feed) (result : CommentSyncResult)
    → sync_comments env user_id s ≡ (ok result, t)
    → IsSettled env user_id t
settled env user_id s t result h = elim (Bool-cases s.sync_in_flight) [
  | inl busy ↦ absurd (ground (arith, ap (λ r. r.0) (sym (refused env user_id s busy) ∙ h)))
  | inr idle ↦
      subst (λ u. IsSettled env user_id u) (ap (λ r. r.1) (sym (started env user_id s idle) ∙ h))
        (record { free = refl; seen = after_run env user_id (record s { sync_in_flight = true }) })
]

-- What a sync returns that finds nothing new.
pub record Idle (r : Result CommentSyncResult × Feed) (t : Feed) : Type 0 where
  pub again : CommentSyncResult
  pub returned : r.0 ≡ ok again
  pub nothing_new : again.inserted ≡ 0
  pub unchanged : r.1.desk.comments ≡ t.desk.comments

idles :
    (env : SyncEnv) (user_id : ℕ) (t : Feed)
    → IsSettled env user_id t
    → Idle (sync_comments env user_id t) t
idles env user_id t h =
    let (nothing, same) = run_again env user_id (record t { sync_in_flight = true }) h.seen in
    subst (λ r. Idle r t) (sym (started env user_id t h.free))
      (record {
        again = (ran env user_id t).0;
        returned = refl;
        nothing_new = nothing;
        unchanged = same;
      })

-- When a sync has returned, a sync that follows it, at any time and with any key of an alert, and with
-- the same answers of the platforms and of the classifier, returns too; it inserts nothing, and the
-- comments stay as they were.
pub resync :
    (env : SyncEnv) (user_id : ℕ) (s t : Feed) (result : CommentSyncResult) (alert_id now : ℕ)
    → sync_comments env user_id s ≡ (ok result, t)
    → Idle (sync_comments (record env { alert_id = alert_id; now = now }) user_id t) t
resync env user_id s t result alert_id now h =
    let between = settled env user_id s t result h in
    idles (record env { alert_id = alert_id; now = now }) user_id t
      (record {
        free = between.free;
        seen =
            SeenAll-later env (eligible_posts t.store.posts) user_id t.store.accounts
              t.desk.comments alert_id now between.seen;
      })
