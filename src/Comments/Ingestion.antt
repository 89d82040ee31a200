-- ===== src/Comments/Ingestion.antt =====
-- backend/src/modules/comments/comment-ingestion.service.ts: the comments of the platforms are pulled and appended, with
-- those skipped that the table has. What the request meets outside is its `SyncEnv`. A comment is stored without the author's key
-- on the platform and the source of its sentiment, which no modelled code reads.
pub mod Laws
mod Tests
use content_hub.Base.{
  ℕ, ◌+◌, Bool, true, false, not, ◌&&◌, ◌||◌, List, [], ◌∷◌, Option, none, some, String, ◌==◌, ltb,
  leb, includes, find, keep, length, if◌then◌else◌,
}
use content_hub.Base.Effects.{M, Result, ok, err, conflict}
use content_hub.Base.Tables.{insert_unique}
use text.Mathlib.Text.{◌==◌ as str_eq}
use content_hub.Schema.{Platform, platform_index, platform_eq}
use content_hub.Content.Gate.Trim.{codes}
use content_hub.Publish.Posts.{Post, PostStatus, post_status_eq}
use content_hub.Publish.Store.{
  Store, ConnectedAccount, comment_sync_run, record_audit, audit_row, is_connected,
}
use content_hub.Comments.Records.{Comment, Sentiment}
use content_hub.Comments.Escalation.{Desk, evaluate}
use content_hub.Comments.Triage.{classify_priority, due_at}

pub record CommentSnapshot : Type 0 where
  pub external_comment_id : String
  pub author : String
  pub text : String
  pub created_at : ℕ
  pub replyable : Bool

-- The snapshots of a post, or none where `getValidToken` or `fetchComments` throws; the sentiment of a text, or
-- none where the classifier throws; whether an insertion goes through; the fresh key of an alert, and
-- the time.
pub record SyncEnv : Type 0 where
  pub fetch : Post → Option (List CommentSnapshot)
  pub classify : String → Option Sentiment
  pub stores : CommentSnapshot → Bool
  pub alert_id : ℕ
  pub now : ℕ

-- The tables, the next fresh key of a comment, and the flag `syncInFlight`.
pub record Feed : Type 0 where
  pub store : Store
  pub desk : Desk
  pub next_id : ℕ
  pub sync_in_flight : Bool

-- `COMMENT_API_CAPABLE_PLATFORMS` and `COMMENT_ELIGIBLE_STATUSES`
abbrev pub comment_api_capable_platforms : List Platform
comment_api_capable_platforms = Platform.facebook ∷ Platform.youtube ∷ []

abbrev pub comment_eligible_statuses : List PostStatus
comment_eligible_statuses = PostStatus.posted ∷ PostStatus.posted_unconfirmed ∷ []

-- The partial unique index on platform and external key. The fresh primary key of a row is taken to be new.
abbrev pub same_external : Option String → Option String → Bool
same_external (some a) (some b) = str_eq a b
same_external _ _ = false

unfoldable pub comments_clash : Comment → Comment → Bool
comments_clash c d =
    platform_index c.platform == platform_index d.platform
    && same_external c.external_comment_id d.external_comment_id

-- The data of `persistSnapshot`, with the defaults of the schema.
unfoldable pub new_comment : ℕ → Post → CommentSnapshot → Sentiment → Comment
new_comment id post snapshot sentiment =
    let priority = classify_priority (codes snapshot.text) (some sentiment) in
    record {
      id = id;
      post_id = post.id;
      platform = post.platform;
      author = snapshot.author;
      text = snapshot.text;
      sentiment = some sentiment;
      collected_at = snapshot.created_at;
      external_comment_id = some snapshot.external_comment_id;
      priority = some priority;
      sla_due_at = due_at priority snapshot.created_at;
      replyable = snapshot.replyable;
      replied_at = none;
      replied_by = none;
      reply_text = none;
      reply_external_id = none;
    }

unfoldable pub with_comments : List Comment → Feed → Feed
with_comments rows s = record s {
  desk = record { comments = rows; alerts = s.desk.alerts; raised = s.desk.raised };
  next_id = s.next_id + 1;
}

-- `createMany` with `skipDuplicates`, and its count.
unfoldable pub append_comment : Comment → Feed → ℕ × Feed
append_comment c s = elim (insert_unique comments_clash c s.desk.comments) [
  | none ↦ (0, s)
  | some rows ↦ (1, with_comments rows s)
]

-- `persistSnapshot`; none where it throws.
unfoldable pub persist_snapshot : SyncEnv → Post → CommentSnapshot → Feed → Option ℕ × Feed
persist_snapshot env post snapshot s = elim (env.classify snapshot.text) [
  | none ↦ (none, s)
  | some sentiment ↦
      if not (env.stores snapshot)
      then (none, s)
      else let (count, t) = append_comment (new_comment s.next_id post snapshot sentiment) s in
        (some count, t)
]

-- The loop over the snapshots, with the rows that are inserted.
unfoldable pub persist_loop : SyncEnv → Post → List CommentSnapshot → ℕ → Feed → Option ℕ × Feed
persist_loop env post [] inserted s = (some inserted, s)
persist_loop env post (x ∷ snapshots) inserted s =
    let (count, t) = persist_snapshot env post x s in
    elim count [ none ↦ (none, t) | some n ↦ persist_loop env post snapshots (inserted + n) t ]

pub data SyncOutcome : Type 0 where
  synced : ℕ → SyncOutcome
  skipped failed : SyncOutcome

abbrev outcome_of : Option ℕ × Feed → SyncOutcome × Feed
outcome_of (none, s) = (failed, s)
outcome_of (some inserted, s) = (synced inserted, s)

-- `findConnectedAccount`
unfoldable pub account_of : Post → ℕ → List ConnectedAccount → Option ConnectedAccount
account_of post user_id accounts =
    find
      (λ a.
        a.user_id == user_id
        && platform_index a.platform == platform_index post.platform
        && is_connected a.status)
      accounts

-- `syncOnePost`
unfoldable pub sync_one_post : SyncEnv → Post → ℕ → Feed → SyncOutcome × Feed
unfolding account_of
sync_one_post env post user_id s = elim (account_of post user_id s.store.accounts) [
  | none ↦ (skipped, s)
  | some account ↦ elim (env.fetch post) [
    | none ↦ (failed, s)
    | some snapshots ↦ outcome_of (persist_loop env post snapshots 0 s)
  ]
]

-- `orderBy: { postedAt: 'asc' }`, where Postgres puts the null last.
abbrev pub posted_before : Option ℕ → Option ℕ → Bool
posted_before (some a) (some b) = ltb a b
posted_before (some a) none = true
posted_before none _ = false

unfoldable pub insert_post : Post → List Post → List Post
insert_post p [] = p ∷ []
insert_post p (q ∷ qs) =
    if posted_before q.posted_at p.posted_at then q ∷ insert_post p qs else p ∷ q ∷ qs

unfoldable pub order_posts : List Post → List Post
order_posts [] = []
order_posts (p ∷ ps) = insert_post p (order_posts ps)

-- The posts of `runSync`.
unfoldable pub eligible_posts : List Post → List Post
unfolding order_posts insert_post
eligible_posts posts = order_posts (
    keep
      (λ p.
        includes comment_eligible_statuses p.status
        && includes comment_api_capable_platforms p.platform)
      posts)

-- The loop of `runSync`.
unfoldable pub sync_loop : SyncEnv → List Post → ℕ → Feed → List SyncOutcome × Feed
sync_loop env [] user_id s = ([], s)
sync_loop env (post ∷ posts) user_id s =
    let (item, t) = sync_one_post env post user_id s in
    let (items, u) = sync_loop env posts user_id t in (item ∷ items, u)

abbrev pub is_synced : SyncOutcome → Bool
is_synced (synced n) = true
is_synced _ = false

abbrev pub is_skipped : SyncOutcome → Bool
is_skipped skipped = true
is_skipped _ = false

abbrev pub is_failed : SyncOutcome → Bool
is_failed failed = true
is_failed _ = false

abbrev pub total_inserted : List SyncOutcome → ℕ
total_inserted [] = 0
total_inserted (synced n ∷ items) = n + total_inserted items
total_inserted (skipped ∷ items) = total_inserted items
total_inserted (failed ∷ items) = total_inserted items

pub record CommentSyncResult : Type 0 where
  pub eligible : ℕ
  pub synced_count : ℕ
  pub skipped_count : ℕ
  pub failed_count : ℕ
  pub inserted : ℕ
  pub items : List SyncOutcome

unfoldable pub result_of : List Post → List SyncOutcome → CommentSyncResult
result_of posts items = record {
  eligible = length posts;
  synced_count = length (keep is_synced items);
  skipped_count = length (keep is_skipped items);
  failed_count = length (keep is_failed items);
  inserted = total_inserted items;
  items = items;
}

-- The audit row and the escalation at the end of `runSync`.
unfoldable pub conclude_sync : SyncEnv → ℕ → CommentSyncResult → Feed → Feed
conclude_sync env user_id result s = record s {
  store = record_audit (audit_row user_id comment_sync_run (result.failed_count == 0) none) s.store;
  desk = (evaluate env.alert_id user_id env.now s.desk).1;
}

-- `runSync`
unfoldable pub run_sync : SyncEnv → ℕ → Feed → CommentSyncResult × Feed
run_sync env user_id s =
    let posts = eligible_posts s.store.posts in
    let (items, t) = sync_loop env posts user_id s in
    let result = result_of posts items in (result, conclude_sync env user_id result t)

-- `syncComments`: the flag is set before and reset behind the awaits of the run.
unfoldable pub sync_comments : SyncEnv → ℕ → M Feed CommentSyncResult
sync_comments env user_id s =
    if s.sync_in_flight
    then (err conflict, s)
    else let (result, t) = run_sync env user_id (record s { sync_in_flight = true }) in
      (ok result, record t { sync_in_flight = false })
