-- ===== src/Comments/Ingestion/Tests.antt =====
-- Two syncs of one post.
use content_hub.Base.{inl, inr, ◌≡◌, refl, true, false, [], ◌∷◌, some, String}
use content_hub.Base.Effects.{err, conflict}
use content_hub.Base.Tables.{insert_unique}
use content_hub.Publish.Posts.{Post, PostStatus}
use content_hub.Publish.Store.{record_audit}
use content_hub.Publish.Samples.{before, failed_row}
use content_hub.Comments.Records.{neutral}
use content_hub.Comments.Escalation.{evaluate, negative_count, floor_to_hour}
use content_hub.Comments.Ingestion.{
  CommentSnapshot, SyncEnv, Feed, comments_clash, new_comment, with_comments, append_comment,
  persist_snapshot, persist_loop, account_of, sync_one_post, eligible_posts, sync_loop, result_of,
  conclude_sync, run_sync, sync_comments, insert_post, order_posts,
}
use content_hub.Comments.Ingestion.Laws.{IsPresent}
use content_hub.Comments.Ingestion.Laws.Resync.{Idle, resync}
use content_hub.Comments.Ingestion.Laws.Shown.{sync_comments-IsPresent}

abbrev shown : String → CommentSnapshot
shown key = record {
  external_comment_id = key;
  author = "a";
  text = "nice";
  created_at = 10;
  replyable = true;
}

-- The platform shows one comment twice.
abbrev env : SyncEnv
env = record {
  fetch = λ post. some (shown "c1" ∷ shown "c2" ∷ shown "c1" ∷ []);
  classify = λ text. some neutral;
  stores = λ x. true;
  alert_id = 1;
  now = 3600000;
}

abbrev posted_row : Post
posted_row = record failed_row { status = PostStatus.posted; posted_at = some 5 }

abbrev feed : Feed
feed = record {
  store = record before { posts = posted_row ∷ [] };
  desk = record { comments = []; alerts = []; raised = [] };
  next_id = 1;
  sync_in_flight = false;
}

syncing : Unit {0}
unfolding sync_comments run_sync conclude_sync result_of sync_loop eligible_posts sync_one_post
    account_of persist_loop persist_snapshot append_comment with_comments new_comment comments_clash
    evaluate negative_count floor_to_hour record_audit insert_unique
syncing = tt

-- The second of the two is skipped.
inserts_two : (run_sync env 1 feed).0.inserted ≡ 2
unfolding syncing
inserts_two = refl

-- A sync while one runs is refused.
one_at_a_time :
    sync_comments env 1 (record feed { sync_in_flight = true })
    ≡ (err conflict, record feed { sync_in_flight = true })
unfolding syncing
one_at_a_time = refl

abbrev once : Feed
once = (sync_comments env 1 feed).1

resync_example : Idle (sync_comments (record env { alert_id = 2; now = 7200000 }) 1 once) once
unfolding sync_comments
resync_example =
    resync env 1 feed once (run_sync env 1 (record feed { sync_in_flight = true })).0 2 7200000 refl

-- Deleted comments come back with the next sync.
deleted_again :
    (run_sync env 1
      (record once { desk = record { comments = []; alerts = []; raised = [] } })).0.inserted
    ≡ 2
unfolding syncing
deleted_again = refl

sync_comments-IsPresent_example : IsPresent posted_row (shown "c2") once.desk.comments
unfolding syncing insert_post order_posts
sync_comments-IsPresent_example =
    sync_comments-IsPresent env 1 feed once
      (run_sync env 1 (record feed { sync_in_flight = true })).0 posted_row
      (shown "c1" ∷ shown "c2" ∷ shown "c1" ∷ []) (shown "c2") refl (inl refl) refl refl
      (refl, (refl, (refl, tt))) (inr (inl refl))
