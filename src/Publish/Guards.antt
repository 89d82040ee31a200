-- ===== src/Publish/Guards.antt =====
-- What the requests of the orchestrator have checked when they succeed, and what they leave alone when
-- they fail.
pub mod Queued
pub mod Left
pub mod Redispatch
pub mod Manual
pub mod Override
pub mod Ready
mod Tests
use content_hub.Base.{
  ℕ, ◌+◌, ◌≡◌, ◌≢◌, refl, sym, ◌∙◌, ap, ◌⊎◌, inl, inr, Bool, true, false, not, ◌&&◌, List, [], ◌∷◌,
  Option, none, some, String, ◌==◌, if◌then◌else◌, arith, any, includes, Bool-cases, Option-cases,
}
use content_hub.Base.Effects.{
  M, Result, ok, err, feed, ◌>>=◌, ◌>>◌, return, get, modify, ensure, Exn, unauthorized, conflict,
}
use content_hub.Base.Effects.Passing.{passed}
use content_hub.Publish.Checks.{
  fresh_password, adapter_known, content_found, content_passes, account_found, no_active_duplicate,
}
use content_hub.Schema.{AssetPlatform, to_post_platform, is_ready, is_cleared}
use content_hub.Content.Records.{Content, find_content}
use content_hub.Content.Gate.{can_mark_copyright_cleared}
use content_hub.Content.Gate.Laws.{IsPublishable, can_mark_copyright_cleared_iff}
use content_hub.Publish.Posts.{Post, PostStatus, create_post, index_holds}
use content_hub.Publish.Store.{
  Store, Ports, AuditAction, ConnectedAccount, find_connected_account, record_audit, audit_row,
  find_user, publish_attempt_started,
}
use content_hub.Publish.StepUp.{assert_fresh_password, password_matches}
use content_hub.Publish.Guards.Queued.{Enqueued, dispatch_intent-Dispatched}
use content_hub.Publish.Orchestrator.{
  CreatePost, RecordManualExternal, Recommendation, assert_adapter, load_content_or_throw,
  find_connected_account_or_throw, assert_no_active_duplicate, assert_publishable_content,
  recompute_recommendation, new_post, manual_post, create_post_or_conflict, create_intent,
  create_and_dispatch, record_manual_external, redispatch, is_active_duplicate,
}
use content_hub.Publish.Enqueue.{job_of, Intent}

-- When create_intent throws, the posts and the queue are as they were.
pub create_intent_refused :
    (ports : Ports) (dto : CreatePost) (user_id : ℕ) (s s' : Store) {e : Exn}
    → create_intent ports dto user_id s ≡ (err e, s')
    → (s'.posts ≡ s.posts) × (s'.queue ≡ s.queue)
unfolding create_intent assert_fresh_password assert_publishable_content create_post_or_conflict
create_intent_refused ports dto user_id s s' h = ground arith

-- What `createAndDispatch` has done when it returns a post.
pub record Created (ports : Ports) (dto : CreatePost) (user_id : ℕ) (s s' : Store) (post : Post)
    : Type 0 where
  pub verified : password_matches ports (find_user user_id s.users) dto.password ≡ true
  pub content : Content
  pub loaded : find_content dto.content_id s.contents ≡ some content
  pub publishable : IsPublishable content
  pub account : ConnectedAccount
  pub connected :
      find_connected_account user_id (to_post_platform dto.platform) s.accounts ≡ some account
  pub sole : any (is_active_duplicate content.id dto.platform) s.posts ≡ false
  pub row :
      post
      ≡ new_post ports content.id dto.platform dto.override_reason
          (recompute_recommendation ports content.id dto.platform s.scores)
  pub stored : create_post post s.posts ≡ some s'.posts
  pub persisted : s'.posts ≡ post ∷ s.posts
  pub indexed : index_holds s'.posts ≡ true
  pub queued : Enqueued (job_of post user_id account.id) s.queue s'.queue
  pub audited : s'.audit ≡ audit_row user_id publish_attempt_started true (some post.id) ∷ s.audit

-- What `create_intent` has done when it returns.
pub record Intended (ports : Ports) (dto : CreatePost) (user_id : ℕ) (s s' : Store) (i : Intent)
    : Type 0 where
  pub verified : password_matches ports (find_user user_id s.users) dto.password ≡ true
  pub content : Content
  pub loaded : find_content dto.content_id s.contents ≡ some content
  pub publishable : IsPublishable content
  pub account : ConnectedAccount
  pub connected :
      find_connected_account user_id (to_post_platform dto.platform) s.accounts ≡ some account
  pub sole : any (is_active_duplicate content.id dto.platform) s.posts ≡ false
  pub row :
      i.post
      ≡ new_post ports content.id dto.platform dto.override_reason
          (recompute_recommendation ports content.id dto.platform s.scores)
  pub from : i.account_id ≡ account.id
  pub stored : create_post i.post s.posts ≡ some s'.posts
  pub persisted : s'.posts ≡ i.post ∷ s.posts
  pub indexed : index_holds s'.posts ≡ true
  pub unqueued : s'.queue ≡ s.queue
  pub unaudited : s'.audit ≡ s.audit

inserted :
    (p : Post) (account_id : ℕ) (s s' : Store) {i : Intent}
    → ((create_post_or_conflict p >>= λ made.
          return (record { post = made; account_id = account_id }))
        s)
      ≡ (ok i, s')
    → (i.post ≡ p)
      × (i.account_id ≡ account_id)
      × (create_post i.post s.posts ≡ some s'.posts)
      × (s'.posts ≡ i.post ∷ s.posts)
      × (index_holds s'.posts ≡ true)
      × (s'.queue ≡ s.queue)
      × (s'.audit ≡ s.audit)
unfolding create_post_or_conflict create_post
inserted p account_id s s' h = ground arith

pub create_intent-Intended :
    (ports : Ports) (dto : CreatePost) (user_id : ℕ) (s s' : Store) {i : Intent}
    → create_intent ports dto user_id s ≡ (ok i, s')
    → Intended ports dto user_id s s' i
unfolding create_intent
create_intent-Intended ports dto user_id s s' h =
    let password = passed (fresh_password ports user_id dto.password publish_attempt_started s) h in
    let adapter = passed (adapter_known dto.platform s) password.rest in
    let loaded = passed (content_found dto.content_id s) adapter.rest in
    let publishable = passed (content_passes loaded.value s) loaded.rest in
    let account = passed (account_found user_id dto.platform s) publishable.rest in
    let sole = passed (no_active_duplicate loaded.value.id dto.platform s) account.rest in
    let done = inserted _ account.value.id s s' sole.rest in
    record {
      verified = password.holds;
      content = loaded.value;
      loaded = loaded.holds;
      publishable = publishable.holds;
      account = account.value;
      connected = account.holds;
      sole = sole.holds;
      row = done.0;
      from = done.1;
      stored = done.2;
      persisted = done.3;
      indexed = done.4;
      unqueued = done.5;
      unaudited = done.6;
    }

-- When createAndDispatch returns a post, the password was verified, the content was publishable, an
-- account was connected and no active post stood for the content and the platform; the post is the row
-- that the request describes, it is inserted under the index, one audit row is written, and one job for it
-- is added to the queue, unless the queue knows a job of the same key and version.
pub create_and_dispatch-Created :
    (ports : Ports) (dto : CreatePost) (user_id : ℕ) (s s' : Store) {post : Post}
    → create_and_dispatch ports dto user_id s ≡ (ok post, s')
    → Created ports dto user_id s s' post
unfolding create_and_dispatch
create_and_dispatch-Created ports dto user_id s s' {post} h =
    let d = dispatch_intent-Dispatched ports user_id (create_intent ports dto user_id) s s' h in
    let i = create_intent-Intended ports dto user_id s d.between d.persists in
    record {
      verified = i.verified;
      content = i.content;
      loaded = i.loaded;
      publishable = i.publishable;
      account = i.account;
      connected = i.connected;
      sole = i.sole;
      row = d.returned ∙ i.row;
      stored = rw (d.returned, d.kept) i.stored;
      persisted = rw (d.returned, d.kept) i.persisted;
      indexed = rw d.kept i.indexed;
      queued = rw (sym i.from, sym i.unqueued) d.queued;
      audited = rw (sym i.unaudited) d.audited;
    }
