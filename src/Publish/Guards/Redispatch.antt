-- ===== src/Publish/Guards/Redispatch.antt =====
-- backend/src/modules/publish/publish-orchestrator.service.ts: what `redispatch` has checked and written when it
-- succeeds, and what it leaves alone when it fails.
use content_hub.Base.{ℕ, ◌≡◌, refl, sym, ◌∙◌, true, ◌∷◌, some, String, arith}
use content_hub.Base.Effects.{ok, err, ◌>>=◌, return, Exn, conflict}
use content_hub.Base.Effects.Passing.{passed, ensure_decides}
use content_hub.Schema.{AssetPlatform, to_post_platform}
use content_hub.Content.Records.{Content, find_content}
use content_hub.Content.Gate.Laws.{IsPublishable}
use content_hub.Publish.Posts.{Post, find_post, update_many, is_dispatchable}
use content_hub.Publish.Posts.Laws.{find_post-id, find_post-update_rows_hit, update_count_one}
use content_hub.Publish.Store.{
  Store, Ports, ConnectedAccount, find_connected_account, find_user, record_audit, audit_row,
  publish_attempt_started,
}
use content_hub.Publish.StepUp.{assert_fresh_password, password_matches}
use content_hub.Publish.Checks.{
  fresh_password, adapter_known, content_passes, account_found, post_found, platform_selected,
  content_included,
}
use mathlib.Core.Option
use content_hub.Publish.Guards.Queued.{Enqueued, dispatch_intent-Dispatched}
use content_hub.Publish.Orchestrator.{
  Recommendation, recompute_recommendation, set_recommendation, redispatch_intent,
  update_recommendation, redispatch, assert_publishable_content,
}
use content_hub.Publish.Enqueue.{job_of, Intent}

-- What `redispatch_intent` has done when it returns.
pub record Reintended (ports : Ports) (post_id user_id : ℕ) (password : String) (s s' : Store)
    (i : Intent) : Type 0 where
  pub verified : password_matches ports (find_user user_id s.users) password ≡ true
  pub before : Post
  pub found : find_post post_id s.posts ≡ some before
  pub dispatchable : is_dispatchable before.status ≡ true
  pub platform : AssetPlatform
  pub selected : before.selected_platform ≡ some platform
  pub content : Content
  pub loaded : find_content before.content_id s.contents ≡ some content
  pub publishable : IsPublishable content
  pub account : ConnectedAccount
  pub connected :
      find_connected_account user_id (to_post_platform platform) s.accounts ≡ some account
  pub row :
      i.post
      ≡ set_recommendation
          (recompute_recommendation ports before.content_id platform s.scores)
          before
  pub from : i.account_id ≡ account.id
  pub written :
      update_many before.id
        (λ _. true)
        (set_recommendation (recompute_recommendation ports before.content_id platform s.scores))
        s.posts
      ≡ some (1, s'.posts)
  pub persisted : find_post post_id s'.posts ≡ some i.post
  pub unqueued : s'.queue ≡ s.queue
  pub unaudited : s'.audit ≡ s.audit

pub record Redispatched (ports : Ports) (post_id user_id : ℕ) (password : String) (s s' : Store)
    (post : Post) : Type 0 where
  pub verified : password_matches ports (find_user user_id s.users) password ≡ true
  pub before : Post
  pub found : find_post post_id s.posts ≡ some before
  pub dispatchable : is_dispatchable before.status ≡ true
  pub platform : AssetPlatform
  pub selected : before.selected_platform ≡ some platform
  pub content : Content
  pub loaded : find_content before.content_id s.contents ≡ some content
  pub publishable : IsPublishable content
  pub account : ConnectedAccount
  pub connected :
      find_connected_account user_id (to_post_platform platform) s.accounts ≡ some account
  pub row : post ≡ (
      let r = recompute_recommendation ports before.content_id platform s.scores in
      record before {
        recommended_platform = r.recommended_platform;
        recommended_at = r.recommended_at;
        was_override = r.was_override;
        ranking_score_id = Option.map (λ t. t.id) r.selected_score;
        priority_score = Option.map (λ t. t.score) r.selected_score;
      })
  pub written :
      update_many before.id
        (λ _. true)
        (set_recommendation (recompute_recommendation ports before.content_id platform s.scores))
        s.posts
      ≡ some (1, s'.posts)
  pub persisted : find_post post_id s'.posts ≡ some post
  pub queued : Enqueued (job_of post user_id account.id) s.queue s'.queue
  pub audited : s'.audit ≡ audit_row user_id publish_attempt_started true (some post.id) ∷ s.audit

set_recommendation-id : (r : Recommendation) (p : Post) → (set_recommendation r p).id ≡ p.id
unfolding set_recommendation
set_recommendation-id r p = refl

updated :
    (id : ℕ) (r : Recommendation) (account_id : ℕ) (s s' : Store) {before : Post} {i : Intent}
    → find_post id s.posts ≡ some before
    → ((update_recommendation id r >>= λ p. return (record { post = p; account_id = account_id }))
        s)
      ≡ (ok i, s')
    → (i.post ≡ set_recommendation r before)
      × (i.account_id ≡ account_id)
      × (update_many id (λ _. true) (set_recommendation r) s.posts ≡ some (1, s'.posts))
      × (find_post id s'.posts ≡ some i.post)
      × (s'.queue ≡ s.queue)
      × (s'.audit ≡ s.audit)
unfolding update_recommendation update_many
updated id r account_id s s' {before} found h =
    let one = update_count_one id (λ _. true) s.posts found refl in
    let hit =
      find_post-update_rows_hit id (λ _. true) (set_recommendation r) (set_recommendation-id r)
        s.posts found refl in
    (ground arith, ground arith, ground arith, ground arith, ground arith, ground arith)

pub redispatch_intent-Reintended :
    (ports : Ports) (post_id : ℕ) (password : String) (user_id : ℕ) (s s' : Store) {i : Intent}
    → redispatch_intent ports post_id password user_id s ≡ (ok i, s')
    → Reintended ports post_id user_id password s s' i
unfolding redispatch_intent
redispatch_intent-Reintended ports post_id password user_id s s' h =
    let verified = passed (fresh_password ports user_id password publish_attempt_started s) h in
    let before = passed (post_found post_id s) verified.rest in
    let content = passed (content_included before.value s) before.rest in
    let dispatchable =
      passed (ensure_decides (is_dispatchable before.value.status) conflict s) content.rest in
    let platform = passed (platform_selected before.value s) dispatchable.rest in
    let adapter = passed (adapter_known platform.value s) platform.rest in
    let publishable = passed (content_passes content.value s) adapter.rest in
    let account = passed (account_found user_id platform.value s) publishable.rest in
    let same = find_post-id post_id s.posts before.holds in
    let done =
      updated before.value.id _ account.value.id s s' {before = before.value} (rw same before.holds)
        account.rest in
    record {
      verified = verified.holds;
      before = before.value;
      found = before.holds;
      dispatchable = dispatchable.holds;
      platform = platform.value;
      selected = platform.holds;
      content = content.value;
      loaded = content.holds;
      publishable = publishable.holds;
      account = account.value;
      connected = account.holds;
      row = done.0;
      from = done.1;
      written = done.2;
      persisted = rw (sym same) done.3;
      unqueued = done.4;
      unaudited = done.5;
    }

-- When redispatch returns a post, the password was verified, the row was found as draft or failed with a
-- selected platform, its content was publishable and an account was connected; the row has the facts on
-- the recommendation as they are now, and every other column is as it was; one audit row is written, and one
-- job that carries its version is added to the queue, unless the queue knows a job of the same key and version.
pub redispatch-Redispatched :
    (ports : Ports) (post_id : ℕ) (password : String) (user_id : ℕ) (s s' : Store) {post : Post}
    → redispatch ports post_id password user_id s ≡ (ok post, s')
    → Redispatched ports post_id user_id password s s' post
unfolding redispatch set_recommendation
redispatch-Redispatched ports post_id password user_id s s' {post} h =
    let d =
      dispatch_intent-Dispatched ports user_id (redispatch_intent ports post_id password user_id) s
        s' h in
    let i = redispatch_intent-Reintended ports post_id password user_id s d.between d.persists in
    record {
      verified = i.verified;
      before = i.before;
      found = i.found;
      dispatchable = i.dispatchable;
      platform = i.platform;
      selected = i.selected;
      content = i.content;
      loaded = i.loaded;
      publishable = i.publishable;
      account = i.account;
      connected = i.connected;
      row = d.returned ∙ i.row;
      written = rw d.kept i.written;
      persisted = rw (d.returned, d.kept) i.persisted;
      queued = rw (sym i.from, sym i.unqueued) d.queued;
      audited = rw (sym i.unaudited) d.audited;
    }

-- A refused `redispatch_intent` leaves the posts and the queue as they were.
pub redispatch_intent_refused :
    (ports : Ports) (post_id : ℕ) (password : String) (user_id : ℕ) (s s' : Store) {e : Exn}
    → redispatch_intent ports post_id password user_id s ≡ (err e, s')
    → (s'.posts ≡ s.posts) × (s'.queue ≡ s.queue)
unfolding redispatch_intent assert_fresh_password assert_publishable_content record_audit
redispatch_intent_refused ports post_id password user_id s s' h = ground arith
