-- ===== src/Publish/Orchestrator.antt =====
-- backend/src/modules/publish/publish-orchestrator.service.ts: the requests that create a post, dispatch
-- it again, or record one that was published by hand.
use content_hub.Base.{
  ℕ, Bool, true, false, not, ◌&&◌, List, [], ◌∷◌, Option, none, some, String, ◌==◌, includes, any,
  find,
}
use mathlib.Core.Option
use content_hub.Base.Effects.{
  M, ok, err, ◌>>=◌, ◌>>◌, return, get, modify, ensure, not_found, conflict, bad_request, database,
}
use content_hub.Schema.{
  AssetPlatform, facebook, youtube, tiktok, line_oa, asset_index, platform_index, to_post_platform,
  is_ready, is_cleared,
}
use content_hub.Content.Records.{Content, find_content}
use content_hub.Content.Gate.{can_mark_copyright_cleared}
use content_hub.Ranking.Recommendation.{Score, get_latest_scores, get_recommendation}
use content_hub.Publish.Posts.{
  Post, PostStatus, adapter, manual_external, is_dispatchable, active_publish_statuses, find_post,
  update_many, create_post, post_status_eq,
}
use content_hub.Publish.Store.{
  Store, Ports, ConnectedAccount, record_audit, audit_row, publish_attempt_started,
  manual_external_post_recorded, find_connected_account,
}
use content_hub.Publish.Enqueue.{Intent, dispatch_intent}
use content_hub.Publish.StepUp.{assert_fresh_password}

pub record CreatePost : Type 0 where
  pub content_id : ℕ
  pub platform : AssetPlatform
  pub password : String
  pub override_reason : Option String

pub record RecordManualExternal : Type 0 where
  pub content_id : ℕ
  pub platform : AssetPlatform
  pub external_post_id : String
  pub external_post_url : Option String
  pub password : String
  pub override_reason : Option String

-- The keys of the adapter registry (adapters/platform-adapter.registry.ts).
abbrev registered_platforms : List AssetPlatform
registered_platforms = facebook ∷ youtube ∷ tiktok ∷ line_oa ∷ []

-- `adapterRegistry.getFor`, by whether it throws.
unfoldable pub assert_adapter : AssetPlatform → M Store (Unit {0})
assert_adapter platform =
    ensure (any (λ p. asset_index p == asset_index platform) registered_platforms) bad_request

unfoldable pub load_content_or_throw : ℕ → M Store Content
load_content_or_throw content_id s = elim (find_content content_id s.contents) [
  | none ↦ (err not_found, s)
  | some content ↦ (ok content, s)
]

-- `assertPublishableContent`
unfoldable pub assert_publishable_content : Content → M Store (Unit {0})
assert_publishable_content content = do
  ensure (is_ready content.status) conflict
  ensure (is_cleared content.copyright_cleared) conflict
  ensure (can_mark_copyright_cleared content.content_pillar content.copyright_evidence_url) conflict

unfoldable pub find_connected_account_or_throw : ℕ → AssetPlatform → M Store ConnectedAccount
find_connected_account_or_throw user_id platform s =
    elim (find_connected_account user_id (to_post_platform platform) s.accounts) [
      | none ↦ (err conflict, s)
      | some account ↦ (ok account, s)
    ]

-- The rows that `assertNoActiveDuplicate` looks for.
unfoldable pub is_active_duplicate : ℕ → AssetPlatform → Post → Bool
is_active_duplicate content_id platform p =
    p.content_id == content_id
    && platform_index p.platform == platform_index (to_post_platform platform)
    && includes active_publish_statuses p.status

unfoldable pub assert_no_active_duplicate : ℕ → AssetPlatform → M Store (Unit {0})
unfolding is_active_duplicate
assert_no_active_duplicate content_id platform s =
    ensure (not (any (is_active_duplicate content_id platform) s.posts)) conflict s

pub record Recommendation : Type 0 where
  pub recommended_platform : Option AssetPlatform
  pub recommended_at : Option ℕ
  pub was_override : Bool
  pub selected_score : Option Score

abbrev pub differs : Option Score → AssetPlatform → Bool
differs none selected = false
differs (some r) selected = not (asset_index r.platform == asset_index selected)

-- `recomputeRecommendation`
unfoldable pub recompute_recommendation : Ports → ℕ → AssetPlatform → List Score → Recommendation
recompute_recommendation ports content_id selected table =
    let recommended = get_recommendation ports.engine content_id table in
    record {
      recommended_platform = Option.map (λ r. r.platform) recommended;
      recommended_at = Option.map (λ r. r.computed_at) recommended;
      was_override = differs recommended selected;
      selected_score =
          find (λ s. asset_index s.platform == asset_index selected)
            (get_latest_scores ports.engine content_id table);
    }

-- The row of `createPostOrConflict` in `createAndDispatch`, with the defaults of the schema.
unfoldable pub new_post : Ports → ℕ → AssetPlatform → Option String → Recommendation → Post
new_post ports content_id platform override_reason r = record {
  id = ports.new_id;
  content_id = content_id;
  platform = to_post_platform platform;
  priority_score = Option.map (λ s. s.score) r.selected_score;
  recommended_at = r.recommended_at;
  scheduled_at = none;
  posted_at = none;
  status = PostStatus.draft;
  executed_by = none;
  external_post_id = none;
  version = 0;
  external_post_url = none;
  publish_method = adapter;
  recommended_platform = r.recommended_platform;
  selected_platform = some platform;
  was_override = r.was_override;
  override_reason = override_reason;
  ranking_score_id = Option.map (λ s. s.id) r.selected_score;
  created_at = ports.now;
}

-- `createPostOrConflict`
unfoldable pub create_post_or_conflict : Post → M Store Post
create_post_or_conflict p s = elim (create_post p s.posts) [
  | none ↦ (err conflict, s)
  | some rows ↦ (ok p, record s { posts = rows })
]

-- `createAndDispatch`, up to the row that it inserts.
unfoldable pub create_intent : Ports → CreatePost → ℕ → M Store Intent
unfolding load_content_or_throw find_connected_account_or_throw assert_no_active_duplicate
    assert_adapter
create_intent ports dto user_id = do
  assert_fresh_password ports user_id dto.password publish_attempt_started
  assert_adapter dto.platform
  content ← load_content_or_throw dto.content_id
  assert_publishable_content content
  account ← find_connected_account_or_throw user_id dto.platform
  assert_no_active_duplicate content.id dto.platform
  s ← get
  let r = recompute_recommendation ports content.id dto.platform s.scores
  post ← create_post_or_conflict (new_post ports content.id dto.platform dto.override_reason r)
  return record { post = post; account_id = account.id }

-- `createAndDispatch`
unfoldable pub create_and_dispatch : Ports → CreatePost → ℕ → M Store Post
create_and_dispatch ports dto user_id =
    dispatch_intent ports user_id (create_intent ports dto user_id)

-- What `redispatch` writes into the row.
unfoldable pub set_recommendation : Recommendation → Post → Post
set_recommendation r post = record post {
  recommended_platform = r.recommended_platform;
  recommended_at = r.recommended_at;
  was_override = r.was_override;
  ranking_score_id = Option.map (λ s. s.id) r.selected_score;
  priority_score = Option.map (λ s. s.score) r.selected_score;
}

unfoldable pub load_post_or_throw : ℕ → M Store Post
load_post_or_throw post_id s = elim (find_post post_id s.posts) [
  | none ↦ (err not_found, s)
  | some post ↦ (ok post, s)
]

-- A legacy row has no selected platform.
unfoldable pub selected_or_throw : Post → M Store AssetPlatform
selected_or_throw post s = elim post.selected_platform [
  | none ↦ (err conflict, s)
  | some platform ↦ (ok platform, s)
]

-- `include: { content: true }`; the foreign key leaves no post without its content.
unfoldable pub included_content : Post → M Store Content
included_content post s = elim (find_content post.content_id s.contents) [
  | none ↦ (err database, s)
  | some content ↦ (ok content, s)
]

-- `post.update({ where: { id }, data })`, which returns the row.
unfoldable pub update_recommendation : ℕ → Recommendation → M Store Post
unfolding set_recommendation
update_recommendation post_id r s =
    elim (update_many post_id (λ _. true) (set_recommendation r) s.posts) [
      | none ↦ (err database, s)
      | some (count, rows) ↦ elim (find_post post_id rows) [
        | none ↦ (err database, s)
        | some post ↦ (ok post, record s { posts = rows })
      ]
    ]

-- `redispatch`, up to the row that it updates.
unfoldable pub redispatch_intent : Ports → ℕ → String → ℕ → M Store Intent
unfolding load_post_or_throw selected_or_throw included_content find_connected_account_or_throw
    assert_adapter update_recommendation
redispatch_intent ports post_id password user_id = do
  assert_fresh_password ports user_id password publish_attempt_started
  post ← load_post_or_throw post_id
  content ← included_content post
  ensure (is_dispatchable post.status) conflict
  platform ← selected_or_throw post
  assert_adapter platform
  assert_publishable_content content
  account ← find_connected_account_or_throw user_id platform
  s ← get
  let r = recompute_recommendation ports post.content_id platform s.scores
  updated ← update_recommendation post.id r
  return record { post = updated; account_id = account.id }

-- `redispatch`
unfoldable pub redispatch : Ports → ℕ → String → ℕ → M Store Post
redispatch ports post_id password user_id =
    dispatch_intent ports user_id (redispatch_intent ports post_id password user_id)

-- The row that `recordManualExternal` creates.
unfoldable pub manual_post : Ports → RecordManualExternal → ℕ → ℕ → Recommendation → Post
unfolding new_post
manual_post ports dto content_id user_id r =
    let base = new_post ports content_id dto.platform dto.override_reason r in
    record base {
      status = PostStatus.posted;
      publish_method = manual_external;
      external_post_id = some dto.external_post_id;
      external_post_url = dto.external_post_url;
      posted_at = some ports.now;
      executed_by = some user_id;
    }

-- `recordManualExternal`
unfoldable pub record_manual_external : Ports → RecordManualExternal → ℕ → M Store Post
unfolding load_content_or_throw assert_no_active_duplicate
record_manual_external ports dto user_id = do
  assert_fresh_password ports user_id dto.password manual_external_post_recorded
  content ← load_content_or_throw dto.content_id
  assert_publishable_content content
  assert_no_active_duplicate content.id dto.platform
  s ← get
  let r = recompute_recommendation ports content.id dto.platform s.scores
  post ← create_post_or_conflict (manual_post ports dto content.id user_id r)
  modify (record_audit (audit_row user_id manual_external_post_recorded true (some post.id)))
  return post
