-- ===== src/Publish/Checks.antt =====
-- What each check of the orchestrator has found when it passes.
use content_hub.Base.{
  ℕ, ◌≡◌, refl, inl, inr, true, false, none, some, String, arith, any, Bool-cases, Option-cases,
}
use content_hub.Base.Effects.{unauthorized, conflict, not_found, database}
use content_hub.Base.Effects.Passing.{Decides, passes, throws}
use content_hub.Schema.{
  AssetPlatform, facebook, youtube, tiktok, line_oa, to_post_platform, is_ready, is_cleared,
}
use content_hub.Content.Records.{Content, find_content}
use content_hub.Content.Gate.{can_mark_copyright_cleared}
use content_hub.Content.Gate.Laws.{IsPublishable, can_mark_copyright_cleared_iff}
use content_hub.Publish.Posts.{Post, find_post}
use content_hub.Publish.Store.{
  Store, Ports, AuditAction, find_connected_account, record_audit, audit_row, find_user,
}
use content_hub.Publish.StepUp.{assert_fresh_password, password_matches}
use content_hub.Publish.Orchestrator.{
  assert_adapter, load_content_or_throw, assert_publishable_content,
  find_connected_account_or_throw, assert_no_active_duplicate, is_active_duplicate,
  load_post_or_throw, selected_or_throw, included_content,
}

pub fresh_password :
    (ports : Ports) (user_id : ℕ) (password : String) (action : AuditAction) (s : Store)
    → Decides
        (assert_fresh_password ports user_id password action)
        s
        (λ _. password_matches ports (find_user user_id s.users) password ≡ true)
unfolding assert_fresh_password
fresh_password ports user_id password action s =
    elim (Bool-cases (password_matches ports (find_user user_id s.users) password)) [
      | inr denied ↦
          throws unauthorized (record_audit (audit_row user_id action false none) s) (ground arith)
      | inl granted ↦ passes tt (ground arith) granted
    ]

-- Every platform has an adapter.
pub adapter_known :
    (platform : AssetPlatform) (s : Store) → Decides (assert_adapter platform) s (λ _. Unit {0})
unfolding assert_adapter
adapter_known facebook s = passes tt refl tt
adapter_known youtube s = passes tt refl tt
adapter_known tiktok s = passes tt refl tt
adapter_known line_oa s = passes tt refl tt

pub content_found :
    (content_id : ℕ) (s : Store)
    → Decides
        (load_content_or_throw content_id)
        s
        (λ c. find_content content_id s.contents ≡ some c)
unfolding load_content_or_throw
content_found content_id s = elim (Option-cases (find_content content_id s.contents)) [
  | inl missing ↦ throws not_found s (ground arith)
  | inr (content, found) ↦ passes content (ground arith) found
]

pub content_passes :
    (content : Content) (s : Store)
    → Decides (assert_publishable_content content) s (λ _. IsPublishable content)
unfolding assert_publishable_content
content_passes content s = elim (Bool-cases (is_ready content.status)) [
  | inr denied ↦ throws conflict s (ground arith)
  | inl ready ↦ elim (Bool-cases (is_cleared content.copyright_cleared)) [
    | inr denied ↦ throws conflict s (ground arith)
    | inl cleared ↦
        elim (Bool-cases
          (can_mark_copyright_cleared content.content_pillar content.copyright_evidence_url)) [
            | inr denied ↦ throws conflict s (ground arith)
            | inl evidenced ↦ passes tt (ground arith) record {
              is_ready = ground arith;
              is_cleared = ground arith;
              eligible = (can_mark_copyright_cleared_iff _ _).0 evidenced;
            }
          ]
  ]
]

pub account_found :
    (user_id : ℕ) (platform : AssetPlatform) (s : Store)
    → Decides
        (find_connected_account_or_throw user_id platform)
        s
        (λ a. find_connected_account user_id (to_post_platform platform) s.accounts ≡ some a)
unfolding find_connected_account_or_throw
account_found user_id platform s =
    elim (Option-cases (find_connected_account user_id (to_post_platform platform) s.accounts)) [
      | inl missing ↦ throws conflict s (ground arith)
      | inr (account, found) ↦ passes account (ground arith) found
    ]

pub no_active_duplicate :
    (content_id : ℕ) (platform : AssetPlatform) (s : Store)
    → Decides
        (assert_no_active_duplicate content_id platform)
        s
        (λ _. any (is_active_duplicate content_id platform) s.posts ≡ false)
unfolding assert_no_active_duplicate
no_active_duplicate content_id platform s =
    elim (Bool-cases (any (is_active_duplicate content_id platform) s.posts)) [
      | inl duplicate ↦ throws conflict s (ground arith)
      | inr sole ↦ passes tt (ground arith) sole
    ]

pub post_found :
    (post_id : ℕ) (s : Store)
    → Decides (load_post_or_throw post_id) s (λ p. find_post post_id s.posts ≡ some p)
unfolding load_post_or_throw
post_found post_id s = elim (Option-cases (find_post post_id s.posts)) [
  | inl missing ↦ throws not_found s (ground arith)
  | inr (post, found) ↦ passes post (ground arith) found
]

pub platform_selected :
    (post : Post) (s : Store)
    → Decides (selected_or_throw post) s (λ platform. post.selected_platform ≡ some platform)
unfolding selected_or_throw
platform_selected post s = elim (Option-cases post.selected_platform) [
  | inl missing ↦ throws conflict s (ground arith)
  | inr (platform, selected) ↦ passes platform (ground arith) selected
]

pub content_included :
    (post : Post) (s : Store)
    → Decides (included_content post) s (λ c. find_content post.content_id s.contents ≡ some c)
unfolding included_content
content_included post s = elim (Option-cases (find_content post.content_id s.contents)) [
  | inl missing ↦ throws database s (ground arith)
  | inr (content, found) ↦ passes content (ground arith) found
]
