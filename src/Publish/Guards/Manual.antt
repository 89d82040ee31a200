-- ===== src/Publish/Guards/Manual.antt =====
-- backend/src/modules/publish/publish-orchestrator.service.ts: what `recordManualExternal` has checked and written when it
-- succeeds, and what it leaves alone when it fails.
use content_hub.Schema.{to_post_platform}
use content_hub.Base.{none, ℕ, ◌≡◌, true, false, ◌∷◌, some, arith, any}
use mathlib.Core.Option
use content_hub.Base.Effects.{ok, err, ◌>>=◌, ◌>>◌, return, modify, Exn}
use content_hub.Base.Effects.Passing.{passed}
use content_hub.Content.Records.{Content, find_content}
use content_hub.Content.Gate.Laws.{IsPublishable}
use content_hub.Publish.Posts.{Post, PostStatus, manual_external, index_holds, create_post}
use content_hub.Publish.Store.{
  Store, Ports, find_user, record_audit, audit_row, manual_external_post_recorded,
}
use content_hub.Publish.StepUp.{assert_fresh_password, password_matches}
use content_hub.Publish.Checks.{fresh_password, content_found, content_passes, no_active_duplicate}
use content_hub.Publish.Orchestrator.{
  RecordManualExternal, recompute_recommendation, manual_post, new_post, create_post_or_conflict,
  is_active_duplicate, record_manual_external, assert_publishable_content,
}

pub record Recorded (ports : Ports) (dto : RecordManualExternal) (user_id : ℕ) (s s' : Store)
    (post : Post) : Type 0 where
  pub verified : password_matches ports (find_user user_id s.users) dto.password ≡ true
  pub content : Content
  pub loaded : find_content dto.content_id s.contents ≡ some content
  pub publishable : IsPublishable content
  pub sole : any (is_active_duplicate content.id dto.platform) s.posts ≡ false
  pub row :
      post
      ≡ manual_post ports dto content.id user_id
          (recompute_recommendation ports content.id dto.platform s.scores)
  pub by_hand : post ≡ (
      let r = recompute_recommendation ports content.id dto.platform s.scores in
      record {
        id = ports.new_id;
        content_id = content.id;
        platform = to_post_platform dto.platform;
        priority_score = Option.map (λ t. t.score) r.selected_score;
        recommended_at = r.recommended_at;
        scheduled_at = none;
        posted_at = some ports.now;
        status = PostStatus.posted;
        executed_by = some user_id;
        external_post_id = some dto.external_post_id;
        version = 0;
        external_post_url = dto.external_post_url;
        publish_method = manual_external;
        recommended_platform = r.recommended_platform;
        selected_platform = some dto.platform;
        was_override = r.was_override;
        override_reason = dto.override_reason;
        ranking_score_id = Option.map (λ t. t.id) r.selected_score;
        created_at = ports.now;
      })
  pub stored : create_post post s.posts ≡ some s'.posts
  pub persisted : s'.posts ≡ post ∷ s.posts
  pub indexed : index_holds s'.posts ≡ true
  pub unqueued : s'.queue ≡ s.queue
  pub audited :
      s'.audit ≡ audit_row user_id manual_external_post_recorded true (some post.id) ∷ s.audit

recorded :
    (p : Post) (user_id : ℕ) (s s' : Store) {post : Post}
    → ((create_post_or_conflict p >>= λ made.
          (modify
              (record_audit (audit_row user_id manual_external_post_recorded true (some made.id)))
            >> return made))
        s)
      ≡ (ok post, s')
    → (post ≡ p)
      × (create_post post s.posts ≡ some s'.posts)
      × (s'.posts ≡ post ∷ s.posts)
      × (index_holds s'.posts ≡ true)
      × (s'.queue ≡ s.queue)
      × (s'.audit ≡ audit_row user_id manual_external_post_recorded true (some post.id) ∷ s.audit)
unfolding create_post_or_conflict create_post record_audit
recorded p user_id s s' h = ground arith

-- When recordManualExternal returns a post, the password was verified, the content was publishable and no
-- active post stood for the content and the platform; the post is the row that the request describes,
-- posted at the time of the request by the user and marked as made by hand, with the given external id
-- and URL; it is inserted under the index, nothing is enqueued and one audit row is written.
pub record_manual_external-Recorded :
    (ports : Ports) (dto : RecordManualExternal) (user_id : ℕ) (s s' : Store) {post : Post}
    → record_manual_external ports dto user_id s ≡ (ok post, s')
    → Recorded ports dto user_id s s' post
unfolding record_manual_external manual_post new_post
record_manual_external-Recorded ports dto user_id s s' {post} h =
    let password =
      passed (fresh_password ports user_id dto.password manual_external_post_recorded s) h in
    let loaded = passed (content_found dto.content_id s) password.rest in
    let publishable = passed (content_passes loaded.value s) loaded.rest in
    let sole = passed (no_active_duplicate loaded.value.id dto.platform s) publishable.rest in
    let made = recorded _ user_id s s' sole.rest in
    record {
      verified = password.holds;
      content = loaded.value;
      loaded = loaded.holds;
      publishable = publishable.holds;
      sole = sole.holds;
      row = made.0;
      by_hand = made.0;
      stored = made.1;
      persisted = made.2;
      indexed = made.3;
      unqueued = made.4;
      audited = made.5;
    }

-- A refused `recordManualExternal` leaves the posts and the queue as they were.
pub record_manual_external_refused :
    (ports : Ports) (dto : RecordManualExternal) (user_id : ℕ) (s s' : Store) {e : Exn}
    → record_manual_external ports dto user_id s ≡ (err e, s')
    → (s'.posts ≡ s.posts) × (s'.queue ≡ s.queue)
unfolding record_manual_external assert_fresh_password assert_publishable_content
    create_post_or_conflict record_audit
record_manual_external_refused ports dto user_id s s' h = ground arith
