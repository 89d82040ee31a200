-- ===== src/Publish/Guards/Tests.antt =====
-- Requests of the orchestrator on a small store, and the theorems about them at these inputs.
use content_hub.Base.{inl, inr, arith, ◌≡◌, refl, [], ◌∷◌, none}
use content_hub.Base.Effects.{ok}
use content_hub.Schema.{AssetPlatform, to_post_platform}
use content_hub.Content.Records.{find_content}
use content_hub.Content.Gate.{can_mark_copyright_cleared, has_evidence}
use content_hub.Content.Service.Laws.{IsLawful}
use content_hub.Publish.Guards.Ready.{ready_passes}
use content_hub.Ranking.Recommendation.{
  get_latest_scores, get_recommendation, latest_score_per_platform, pick_recommended_score,
}
use content_hub.Publish.Posts.{
  index_holds, find_post, update_rows, update_many, create_post, clashes, update_count,
}
use content_hub.Publish.Store.{find_user, find_connected_account, record_audit}
use content_hub.Publish.StepUp.{assert_fresh_password}
use content_hub.Publish.Orchestrator.{
  create_and_dispatch, record_manual_external, redispatch, new_post, manual_post, create_intent,
  redispatch_intent, create_post_or_conflict, assert_publishable_content, recompute_recommendation,
  set_recommendation, is_active_duplicate,
}
use content_hub.Publish.Enqueue.{same_job, add_job, audit_and_enqueue}
use content_hub.Publish.Guards.{Created, create_and_dispatch-Created}
use content_hub.Publish.Guards.Redispatch.{Redispatched, redispatch-Redispatched}
use content_hub.Publish.Guards.Manual.{Recorded, record_manual_external-Recorded}
use content_hub.Publish.Samples.{clip, ports, before, dto, manual, failed_row, dispatched_before}

requests : Unit {0}
unfolding create_intent redispatch_intent same_job add_job to_post_platform create_and_dispatch
    record_manual_external redispatch new_post manual_post create_post_or_conflict audit_and_enqueue
    assert_publishable_content recompute_recommendation set_recommendation is_active_duplicate
    assert_fresh_password find_user find_connected_account record_audit find_post update_rows
    update_many update_count create_post clashes index_holds get_latest_scores get_recommendation
    latest_score_per_platform pick_recommended_score can_mark_copyright_cleared has_evidence
    find_content
requests = tt

-- The request is granted, and its job is enqueued.
created :
    (create_and_dispatch ports dto 1 before).1.queue
    ≡ record { post_id = 7; requested_by = 1; connected_account_id = 5; job_version = 0 } ∷ []
unfolding requests
created = refl

create_and_dispatch-Created_example :
    Created ports dto 1 before (create_and_dispatch ports dto 1 before).1 (
      new_post ports 3 AssetPlatform.facebook none
        (recompute_recommendation ports 3 AssetPlatform.facebook []))
unfolding requests
create_and_dispatch-Created_example = create_and_dispatch-Created ports dto 1 before _ refl

record_manual_external-Recorded_example :
    Recorded ports manual 1 before
      (record_manual_external ports manual 1 before).1
      (manual_post ports manual 3 1 (recompute_recommendation ports 3 AssetPlatform.youtube []))
unfolding requests
record_manual_external-Recorded_example =
    record_manual_external-Recorded ports manual 1 before _ refl

redispatch-Redispatched_example :
    Redispatched ports 7 1 "p" dispatched_before
      (redispatch ports 7 "p" 1 dispatched_before).1
      (set_recommendation (recompute_recommendation ports 3 AssetPlatform.facebook []) failed_row)
unfolding requests
redispatch-Redispatched_example = redispatch-Redispatched ports 7 "p" 1 dispatched_before _ refl

clip-IsLawful : IsLawful clip
clip-IsLawful = record {
  ages = omega arith;
  gated = inr record { is_ready = refl; is_cleared = refl; eligible = inl refl };
}

ready_passes_example : assert_publishable_content clip before ≡ (ok tt, before)
unfolding find_content
ready_passes_example = ready_passes 3 before (clip-IsLawful, tt) refl refl
