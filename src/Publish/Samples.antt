-- ===== src/Publish/Samples.antt =====
-- A small store with its requests, for the tests of the publish flow.
use content_hub.Base.{Bool, true, false, [], ◌∷◌, Option, none, some, String}
use content_hub.Schema.{
  AssetPlatform, Platform, ContentStatus, ContentType, ContentPillar, LicensingStatus,
  CopyrightClearance, v1,
}
use content_hub.Content.Records.{Content}
use content_hub.Publish.Posts.{Post, PostStatus, adapter}
use content_hub.Publish.Store.{Store, Ports, connected}
use content_hub.Publish.Orchestrator.{CreatePost, RecordManualExternal}

abbrev pub accept : String → String → Option Bool
accept hash password = some true

abbrev pub reject : String → String → Option Bool
reject hash password = some false

abbrev pub ports : Ports
ports = record { now = 50; new_id = 7; verify = accept; engine = v1; queue_up = true }

abbrev pub locked : Ports
locked = record { now = 50; new_id = 7; verify = reject; engine = v1; queue_up = true }

abbrev pub clip : Content
clip = record {
  id = 3;
  type = ContentType.video;
  title = "Clip";
  media_url = "uploads/clip.mp4";
  caption = none;
  target_age_min = 18;
  target_age_max = 60;
  status = ContentStatus.ready;
  licensing_status = LicensingStatus.licensed;
  license_notes = none;
  license_expires_at = none;
  file_size_bytes = none;
  mime_type = none;
  content_pillar = some ContentPillar.comedy;
  copyright_cleared = CopyrightClearance.cleared;
  copyright_notes = none;
  copyright_evidence_url = none;
  created_by = 1;
  created_at = 10;
}

abbrev pub before : Store
before = record {
  posts = [];
  contents = clip ∷ [];
  users = record { id = 1; password_hash = "h" } ∷ [];
  accounts =
      record {
        id = 5;
        user_id = 1;
        platform = Platform.facebook;
        status = connected;
        connected_at = 9;
      }
      ∷ [];
  scores = [];
  audit = [];
  queue = [];
}

abbrev pub dto : CreatePost
dto = record {
  content_id = 3;
  platform = AssetPlatform.facebook;
  password = "p";
  override_reason = none;
}

abbrev pub manual : RecordManualExternal
manual = record {
  content_id = 3;
  platform = AssetPlatform.youtube;
  external_post_id = "yt-1";
  external_post_url = none;
  password = "p";
  override_reason = none;
}

abbrev pub failed_row : Post
failed_row = record {
  id = 7;
  content_id = 3;
  platform = Platform.facebook;
  priority_score = none;
  recommended_at = none;
  scheduled_at = none;
  posted_at = none;
  status = PostStatus.failed;
  executed_by = none;
  external_post_id = none;
  version = 2;
  external_post_url = none;
  publish_method = adapter;
  recommended_platform = none;
  selected_platform = some AssetPlatform.facebook;
  was_override = true;
  override_reason = none;
  ranking_score_id = none;
  created_at = 10;
}

abbrev pub dispatched_before : Store
dispatched_before = record before { posts = failed_row ∷ [] }

-- A post of unknown outcome, alone in its table.
abbrev pub open_row : Post
open_row = record failed_row { status = PostStatus.posted_unconfirmed }

abbrev pub unresolved_store : Store
unresolved_store = record before { posts = open_row ∷ [] }
