-- ===== src/Content/Service/Tests.antt =====
-- The content service on a small table.
use content_hub.Base.{ℕ, ◌≡◌, refl, true, false, [], ◌∷◌, none, some, String, All}
use content_hub.Base.Effects.{ok}
use content_hub.Schema.{
  ContentType, ContentStatus, LicensingStatus, ContentPillar, CopyrightClearance,
}
use content_hub.Content.Records.{Content, find_content}
use content_hub.Content.Gate.{can_mark_copyright_cleared, has_evidence}
use content_hub.Content.Gate.Trim.{trim, trim_start, is_space}
use content_hub.Content.MediaUrl.{
  is_owned_media_url, after, after_key, same_codes, assert_media_url_is_owned,
}
use content_hub.Content.Service.{
  undefined, given, Library, Clock, CreateContent, UpdateContent, create, update, archive,
  new_content, patched, assert_age_range_is_valid, assert_clearance_is_eligible,
  assert_ready_transition_allowed, record_audit, insert_content, find_or_throw,
  nulls_a_required_column, update_contents, update_content, set_archived,
}
use content_hub.Content.Service.Laws.{IsLawful, CreatedContent, create-CreatedContent}
use content_hub.Content.Service.Requests.{
  UpdatedContent, update-UpdatedContent, respond, to_update, respond-IsLawful,
}

abbrev url : String
url = "/uploads/00000000-0000-4000-8000-0123456789ab.mp4"

owned : is_owned_media_url url ≡ true
unfolding is_owned_media_url after after_key same_codes
owned = refl

foreign_url : is_owned_media_url "https://evil.example/00000000.mp4" ≡ false
unfolding is_owned_media_url after after_key same_codes
foreign_url = refl

trailing : is_owned_media_url "/uploads/00000000-0000-4000-8000-0123456789ab.mp4x" ≡ false
unfolding is_owned_media_url after after_key same_codes
trailing = refl

abbrev constant_date : String → ℕ
constant_date s = 77

abbrev clock : Clock
clock = record { now = 50; new_id = 9; parse_date = constant_date }

abbrev dto : CreateContent
dto = record {
  type = ContentType.video;
  title = "Clip";
  media_url = url;
  caption = none;
  target_age_min = 18;
  target_age_max = 60;
  licensing_status = LicensingStatus.licensed;
  license_notes = none;
  license_expires_at = some "2027-01-01";
  mark_ready = true;
  content_pillar = some ContentPillar.drama;
  copyright_cleared = some CopyrightClearance.cleared;
  copyright_notes = none;
  copyright_evidence_url = some "s3://evidence";
  file_size_bytes = undefined;
  mime_type = none;
}

abbrev empty : Library
empty = record { contents = []; audit = [] }

-- The row that `create` makes of `dto`.
abbrev clip : Content
clip = record {
  id = 9;
  type = ContentType.video;
  title = "Clip";
  media_url = url;
  caption = none;
  target_age_min = 18;
  target_age_max = 60;
  status = ContentStatus.ready;
  licensing_status = LicensingStatus.licensed;
  license_notes = none;
  license_expires_at = some 77;
  file_size_bytes = none;
  mime_type = none;
  content_pillar = some ContentPillar.drama;
  copyright_cleared = CopyrightClearance.cleared;
  copyright_notes = none;
  copyright_evidence_url = some "s3://evidence";
  created_by = 1;
  created_at = 50;
}

abbrev stocked : Library
stocked = record { contents = clip ∷ []; audit = [] }

-- A body that takes the evidence away.
abbrev without_evidence : UpdateContent
without_evidence = record {
  type = undefined;
  title = undefined;
  caption = undefined;
  target_age_min = undefined;
  target_age_max = undefined;
  status = undefined;
  licensing_status = undefined;
  license_notes = undefined;
  license_expires_at = undefined;
  content_pillar = undefined;
  copyright_cleared = undefined;
  copyright_notes = undefined;
  copyright_evidence_url = given "  ";
}

abbrev retitle : UpdateContent
retitle = record without_evidence { title = given "New"; copyright_evidence_url = undefined }

service : Unit {0}
unfolding create update archive new_content patched assert_age_range_is_valid
    assert_clearance_is_eligible assert_ready_transition_allowed record_audit insert_content
    find_or_throw nulls_a_required_column update_contents update_content set_archived find_content
    can_mark_copyright_cleared has_evidence trim trim_start is_space is_owned_media_url after
    after_key same_codes assert_media_url_is_owned
service = tt

makes_clip : (create clock dto 1 empty).0 ≡ ok clip
unfolding service
makes_clip = refl

create-CreatedContent_example : CreatedContent clock dto 1 empty (create clock dto 1 empty).1 clip
unfolding service
create-CreatedContent_example = create-CreatedContent clock dto 1 empty _ refl

clip-IsLawful : IsLawful clip
unfolding service
clip-IsLawful =
    (create-CreatedContent clock dto 1 empty (create clock dto 1 empty).1 {c = clip} refl).lawful

update-UpdatedContent_example :
    UpdatedContent clock 9 retitle 1 stocked
      (update clock 9 retitle 1 stocked).1
      (record clip { title = "New" })
unfolding service
update-UpdatedContent_example = update-UpdatedContent clock 9 retitle 1 stocked _ refl

respond-IsLawful_example : All IsLawful (respond clock (to_update 9 retitle 1) stocked).1.contents
respond-IsLawful_example =
    respond-IsLawful clock (to_update 9 retitle 1) stocked (clip-IsLawful, tt)
