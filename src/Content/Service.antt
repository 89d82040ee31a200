-- ===== src/Content/Service.antt =====
-- backend/src/modules/content/content.service.ts: the requests that create, change and archive content.
pub mod Laws
pub mod Requests
mod Tests
use content_hub.Base.{
  ℕ, ◌==◌, Bool, true, false, not, ◌||◌, List, [], ◌∷◌, Option, none, some, String, if◌then◌else◌,
  leb, length,
}
use content_hub.Base.Effects.{
  M, ok, err, feed, ◌>>=◌, ◌>>◌, return, get, modify, ensure, bad_request, not_found, database,
}
use content_hub.Schema.{
  ContentType, ContentStatus, draft, ready, archived, LicensingStatus, ContentPillar,
  CopyrightClearance, not_checked, is_ready, is_cleared,
}
use content_hub.Content.Records.{Content, find_content}
use content_hub.Content.Gate.{can_mark_copyright_cleared}
use content_hub.Content.Gate.Trim.{codes}
use content_hub.Content.MediaUrl.{assert_media_url_is_owned}

-- A field of a JSON body: left out, null, or given. `@IsOptional` lets null pass.
pub data Field {ℓ} (A : Type ℓ) : Type ℓ where
  undefined null : Field A
  given : A → Field A

-- `field ?? other`
abbrev pub or_else {ℓ} : {A : Type ℓ} → Field A → A → A
or_else (given a) other = a
or_else _ other = other

-- `field !== undefined ? field : other`, for a column that may be null.
abbrev pub unless_undefined {ℓ} : {A : Type ℓ} → Field A → Option A → Option A
unless_undefined undefined other = other
unless_undefined null other = none
unless_undefined (given a) other = some a

abbrev pub is_null {ℓ} : {A : Type ℓ} → Field A → Bool
is_null null = true
is_null _ = false

pub record CreateContent : Type 0 where
  pub type : ContentType
  pub title : String
  pub media_url : String
  pub caption : Option String
  pub target_age_min : ℕ
  pub target_age_max : ℕ
  pub licensing_status : LicensingStatus
  pub license_notes : Option String
  pub license_expires_at : Option String
  pub mark_ready : Bool
  pub content_pillar : Option ContentPillar
  pub copyright_cleared : Option CopyrightClearance
  pub copyright_notes : Option String
  pub copyright_evidence_url : Option String
  pub file_size_bytes : Field ℕ
  pub mime_type : Option String

pub record UpdateContent : Type 0 where
  pub type : Field ContentType
  pub title : Field String
  pub caption : Field String
  pub target_age_min : Field ℕ
  pub target_age_max : Field ℕ
  pub status : Field ContentStatus
  pub licensing_status : Field LicensingStatus
  pub license_notes : Field String
  pub license_expires_at : Field String
  pub content_pillar : Field ContentPillar
  pub copyright_cleared : Field CopyrightClearance
  pub copyright_notes : Field String
  pub copyright_evidence_url : Field String

pub data ContentAction : Type 0 where
  content_created content_updated content_archived : ContentAction

pub record ContentAudit : Type 0 where
  pub actor : ℕ
  pub action : ContentAction
  pub content_id : ℕ

pub record Library : Type 0 where
  pub contents : List Content
  pub audit : List ContentAudit

-- The clock, the fresh key, and `new Date` on a string that `@IsDateString` accepts.
pub record Clock : Type 0 where
  pub now : ℕ
  pub new_id : ℕ
  pub parse_date : String → ℕ

-- `ComplianceState`
pub record ComplianceState : Type 0 where
  pub content_pillar : Option ContentPillar
  pub copyright_evidence_url : Option String
  pub copyright_cleared : CopyrightClearance

abbrev pub or_not_checked : Option CopyrightClearance → CopyrightClearance
or_not_checked none = not_checked
or_not_checked (some c) = c

-- `s ? new Date(s) : null`: the empty string counts as null.
abbrev pub to_date : (String → ℕ) → Option String → Option ℕ
to_date parse none = none
to_date parse (some s) = if length (codes s) == 0 then none else some (parse s)

-- `assertAgeRangeIsValid`
unfoldable pub assert_age_range_is_valid : ℕ → ℕ → M Library (Unit {0})
assert_age_range_is_valid min max = ensure (leb min max) bad_request

-- `assertClearanceIsEligible`
unfoldable pub assert_clearance_is_eligible : ComplianceState → M Library (Unit {0})
assert_clearance_is_eligible c =
    ensure (can_mark_copyright_cleared c.content_pillar c.copyright_evidence_url) bad_request

-- `assertReadyTransitionAllowed`
unfoldable pub assert_ready_transition_allowed : ComplianceState → M Library (Unit {0})
unfolding assert_clearance_is_eligible
assert_ready_transition_allowed c = do
  ensure (is_cleared c.copyright_cleared) bad_request
  assert_clearance_is_eligible c

-- `if (test) …`
abbrev pub when : Bool → M Library (Unit {0}) → M Library (Unit {0})
when true m = m
when false m = return tt

unfoldable pub record_audit : ℕ → ContentAction → ℕ → Library → Library
record_audit actor action content_id s = record s {
  audit = record { actor = actor; action = action; content_id = content_id } ∷ s.audit;
}

abbrev pub compliance_of : CreateContent → ComplianceState
compliance_of dto = record {
  content_pillar = dto.content_pillar;
  copyright_evidence_url = dto.copyright_evidence_url;
  copyright_cleared = or_not_checked dto.copyright_cleared;
}

-- `dto.fileSizeBytes !== undefined ? BigInt(dto.fileSizeBytes) : null`, where `BigInt(null)` throws.
abbrev pub file_size : Field ℕ → M Library (Option ℕ)
file_size undefined s = (ok none, s)
file_size null s = (err database, s)
file_size (given n) s = (ok (some n), s)

-- The row of `create`.
unfoldable pub new_content : Clock → CreateContent → ℕ → Option ℕ → Content
new_content clock dto user_id size = record {
  id = clock.new_id;
  type = dto.type;
  title = dto.title;
  media_url = dto.media_url;
  caption = dto.caption;
  target_age_min = dto.target_age_min;
  target_age_max = dto.target_age_max;
  status = if dto.mark_ready then ready else draft;
  licensing_status = dto.licensing_status;
  license_notes = dto.license_notes;
  license_expires_at = to_date clock.parse_date dto.license_expires_at;
  file_size_bytes = size;
  mime_type = dto.mime_type;
  content_pillar = (compliance_of dto).content_pillar;
  copyright_cleared = (compliance_of dto).copyright_cleared;
  copyright_notes = dto.copyright_notes;
  copyright_evidence_url = (compliance_of dto).copyright_evidence_url;
  created_by = user_id;
  created_at = clock.now;
}

-- `content.create`, which raises on a key that is taken.
unfoldable pub insert_content : Content → M Library Content
insert_content c s = elim (find_content c.id s.contents) [
  | some _ ↦ (err database, s)
  | none ↦ (ok c, record s { contents = c ∷ s.contents })
]

-- `create`
unfoldable pub create : Clock → CreateContent → ℕ → M Library Content
create clock dto user_id = do
  assert_age_range_is_valid dto.target_age_min dto.target_age_max
  assert_media_url_is_owned dto.media_url
  when (is_cleared (compliance_of dto).copyright_cleared)
      (assert_clearance_is_eligible (compliance_of dto))
  when dto.mark_ready (assert_ready_transition_allowed (compliance_of dto))
  size ← file_size dto.file_size_bytes
  content ← insert_content (new_content clock dto user_id size)
  modify (record_audit user_id content_created content.id)
  return content

-- `findOrThrow`
unfoldable pub find_or_throw : ℕ → M Library Content
find_or_throw id s = elim (find_content id s.contents) [
  | none ↦ (err not_found, s)
  | some c ↦ (ok c, s)
]

-- The merged state that `update` validates.
abbrev pub merged_compliance : UpdateContent → Content → ComplianceState
merged_compliance dto existing = record {
  content_pillar = unless_undefined dto.content_pillar existing.content_pillar;
  copyright_evidence_url =
      unless_undefined dto.copyright_evidence_url existing.copyright_evidence_url;
  copyright_cleared = or_else dto.copyright_cleared existing.copyright_cleared;
}

abbrev pub given_cleared : Field CopyrightClearance → Bool
given_cleared (given c) = is_cleared c
given_cleared _ = false

abbrev pub date_field : (String → ℕ) → Field String → Option ℕ → Option ℕ
date_field parse undefined old = old
date_field parse null old = none
date_field parse (given s) old = to_date parse (some s)

-- The row with the data of `update`, for data that the driver accepts.
unfoldable pub patched : Clock → UpdateContent → Content → Content
patched clock dto c = record c {
  type = or_else dto.type c.type;
  title = or_else dto.title c.title;
  caption = unless_undefined dto.caption c.caption;
  target_age_min = or_else dto.target_age_min c.target_age_min;
  target_age_max = or_else dto.target_age_max c.target_age_max;
  status = or_else dto.status c.status;
  licensing_status = or_else dto.licensing_status c.licensing_status;
  license_notes = unless_undefined dto.license_notes c.license_notes;
  license_expires_at = date_field clock.parse_date dto.license_expires_at c.license_expires_at;
  content_pillar = unless_undefined dto.content_pillar c.content_pillar;
  copyright_cleared = or_else dto.copyright_cleared c.copyright_cleared;
  copyright_notes = unless_undefined dto.copyright_notes c.copyright_notes;
  copyright_evidence_url = unless_undefined dto.copyright_evidence_url c.copyright_evidence_url;
}

-- The driver refuses null for a column that may not be null.
unfoldable pub nulls_a_required_column : UpdateContent → Bool
nulls_a_required_column dto =
    is_null dto.type
    || is_null dto.title
    || is_null dto.target_age_min
    || is_null dto.target_age_max
    || is_null dto.status
    || is_null dto.licensing_status
    || is_null dto.copyright_cleared

-- The rows after `content.update({ where: { id }, data })`.
unfoldable pub update_contents : ℕ → (Content → Content) → List Content → List Content
update_contents id data_ [] = []
update_contents id data_ (c ∷ cs) =
    if c.id == id then data_ c ∷ cs else c ∷ update_contents id data_ cs

-- `content.update`, which returns the row and raises if there is none.
unfoldable pub update_content : ℕ → (Content → Content) → M Library Content
update_content id data_ s = elim (find_content id s.contents) [
  | none ↦ (err database, s)
  | some c ↦ (ok (data_ c), record s { contents = update_contents id data_ s.contents })
]

-- `update`
unfoldable pub update : Clock → ℕ → UpdateContent → ℕ → M Library Content
update clock id dto user_id = do
  existing ← find_or_throw id
  assert_age_range_is_valid (or_else dto.target_age_min existing.target_age_min)
      (or_else dto.target_age_max existing.target_age_max)
  when (given_cleared dto.copyright_cleared)
      (assert_clearance_is_eligible (merged_compliance dto existing))
  when (is_ready (or_else dto.status existing.status))
      (assert_ready_transition_allowed (merged_compliance dto existing))
  ensure (not (nulls_a_required_column dto)) database
  content ← update_content id (patched clock dto)
  modify (record_audit user_id content_updated id)
  return content

unfoldable pub set_archived : Content → Content
set_archived c = record c { status = archived }

-- `archive`
unfoldable pub archive : ℕ → ℕ → M Library Content
archive id user_id = do
  find_or_throw id
  content ← update_content id set_archived
  modify (record_audit user_id content_archived id)
  return content
