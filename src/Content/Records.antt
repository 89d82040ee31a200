-- ===== src/Content/Records.antt =====
-- A row of the `contents` table (model Content of backend/prisma/schema.prisma). Ids and times are
-- numbers; `license_expires_at` is a time, and the unused `target_age_segment` is left out.
use content_hub.Base.{ℕ, Option, String, List, [], ◌∷◌, if◌then◌else◌, ◌==◌, none, some}
use content_hub.Schema.{
  ContentStatus, ContentType, ContentPillar, CopyrightClearance, LicensingStatus,
}

pub record Content : Type 0 where
  pub id : ℕ
  pub type : ContentType
  pub title : String
  pub media_url : String
  pub caption : Option String
  pub target_age_min : ℕ
  pub target_age_max : ℕ
  pub status : ContentStatus
  pub licensing_status : LicensingStatus
  pub license_notes : Option String
  pub license_expires_at : Option ℕ
  pub file_size_bytes : Option ℕ
  pub mime_type : Option String
  pub content_pillar : Option ContentPillar
  pub copyright_cleared : CopyrightClearance
  pub copyright_notes : Option String
  pub copyright_evidence_url : Option String
  pub created_by : ℕ
  pub created_at : ℕ

-- `prisma.content.findUnique({ where: { id } })`
unfoldable pub find_content : ℕ → List Content → Option Content
find_content id [] = none
find_content id (c ∷ cs) = if c.id == id then some c else find_content id cs
