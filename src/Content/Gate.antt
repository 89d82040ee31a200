-- ===== src/Content/Gate.antt =====
-- backend/src/modules/content/copyright-gate.service.ts: which content may be marked as cleared.
pub mod Trim
pub mod Laws
use content_hub.Base.{ℕ, ◌≡◌, ◌↔◌, Bool, true, false, Option, none, some, String, ltb, length, List}
use content_hub.Schema.{ContentPillar, comedy, drama, product}
use Trim.{codes, trim, visible, trim-visible}

-- `hasEvidence`: `typeof … === 'string' && evidenceUrl.trim().length > 0`
unfoldable pub has_evidence : Option String → Bool
has_evidence none = false
has_evidence (some url) = ltb 0 (length (trim (codes url)))

-- `canMarkCopyrightCleared`
unfoldable pub can_mark_copyright_cleared : Option ContentPillar → Option String → Bool
can_mark_copyright_cleared (some comedy) evidence_url = true
can_mark_copyright_cleared (some drama) evidence_url = has_evidence evidence_url
can_mark_copyright_cleared (some product) evidence_url = has_evidence evidence_url
can_mark_copyright_cleared none evidence_url = has_evidence evidence_url
