-- ===== src/Content/Tests.antt =====
-- The copyright gate at concrete inputs.
use content_hub.Base.{◌≡◌, refl, false, some}
use content_hub.Schema.{drama}
use content_hub.Content.Gate.{can_mark_copyright_cleared, has_evidence}
use content_hub.Content.Gate.Trim.{trim, trim_start, is_space}

blank : can_mark_copyright_cleared (some drama) (some " \t\n") ≡ false
unfolding can_mark_copyright_cleared has_evidence trim trim_start is_space
blank = refl
