-- ===== src/Comments/Triage/Tests.antt =====
-- Priorities of some texts.
use content_hub.Base.{◌≡◌, refl, none, some}
use content_hub.Content.Gate.Trim.{codes}
use content_hub.Comments.Records.{spam, general, neutral}
use content_hub.Comments.Sentiment.{lower_code, to_lower_case, starts_with, contains, hits}
use content_hub.Comments.Triage.{contains_any, classify_priority}

triaging : Unit {0}
unfolding classify_priority contains_any hits contains starts_with to_lower_case lower_code
triaging = tt

link_is_spam : classify_priority (codes "WWW.x") none ≡ spam
unfolding triaging
link_is_spam = refl

-- A complaint counts only with a negative sentiment.
calm_complaint : classify_priority (codes "refund") (some neutral) ≡ general
unfolding triaging
calm_complaint = refl
