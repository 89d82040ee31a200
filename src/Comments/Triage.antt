-- ===== src/Comments/Triage.antt =====
-- backend/src/modules/comments/comment-triage.service.ts: the priority of a comment and the time until which it is to be
-- answered.
pub mod Laws
mod Tests
use content_hub.Base.{
  ℕ, ◌+◌, ◌*◌, Bool, true, false, ◌&&◌, List, [], ◌∷◌, Option, none, some, String, any,
  if◌then◌else◌,
}
use content_hub.Comments.Records.{
  Sentiment, negative, CommentPriority, spam, question, complaint, general,
}
use content_hub.Comments.Escalation.{is_negative}
use content_hub.Comments.Sentiment.{to_lower_case, hits}

abbrev pub complaint_terms : List String
complaint_terms =
    "ร้องเรียน" ∷ "แย่" ∷ "ผิดหวัง" ∷ "โกง" ∷ "เสีย" ∷ "ปัญหา" ∷ "ไม่ได้รับ" ∷ "คืนเงิน"
    ∷ "complaint" ∷ "refund" ∷ "broken" ∷ "problem" ∷ []

abbrev pub question_terms : List String
question_terms =
    "ไหม" ∷ "หรือ" ∷ "เท่าไหร่" ∷ "เท่าไร" ∷ "อย่างไร" ∷ "ยังไง" ∷ "เมื่อไหร่" ∷ "ที่ไหน" ∷ "ทำไม"
    ∷ "อะไร" ∷ "how" ∷ "what" ∷ "when" ∷ "where" ∷ "why" ∷ "which" ∷ "?" ∷ []

abbrev pub spam_terms : List String
spam_terms =
    "http://" ∷ "https://" ∷ "www." ∷ ".com" ∷ "โปรโมชั่น" ∷ "คลิกเลย" ∷ "แอดไลน์" ∷ "line id"
    ∷ "promo" ∷ "click here" ∷ "free money" ∷ "ฟรี" ∷ []

-- `containsAny`
unfoldable pub contains_any : List ℕ → List String → Bool
unfolding hits
contains_any haystack terms = any (hits haystack) terms

-- `classifyPriority`
unfoldable pub classify_priority : List ℕ → Option Sentiment → CommentPriority
unfolding contains_any to_lower_case
classify_priority text sentiment =
    let haystack = to_lower_case text in
    if contains_any haystack spam_terms
    then spam
    else if contains_any haystack question_terms
    then question
    else if is_negative sentiment && contains_any haystack complaint_terms
    then complaint
    else general

-- `SLA_HOURS_BY_PRIORITY`
abbrev pub sla_hours : CommentPriority → Option ℕ
sla_hours complaint = some 4
sla_hours question = some 24
sla_hours spam = none
sla_hours general = some 48

-- `dueAt`
unfoldable pub due_at : CommentPriority → ℕ → Option ℕ
due_at priority collected_at = elim (sla_hours priority) [
  | none ↦ none
  | some hours ↦ some (collected_at + hours * 60 * 60 * 1000)
]
