-- ===== src/Comments/Escalation.antt =====
-- backend/src/modules/comments/escalation.service.ts: the alert on a spike of negative comments. All alerts
-- have the one rule key of the program. The clock's zone is off by whole hours, so that `setMinutes(0)` takes
-- the remainder of the hour away.
pub mod Laws
mod Tests
use content_hub.Base.{
  ℕ, ◌+◌, ◌-◌, ◌*◌, ◌%◌, Bool, true, false, ◌&&◌, List, [], ◌∷◌, Option, none, some, ◌==◌, ltb, leb,
  if◌then◌else◌, any, keep, length,
}
use content_hub.Base.Effects.{M, ok, err, not_found, database}
use content_hub.Comments.Records.{Comment, EscalationAlert, Sentiment, negative}

-- `ESCALATION_WINDOW_MINUTES` and `ESCALATION_THRESHOLD`
abbrev pub escalation_window_minutes : ℕ
escalation_window_minutes = 60

abbrev pub escalation_threshold : ℕ
escalation_threshold = 5

abbrev pub hour : ℕ
hour = 60 * 60 * 1000

-- The alerts, the comments, and how often `comment_escalation_raised` was audited.
pub record Desk : Type 0 where
  pub comments : List Comment
  pub alerts : List EscalationAlert
  pub raised : List ℕ

abbrev pub is_negative : Option Sentiment → Bool
is_negative (some negative) = true
is_negative _ = false

-- `comment.count` over the rolling window; on the clock of the program no time lies before its start.
unfoldable pub negative_count : ℕ → List Comment → ℕ
negative_count now comments = length (
    keep
      (λ c.
        is_negative c.sentiment
        && leb (now - escalation_window_minutes * 60 * 1000) c.collected_at
        && leb c.collected_at now)
      comments)

-- `floorToHour`
unfoldable pub floor_to_hour : ℕ → ℕ
floor_to_hour date = date - date % hour

unfoldable pub has_alert : ℕ → List EscalationAlert → Bool
has_alert bucket alerts = any (λ a. a.window_start == bucket) alerts

-- The alert of `evaluate`.
unfoldable pub new_alert : ℕ → ℕ → ℕ → EscalationAlert
new_alert id now count = record {
  id = id;
  window_start = floor_to_hour now;
  window_end = now;
  negative_count = count;
  threshold = escalation_threshold;
  acknowledged_at = none;
}

-- `evaluate`: the unique key of rule and window refuses a second alert of the bucket, which is no error.
unfoldable pub evaluate : ℕ → ℕ → ℕ → M Desk (Unit {0})
evaluate id actor now s =
    if ltb (negative_count now s.comments) escalation_threshold
    then (ok tt, s)
    else if has_alert (floor_to_hour now) s.alerts
    then (ok tt, s)
    else (
      ok tt,
      record s {
        alerts = new_alert id now (negative_count now s.comments) ∷ s.alerts;
        raised = actor ∷ s.raised;
      },
    )

-- The rows after `escalationAlert.update({ where: { id }, data: { acknowledgedAt } })`.
unfoldable pub acknowledge_rows : ℕ → ℕ → List EscalationAlert → List EscalationAlert
acknowledge_rows id now [] = []
acknowledge_rows id now (a ∷ as_) =
    if a.id == id
    then record a { acknowledged_at = some now } ∷ as_
    else a ∷ acknowledge_rows id now as_

-- `acknowledge`, which raises if there is no such alert.
unfoldable pub acknowledge : ℕ → ℕ → M Desk (Unit {0})
acknowledge id now s =
    if any (λ a. a.id == id) s.alerts
    then (ok tt, record s { alerts = acknowledge_rows id now s.alerts })
    else (err database, s)
