-- ===== src/Comments/Escalation/Laws.antt =====
-- One alert for each hour, whatever is evaluated and acknowledged.
use content_hub.Base.{
  ℕ, ◌+◌, ◌*◌, ◌%◌, ◌/◌, ◌≤◌, ◌<◌, ◌≡◌, ◌≢◌, ap, All, inl, inr, false, ◌||◌, List, [], ◌∷◌, ◌==◌,
  ltb, leb, any, arith, Bool-cases,
}
use content_hub.Base.Effects.{M}
use content_hub.Comments.Records.{EscalationAlert}
use content_hub.Comments.Escalation.{
  Desk, escalation_threshold, hour, negative_count, floor_to_hour, has_alert, new_alert, evaluate,
  acknowledge_rows, acknowledge,
}

-- No alert ends in the hour with that number, counted from the start of the clock.
abbrev pub NoneInHour : ℕ → List EscalationAlert → Type 0
NoneInHour k alerts = All (λ a. a.window_end / 3600000 ≢ k) alerts

-- Each alert starts with the hour in which it ends, and no two alerts end in one hour.
abbrev pub OnePerHour : List EscalationAlert → Type 0
OnePerHour [] = Unit
OnePerHour (a ∷ rest) =
    (a.window_start ≡ a.window_end / 3600000 * 3600000)
    × NoneInHour (a.window_end / 3600000) rest
    × OnePerHour rest

floor_to_hour_start : (date : ℕ) → floor_to_hour date ≡ date / 3600000 * 3600000
unfolding floor_to_hour
floor_to_hour_start date = omega arith

-- An hour whose bucket has no alert has none.
has_alert-NoneInHour :
    (now : ℕ) (alerts : List EscalationAlert)
    → OnePerHour alerts
    → has_alert (floor_to_hour now) alerts ≡ false
    → NoneInHour (now / 3600000) alerts
unfolding has_alert
has_alert-NoneInHour now [] h free = tt
has_alert-NoneInHour now (a ∷ rest) (start, apart, h) free = (
  λ same. absurd (
      ground (
        arith,
        start,
        floor_to_hour_start now,
        ap (λ k. k * 3600000) {x = a.window_end / 3600000} {y = now / 3600000} same,
      )),
  has_alert-NoneInHour now rest h (ground arith),
)

acknowledge_rows-NoneInHour :
    (k id now : ℕ) (alerts : List EscalationAlert)
    → NoneInHour k alerts
    → NoneInHour k (acknowledge_rows id now alerts)
unfolding acknowledge_rows
acknowledge_rows-NoneInHour k id now [] h = tt
acknowledge_rows-NoneInHour k id now (a ∷ rest) (other, h) = elim (Bool-cases (a.id == id)) [
  | inl hit ↦ rw hit (other, h)
  | inr miss ↦ rw miss (other, acknowledge_rows-NoneInHour k id now rest h)
]

acknowledge_rows-OnePerHour :
    (id now : ℕ) (alerts : List EscalationAlert)
    → OnePerHour alerts
    → OnePerHour (acknowledge_rows id now alerts)
unfolding acknowledge_rows
acknowledge_rows-OnePerHour id now [] h = tt
acknowledge_rows-OnePerHour id now (a ∷ rest) (start, apart, h) = elim (Bool-cases (a.id == id)) [
  | inl hit ↦ rw hit (start, apart, h)
  | inr miss ↦ rw miss (
    start,
    acknowledge_rows-NoneInHour (a.window_end / 3600000) id now rest apart,
    acknowledge_rows-OnePerHour id now rest h,
  )
]

-- What the clock and the admin do: an evaluation at a time, or an acknowledgement.
pub data DeskEvent : Type 0 where
  to_evaluate : ℕ → ℕ → ℕ → DeskEvent
  to_acknowledge : ℕ → ℕ → DeskEvent

abbrev pub handle : DeskEvent → M Desk (Unit {0})
handle (to_evaluate id actor now) = evaluate id actor now
handle (to_acknowledge id now) = acknowledge id now

abbrev pub handle_all : List DeskEvent → Desk → Desk
handle_all [] s = s
handle_all (e ∷ es) s = handle_all es (handle e s).1

handle-OnePerHour :
    (e : DeskEvent) (s : Desk) → OnePerHour s.alerts → OnePerHour (handle e s).1.alerts
unfolding evaluate acknowledge new_alert
handle-OnePerHour (to_evaluate id actor now) s h =
    elim (Bool-cases (ltb (negative_count now s.comments) escalation_threshold)) [
      | inl few ↦ rw few h
      | inr many ↦ elim (Bool-cases (has_alert (floor_to_hour now) s.alerts)) [
        | inl there ↦ rw (many, there) h
        | inr fresh ↦
            rw (many, fresh) (floor_to_hour_start now, has_alert-NoneInHour now s.alerts h fresh, h)
      ]
    ]
handle-OnePerHour (to_acknowledge id now) s h = elim (Bool-cases (any (λ a. a.id == id) s.alerts)) [
  | inl there ↦ rw there (acknowledge_rows-OnePerHour id now s.alerts h)
  | inr missing ↦ rw missing h
]

-- Whatever evaluations and acknowledgements follow one another: if each alert starts with the hour, of 3600000
-- milliseconds, in which it ends, and no two alerts end in one hour, then this stays so.
pub handle_all-OnePerHour :
    (es : List DeskEvent) (s : Desk) → OnePerHour s.alerts → OnePerHour (handle_all es s).alerts
handle_all-OnePerHour [] s h = h
handle_all-OnePerHour (e ∷ es) s h =
    handle_all-OnePerHour es (handle e s).1 (handle-OnePerHour e s h)

-- After an evaluation the hour has an alert exactly if it had one or the negative comments of the window
-- reach the threshold.
pub evaluate-has_alert :
    (id actor now : ℕ) (s : Desk)
    → has_alert (floor_to_hour now) (evaluate id actor now s).1.alerts ≡ (
        has_alert (floor_to_hour now) s.alerts
        || leb escalation_threshold (negative_count now s.comments))
unfolding evaluate has_alert new_alert
evaluate-has_alert id actor now s = ground arith

pub floor_to_hour_lem :
    (date : ℕ)
    → (floor_to_hour date % hour ≡ 0)
      × (floor_to_hour date ≤ date)
      × (date < floor_to_hour date + hour)
unfolding floor_to_hour
floor_to_hour_lem date = (omega arith, omega arith, omega arith)
