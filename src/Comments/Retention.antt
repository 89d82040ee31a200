-- ===== src/Comments/Retention.antt =====
-- backend/src/modules/comments/comment-retention.service.ts: comments are deleted after twelve months, or one on request.
-- What a local date is stands outside: `Calendar`.
pub mod Laws
mod Tests
use content_hub.Base.{
  ℕ, ◌+◌, ◌-◌, ◌*◌, ◌/◌, ◌%◌, Bool, true, false, not, ◌&&◌, ◌||◌, List, [], ◌∷◌, Option, none, some,
  ◌==◌, leb, ltb, keep, length, if◌then◌else◌,
}
use content_hub.Base.Effects.{M, ok, err, not_found}
use content_hub.Publish.Store.{
  AuditAction, comment_retention_purged, comment_erased, record_audit, audit_row,
}
use content_hub.Comments.Records.{Comment}
use content_hub.Comments.Reply.{Inbox, find_comment}

-- The parts of a date in local time: the month from 0, the day from 1, the time of the day.
pub record Civil : Type 0 where
  pub year : ℕ
  pub month : ℕ
  pub day : ℕ
  pub time : ℕ

pub record Calendar : Type 0 where
  pub civil_of : ℕ → Civil
  pub time_of : Civil → ℕ

unfoldable pub is_leap : ℕ → Bool
is_leap year = year % 400 == 0 || (year % 4 == 0 && not (year % 100 == 0))

unfoldable pub days_in : ℕ → ℕ → ℕ
unfolding is_leap
days_in year month =
    if month == 1
    then (if is_leap year then 29 else 28)
    else if month == 3 || month == 5 || month == 8 || month == 10
    then 30
    else 31

-- `RETENTION_MONTHS`
abbrev pub retention_months : ℕ
retention_months = 12

-- The day of a date in another month; what is over the end of the month runs into the next one.
unfoldable pub land : Civil → ℕ → ℕ → Civil
unfolding days_in
land date year month =
    if leb date.day (days_in year month)
    then record { year = year; month = month; day = date.day; time = date.time }
    else record {
      year = (if month == 11 then year + 1 else year);
      month = (month + 1) % 12;
      day = date.day - days_in year month;
      time = date.time;
    }

-- `subtractMonths`: `setMonth` keeps the day of the month.
unfoldable pub subtract_months : Civil → ℕ → Civil
unfolding land
subtract_months date months =
    let target_month = date.year * 12 + date.month - months in
    land date (target_month / 12) (target_month % 12)

unfoldable pub cutoff_of : Calendar → ℕ → ℕ
unfolding subtract_months
cutoff_of calendar now = calendar.time_of (subtract_months (calendar.civil_of now) retention_months)

abbrev pub is_expired : ℕ → Comment → Bool
is_expired cutoff c = ltb c.collected_at cutoff

-- `purgeExpired`, with the number of the rows and the cutoff.
unfoldable pub purge_expired : Calendar → ℕ → ℕ → M Inbox (ℕ × ℕ)
purge_expired calendar user_id now s =
    let cutoff = cutoff_of calendar now in
    (
      ok (length (keep (is_expired cutoff) s.comments), cutoff),
      record s {
        comments = keep (λ c. not (is_expired cutoff c)) s.comments;
        store = record_audit (audit_row user_id comment_retention_purged true none) s.store;
      },
    )

-- The rows after `comment.delete`.
unfoldable pub without_comment : ℕ → List Comment → List Comment
without_comment id [] = []
without_comment id (c ∷ cs) = if c.id == id then cs else c ∷ without_comment id cs

-- `eraseOne`
unfoldable pub erase_one : ℕ → ℕ → M Inbox (Unit {0})
erase_one comment_id user_id s = elim (find_comment comment_id s.comments) [
  | none ↦ (err not_found, s)
  | some comment ↦ (
    ok tt,
    record s {
      comments = without_comment comment_id s.comments;
      store = record_audit (audit_row user_id comment_erased true none) s.store;
    },
  )
]
