-- ===== src/Comments/Retention/Tests.antt =====
-- A purge on 29 February 2028, and an erasure.
use content_hub.Base.{◌≡◌, refl, ℕ, true, [], ◌∷◌, none, arith, map, ◌+◌, ◌*◌}
use content_hub.Schema.{Platform}
use content_hub.Publish.Store.{record_audit}
use content_hub.Publish.Samples.{before}
use content_hub.Comments.Records.{Comment}
use content_hub.Comments.Reply.{Inbox, find_comment}
use content_hub.Comments.Retention.{
  Civil, Calendar, is_leap, days_in, land, subtract_months, cutoff_of, purge_expired,
  without_comment, erase_one,
}
use content_hub.Comments.Retention.Laws.{IsDate, IsPurged, purge_expired-IsPurged}

abbrev leap_day : Civil
leap_day = record { year = 2028; month = 1; day = 29; time = 0 }

abbrev days : Calendar
days = record { civil_of = λ now. leap_day; time_of = λ d. d.year * 10000 + d.month * 100 + d.day }

abbrev comment : ℕ → ℕ → Comment
comment id collected_at = record {
  id = id;
  post_id = 7;
  platform = Platform.facebook;
  author = "a";
  text = "b";
  sentiment = none;
  collected_at = collected_at;
  external_comment_id = none;
  priority = none;
  sla_due_at = none;
  replyable = true;
  replied_at = none;
  replied_by = none;
  reply_text = none;
  reply_external_id = none;
}

abbrev inbox : Inbox
inbox = record {
  store = before;
  comments = comment 1 20270128 ∷ comment 2 20270200 ∷ comment 3 20270301 ∷ [];
  sent = [];
}

retaining : Unit {0}
unfolding purge_expired cutoff_of subtract_months land days_in is_leap erase_one without_comment
    find_comment record_audit
retaining = tt

-- `subtractMonths` runs over the end of February.
into_march : subtract_months leap_day 12 ≡ record { year = 2027; month = 2; day = 1; time = 0 }
unfolding retaining
into_march = refl

erased : map (λ c. c.id) (erase_one 2 1 inbox).1.comments ≡ 1 ∷ 3 ∷ []
unfolding retaining
erased = refl

leap_day-IsDate : IsDate leap_day
unfolding retaining
leap_day-IsDate = record { month_bound = omega arith; day_bound = omega arith }

purge_expired-IsPurged_example : IsPurged days 1 50 inbox
purge_expired-IsPurged_example =
    purge_expired-IsPurged days 1 50 inbox leap_day-IsDate (omega arith)
