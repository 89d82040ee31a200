-- ===== src/Comments/Escalation/Tests.antt =====
-- A spike of negative comments, evaluated twice in one hour.
use content_hub.Base.{ℕ, ◌≡◌, refl, true, List, [], ◌∷◌, none, some, length}
use content_hub.Schema.{Platform}
use content_hub.Comments.Records.{Comment, negative}
use content_hub.Comments.Escalation.{
  Desk, negative_count, floor_to_hour, has_alert, new_alert, evaluate, acknowledge_rows,
  acknowledge,
}
use content_hub.Comments.Escalation.Laws.{
  OnePerHour, to_evaluate, to_acknowledge, handle_all, handle_all-OnePerHour, DeskEvent,
}

abbrev angry : ℕ → Comment
angry id = record {
  id = id;
  post_id = 7;
  platform = Platform.facebook;
  author = "a";
  text = "no";
  sentiment = some negative;
  collected_at = 3600100;
  external_comment_id = none;
  priority = none;
  sla_due_at = none;
  replyable = true;
  replied_at = none;
  replied_by = none;
  reply_text = none;
  reply_external_id = none;
}

abbrev desk : Desk
desk = record {
  comments = angry 1 ∷ angry 2 ∷ angry 3 ∷ angry 4 ∷ angry 5 ∷ [];
  alerts = [];
  raised = [];
}

abbrev events : List DeskEvent
events = to_evaluate 1 9 3600200 ∷ to_acknowledge 1 3600300 ∷ to_evaluate 2 9 3600400 ∷ []

raises_once : length (handle_all events desk).alerts ≡ 1
unfolding evaluate acknowledge acknowledge_rows new_alert has_alert negative_count floor_to_hour
raises_once = refl

handle_all-OnePerHour_example : OnePerHour (handle_all events desk).alerts
handle_all-OnePerHour_example = handle_all-OnePerHour events desk tt
