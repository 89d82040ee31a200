-- ===== src/Comments/Reply/Tests.antt =====
-- Replies to one comment, with an update that is lost.
use content_hub.Base.{◌≡◌, refl, true, false, [], ◌∷◌, none, some}
use content_hub.Base.Effects.{database}
use content_hub.Schema.{Platform}
use content_hub.Comments.Records.{Comment}
use content_hub.Publish.Posts.{find_post}
use content_hub.Publish.Store.{find_user, record_audit}
use content_hub.Publish.StepUp.{assert_fresh_password}
use content_hub.Publish.Samples.{ports, dispatched_before}
use content_hub.Comments.Reply.{
  Inbox, ReplyEnv, find_comment, update_comments, unreplied, set_replied, clear_replied, set_reply,
  load_comment, claim_reply, store_reply, dispatch_reply, conclude, reply,
}
use content_hub.Comments.Reply.Laws.{replied_at_of, replied_once, reply_refused}

abbrev question : Comment
question = record {
  id = 4;
  post_id = 7;
  platform = Platform.facebook;
  author = "a";
  text = "when?";
  sentiment = none;
  collected_at = 10;
  external_comment_id = some "fb-c";
  priority = none;
  sla_due_at = none;
  replyable = true;
  replied_at = none;
  replied_by = none;
  reply_text = none;
  reply_external_id = none;
}

abbrev answered : Comment
answered = record question { replied_at = some 20; replied_by = some 1 }

abbrev inbox : Inbox
inbox = record { store = dispatched_before; comments = question ∷ []; sent = [] }

abbrev settled : Inbox
settled = record { store = dispatched_before; comments = answered ∷ []; sent = [] }

abbrev good : ReplyEnv
good = record {
  token = some "t";
  reply_external_id = some "fb-r";
  has_reply = true;
  stores = true;
  rolls_back = true;
}

-- The platform takes the reply, and the update that records it is lost.
abbrev lost : ReplyEnv
lost = record {
  token = some "t";
  reply_external_id = some "fb-r";
  has_reply = true;
  stores = false;
  rolls_back = true;
}

answering : Unit {0}
unfolding reply assert_fresh_password find_user record_audit find_post find_comment update_comments
    unreplied set_replied clear_replied set_reply load_comment claim_reply store_reply
    dispatch_reply conclude
answering = tt

sends_once : (reply ports good 4 "soon" "p" 1 inbox).1.sent ≡ 4 ∷ []
unfolding answering
sends_once = refl

-- A retry after the lost update sends the reply a second time.
sends_twice :
    (reply ports good 4 "soon" "p" 1 (reply ports lost 4 "soon" "p" 1 inbox).1).1.sent ≡ 4 ∷ 4 ∷ []
unfolding answering
sends_twice = refl

-- The rollback is lost as well: the comment counts as replied, and no reply is stored.
stuck :
    find_comment 4
      (reply ports (record lost { rolls_back = false }) 4 "soon" "p" 1 inbox).1.comments
    ≡ some (record question { replied_at = some 50; replied_by = some 1 })
unfolding answering
stuck = refl

replied_once_example :
    ((reply ports good 4 "soon" "p" 1 settled).1.comments ≡ answered ∷ [])
    × ((reply ports good 4 "soon" "p" 1 settled).1.sent ≡ [])
unfolding answering
replied_once_example =
    replied_once ports good 4 "soon" "p" 1 settled {c = answered} {t = 20} refl refl

reply_refused_example :
    replied_at_of (find_comment 4 (reply ports lost 4 "soon" "p" 1 inbox).1.comments) ≡ some none
unfolding answering
reply_refused_example =
    reply_refused ports lost 4 "soon" "p" 1 inbox _ {c = question} {e = database} refl refl refl
      refl
