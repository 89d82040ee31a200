-- ===== src/Comments/Inbox/Tests.antt =====
-- Two comments, with two pages of one row.
use content_hub.Base.{◌≡◌, refl, true, [], ◌∷◌, none, some, arith, map, List}
use content_hub.Schema.{Platform}
use content_hub.Comments.Records.{Comment}
use content_hub.Comments.Inbox.{
  ListCommentsQuery, replied_where, due_where, build_where, comes_after, from_entity, list_comments,
}
use content_hub.Base.{inl}
use content_hub.Comments.Inbox.Laws.Order.{insert_comment, order_comments, order_comments-Sorts}
use content_hub.Comments.Inbox.Laws.{IsRead, pages, pages-IsRead}

abbrev waiting : Comment
waiting = record {
  id = 4;
  post_id = 7;
  platform = Platform.facebook;
  author = "a";
  text = "when?";
  sentiment = none;
  collected_at = 10;
  external_comment_id = some "fb-c";
  priority = none;
  sla_due_at = some 50;
  replyable = true;
  replied_at = none;
  replied_by = none;
  reply_text = none;
  reply_external_id = none;
}

abbrev answered : Comment
answered = record waiting {
  id = 5;
  sla_due_at = some 40;
  replied_at = some 20;
  replied_by = some 1;
}

abbrev comments : List Comment
comments = waiting ∷ answered ∷ []

abbrev one_by_one : ListCommentsQuery
one_by_one = record {
  platform = none;
  sentiment = none;
  priority = none;
  sla_breach = none;
  replied = none;
  page = none;
  page_size = some 1;
}

listing : Unit {0}
unfolding list_comments build_where replied_where due_where comes_after insert_comment
    order_comments from_entity
listing = tt

second_page :
    map
      (λ r. r.comment.id)
      (list_comments order_comments (record one_by_one { page = some 2 }) 60 comments).items
    ≡ 4 ∷ []
unfolding listing
second_page = refl

-- The replied ones are asked for, and the open one is shown.
breach_overrules :
    map
      (λ r. r.comment.id)
      (list_comments order_comments
        (record one_by_one { sla_breach = some true; replied = some true })
        60
        comments).items
    ≡ 4 ∷ []
unfolding listing
breach_overrules = refl

pages-IsRead_example :
    IsRead one_by_one 60 comments (pages (λ k. order_comments) 2 one_by_one 60 comments)
unfolding listing
pages-IsRead_example =
    pages-IsRead (λ k. order_comments) 2 one_by_one 60 comments (λ k. order_comments-Sorts)
      ((inl refl, tt), (tt, tt)) (omega arith)
