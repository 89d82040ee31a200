-- ===== src/Comments/Inbox.antt =====
-- backend/src/modules/comments/comment-inbox.service.ts: the comments that a query selects, in order and page by page. A row
-- is the comment with the flag that its answer computes.
pub mod Laws
mod Tests
use content_hub.Base.{
  ℕ, zero, suc, ◌-◌, ◌*◌, Bool, true, false, not, ◌&&◌, ◌||◌, List, [], ◌∷◌, ◌++◌, Option, none,
  some, ◌==◌, ltb, keep, map, length, if◌then◌else◌, or_this, optional, is_none,
}
use content_hub.Schema.{Platform, platform_index}
use content_hub.Comments.Records.{
  Sentiment, positive, neutral, negative, CommentPriority, spam, question, complaint, general,
  Comment,
}

abbrev pub default_page_size : ℕ
default_page_size = 25

abbrev pub max_page_size : ℕ
max_page_size = 100

pub record ListCommentsQuery : Type 0 where
  pub platform : Option Platform
  pub sentiment : Option Sentiment
  pub priority : Option CommentPriority
  pub sla_breach : Option Bool
  pub replied : Option Bool
  pub page : Option ℕ
  pub page_size : Option ℕ

abbrev sentiment_index : Sentiment → ℕ
sentiment_index positive = 0
sentiment_index neutral = 1
sentiment_index negative = 2

abbrev priority_index : CommentPriority → ℕ
priority_index spam = 0
priority_index question = 1
priority_index complaint = 2
priority_index general = 3

-- An equation with a column that may be null.
abbrev is_value : {A : Type 0} → (A → ℕ) → A → Option A → Bool
is_value index a none = false
is_value index a (some b) = index b == index a

abbrev pub is_due : ℕ → Option ℕ → Bool
is_due now none = false
is_due now (some due) = ltb due now

-- The condition on `repliedAt`: that of a breach takes the place of the one that is asked for.
unfoldable pub replied_where : ListCommentsQuery → Option ℕ → Bool
replied_where query replied_at = elim query.sla_breach [
  | some true ↦ is_none replied_at
  | some false ↦
      optional query.replied (λ r. if r then not (is_none replied_at) else is_none replied_at)
  | none ↦ optional query.replied (λ r. if r then not (is_none replied_at) else is_none replied_at)
]

unfoldable pub due_where : ListCommentsQuery → ℕ → Option ℕ → Bool
due_where query now due = elim query.sla_breach [
  | some true ↦ is_due now due
  | some false ↦ true
  | none ↦ true
]

-- `buildWhere`
unfoldable pub build_where : ListCommentsQuery → ℕ → Comment → Bool
build_where query now c =
    optional query.platform (λ p. platform_index c.platform == platform_index p)
    && optional query.sentiment (λ a. is_value sentiment_index a c.sentiment)
    && optional query.priority (λ a. is_value priority_index a c.priority)
    && replied_where query c.replied_at
    && due_where query now c.sla_due_at

-- `slaDueAt` ascending with the null last, then `collectedAt` descending: the first comes strictly after
-- the second.
abbrev pub due_after : Option ℕ → Option ℕ → Bool
due_after (some a) (some b) = ltb b a
due_after none (some b) = true
due_after a none = false

unfoldable pub comes_after : Comment → Comment → Bool
comes_after c d =
    due_after c.sla_due_at d.sla_due_at
    || (not (due_after d.sla_due_at c.sla_due_at) && ltb c.collected_at d.collected_at)

-- `skip` and `take`
abbrev pub skip : {A : Type 0} → ℕ → List A → List A
skip zero xs = xs
skip (suc n) [] = []
skip (suc n) (x ∷ xs) = skip n xs

abbrev pub take : {A : Type 0} → ℕ → List A → List A
take zero xs = []
take (suc n) [] = []
take (suc n) (x ∷ xs) = x ∷ take n xs

pub record CommentRow : Type 0 where
  pub comment : Comment
  pub sla_breach : Bool

-- `CommentResponseDto.fromEntity`
unfoldable pub from_entity : ℕ → Comment → CommentRow
from_entity now c = record {
  comment = c;
  sla_breach = is_none c.replied_at && is_due now c.sla_due_at;
}

pub record PaginatedComments : Type 0 where
  pub items : List CommentRow
  pub page : ℕ
  pub page_size : ℕ
  pub total : ℕ

abbrev pub page_size_of : ListCommentsQuery → ℕ
page_size_of query =
    let size = or_this query.page_size default_page_size in
    if ltb max_page_size size then max_page_size else size

-- `list`. The database arranges the selected rows by the two columns of `orderBy`; in which order it gives rows that
-- are equal in both is its own, and may differ from one query to the next, so that the arrangement is an argument.
unfoldable pub list_comments :
    (List Comment → List Comment) → ListCommentsQuery → ℕ → List Comment → PaginatedComments
list_comments arrange query now comments =
    let page = or_this query.page 1 in
    let page_size = page_size_of query in
    let selected = keep (build_where query now) comments in
    record {
      items =
          map (from_entity now) (take page_size (skip ((page - 1) * page_size) (arrange selected)));
      page = page;
      page_size = page_size;
      total = length selected;
    }
