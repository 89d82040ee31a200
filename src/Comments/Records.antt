-- ===== src/Comments/Records.antt =====
-- The rows of the tables of comments and of alerts (models Comment and EscalationAlert of
-- backend/prisma/schema.prisma). Times are milliseconds.
use content_hub.Base.{ℕ, Bool, Option, String}
use content_hub.Schema.{Platform}

pub data Sentiment : Type 0 where
  positive neutral negative : Sentiment

pub data CommentPriority : Type 0 where
  spam question complaint general : CommentPriority

pub record Comment : Type 0 where
  pub id : ℕ
  pub post_id : ℕ
  pub platform : Platform
  pub author : String
  pub text : String
  pub sentiment : Option Sentiment
  pub collected_at : ℕ
  pub external_comment_id : Option String
  pub priority : Option CommentPriority
  pub sla_due_at : Option ℕ
  pub replyable : Bool
  pub replied_at : Option ℕ
  pub replied_by : Option ℕ
  pub reply_text : Option String
  pub reply_external_id : Option String

pub record EscalationAlert : Type 0 where
  pub id : ℕ
  pub window_start : ℕ
  pub window_end : ℕ
  pub negative_count : ℕ
  pub threshold : ℕ
  pub acknowledged_at : Option ℕ
