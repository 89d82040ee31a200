-- ===== src/Comments.antt =====
-- backend/src/modules/comments: the comments on the posts and the alerts that they raise.
pub mod Records
pub mod Escalation
pub mod Reply
pub mod Templates
pub mod Sentiment
pub mod Triage
pub mod Ingestion
pub mod Inbox
pub mod Retention
