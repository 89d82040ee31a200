-- ===== src/Content.antt =====
-- backend/src/modules/content: the content records and the gates that a record passes.
pub mod Records
pub mod Gate
pub mod MediaUrl
pub mod Service
pub mod Mp4
pub mod Upload
pub mod Assets
mod Tests
