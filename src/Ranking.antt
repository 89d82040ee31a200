-- ===== src/Ranking.antt =====
-- backend/src/modules/ranking: the scores of a content for each platform, and the platform they
-- recommend.
pub mod Recommendation
mod Tests
