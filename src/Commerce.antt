-- ===== src/Commerce.antt =====
-- backend/src/modules/commerce: the rules of the shop channels.
pub mod Duration
pub mod Market
pub mod Placement
pub mod Anchor
pub mod Conversion
pub mod Catalog
pub mod Lawful
pub mod Requests
pub mod Read
pub mod Samples
