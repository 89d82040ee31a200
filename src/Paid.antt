-- ===== src/Paid.antt =====
-- backend/src/modules/paid: campaigns that an admin runs elsewhere, and what they have cost and brought.
pub mod Desk
pub mod Campaign
pub mod Performance
pub mod Read
pub mod Lawful
pub mod Requests
