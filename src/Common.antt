-- ===== src/Common.antt =====
-- Small rules that the services for shops and for paid campaigns share.
pub mod DateRange
pub mod RefShape
pub mod Currency
