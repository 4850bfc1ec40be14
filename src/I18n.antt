-- ===== src/I18n.antt =====
-- packages/i18n/src: the conversions between amounts and decimal texts.
pub mod Currency
pub mod Digits
pub mod RoundTrip
pub mod Tests
