-- ===== src/Availability.antt =====
-- packages/core/src/availability.ts: the availability engine.
pub mod Dates
pub mod Windows
pub mod Slots
pub mod Tests
