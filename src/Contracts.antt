-- ===== src/Contracts.antt =====
-- packages/contracts/src: the shared contracts, as records and enums.
pub mod Money
pub mod Service
pub mod Availability
pub mod Booking
