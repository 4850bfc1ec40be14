-- ===== src/Booking.antt =====
-- packages/core/src/booking.ts: the in-memory booking engine.
pub mod References
pub mod Engine
pub mod Create
pub mod Confirm
pub mod Steps
pub mod Stable
pub mod Payments
pub mod Asking
pub mod Confirmed
pub mod Lifecycle
pub mod Cases
pub mod Reserve
pub mod Holds
pub mod Reservation
pub mod Keys
pub mod Started
pub mod Requests
pub mod Tests
