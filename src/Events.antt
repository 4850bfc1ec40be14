-- ===== src/Events.antt =====
-- packages/events/src: webhooks that a tenant subscribes to, and their delivery.
pub mod Webhooks
pub mod Signature
pub mod Dispatch
pub mod History
pub mod Settled
pub mod Isolation
pub mod Verify
pub mod Replay
pub mod Tests
