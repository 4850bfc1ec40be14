-- ===== src/Billing.antt =====
-- packages/billing/src: the plans of the platform, the subscriptions to them, and what they entitle to.
pub mod Plans
pub mod Subscription
pub mod Entitlement
pub mod Provider
pub mod Steady
pub mod Closed
pub mod Tests
