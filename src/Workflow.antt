-- ===== src/Workflow.antt =====
-- packages/workflow/src: conditions over answers, the state of a flow and its effects on pricing.
pub mod Conditions
pub mod Steps
pub mod Engine
pub mod Validate
pub mod Effects
pub mod Agreement
pub mod Completion
pub mod Addons
pub mod Strict
pub mod Publication
pub mod Published
pub mod Tests
