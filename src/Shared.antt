-- ===== src/Shared.antt =====
-- crates/shared: the types and the pure logic that the backend and the desktop share.
pub mod SyncQueue
pub mod Audit
pub mod Plan
pub mod FeatureKey
pub mod Entitlements
pub mod License
pub mod ProductFeatureKey
pub mod ProductModule
pub mod ProductEntitlements
