-- ===== src/Tests.antt =====
-- Concrete instances of the interfaces, and the theorems at concrete inputs.
mod MemoryStore
mod Codecs
mod License
mod Webhook
mod SyncQueue
mod Entitlements
mod Signature
mod LeakScan
mod SeamScan
mod Gate
mod Gates
mod PgMigration
mod Products
mod App
mod Routes
mod LocalStore
