-- ===== src/Api.antt =====
-- services/api: the backend.
pub mod Entitlement
pub mod Audit
pub mod Http
pub mod Principal
pub mod Accounts
pub mod Webhook
pub mod License
pub mod Gates
pub mod Billing
pub mod PgMigration
pub mod Products
pub mod App
