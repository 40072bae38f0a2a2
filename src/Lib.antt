-- ===== src/Lib.antt =====
-- A verification library for the development kit: the offline change queue, the entitlement
-- engine, the Stripe webhook, the server-side gates, the signed offline license, and the gate
-- runner that checks the repository itself.
--
-- The parts and how they interact. The backend (services/api) keeps one billing state for each
-- account. A Stripe event reaches `ingest` (services/api/src/webhook.rs), which verifies, parses
-- and deduplicates it and writes the state of an account. The entitlement engine
-- (services/api/src/entitlement.rs) turns that state into features at a given time. The gates
-- (feature_gate.rs, me_entitlements.rs) authenticate a caller (auth.rs) and answer from those
-- features; `POST /license/refresh` (license.rs) signs them into a token (crates/license-sign),
-- which the desktop (apps/desktop/src-tauri/src/license_store.rs) verifies offline
-- (crates/license-verify). The environment decides which webhook verifier and which signer the
-- server mounts (services/api/src/main.rs). The desktop queues its changes while it is offline,
-- with retries, deduplication and conflict resolution (crates/shared/src/sync_queue.rs). Products
-- add keys, routes and migrations of their own (product_module.rs); each has a gate on the server
-- and a guard on the desktop. The gate runner (xtask) selects checks by scope and runs them: it
-- scans the desktop for secrets, derives the product keys from the sources and requires a gate
-- test for each, and bans dependencies that would give the desktop an authority that only the
-- backend has.
--
-- Which file models which part:
--   Prelude              Boolean tests, lists, `Result`, texts as bytes, machine words, and `Ord`
--   TreeMap              `std::collections::BTreeMap`, as an association list in ascending key order
--   Text                 the methods of `str` that the program calls, and decimal numbers; `Search` has
--                        those that look for a substring
--   Shared/SyncQueue     crates/shared/src/sync_queue.rs: `Operation` (SyncOperation, OpStatus),
--                        `Retry` (RetryPolicy), `Conflict` (ConflictPolicy), `Queue` (SyncQueue),
--                        `Store` (persist_to, load)
--   Shared/Plan, FeatureKey, Entitlements, License
--                        plan.rs, feature_key.rs, entitlements.rs, license.rs and dto.rs of crates/shared
--   Shared/Audit, ProductFeatureKey, ProductEntitlements, ProductModule
--                        audit.rs and the files of the same names in crates/shared/src
--   Api/Entitlement      services/api/src/entitlement.rs: resolve_entitlements and the tier table
--   Api/Accounts         the account-state stores of services/api/src/entitlement.rs
--   Api/Principal        services/api/src/principal.rs and auth.rs
--   Api/Webhook          services/api/src/webhook.rs: `Event` parses, `Ingest` is the handler,
--                        `Signature` is StripeWebhookVerifier
--   Api/Gates            services/api/src/feature_gate.rs and me_entitlements.rs
--   Api/Billing          services/api/src/billing.rs and me.rs
--   Api/PgMigration      services/api/src/pg_migration.rs
--   Api/Products         apply_module of services/api/src/product_module.rs, require_product_feature,
--                        and services/api/src/products/notes
--   Api/License          services/api/src/license.rs: issue_license and refresh
--   Api/Audit            services/api/src/audit.rs
--   Api/App              services/api/src/main.rs, store.rs and lib.rs: `Routes` has the routes that share
--                        one account store
--   Crypto               the interfaces of ed25519-dalek, base64 and serde_json for license tokens
--   Licenses             crates/license-sign and crates/license-verify; `Offline` and `Refresh` follow a
--                        license from the backend to the desktop
--   Desktop              license_store.rs, feature_gate.rs and products/notes/mod.rs of
--                        apps/desktop/src-tauri/src
--   LocalStore           migration.rs, product_module.rs, error.rs and LocalDb (db.rs) of
--                        crates/local-store/src
--   Xtask/Files          the tree of files that the scans read
--   Xtask/LeakScan       xtask/src/leakscan.rs: `Matchers` finds values in a text, `Sensitive` says what
--                        they are
--   Xtask/SeamScan       xtask/src/seam_scan.rs: `Source` reads one text
--   Xtask/Coverage       xtask/src/coverage.rs: `Manifest` has its three tables
--   Xtask/Edges, Bans    xtask/src/edges.rs and bans.rs, and run_bans_check of xtask/src/lib.rs
--   Xtask/Registry       xtask/src/registry.rs
--   Xtask/Gate           xtask/src/main.rs and lib.rs: the steps, and `Cli` the registry and `main`
--   Tests                instances of the interfaces, and the theorems at concrete inputs
--
-- How state and operations correspond. A method that writes through `&mut self` or a shared handle
-- returns the new state beside its result. A lock makes each call atomic, so an interleaving is a
-- list of calls (`Queue.run`, `Ingest.run`). The clock is an argument, and a delivery of a webhook
-- carries the time of its handler. Texts are their bytes, and `u64` and `u32` values are natural
-- numbers with the saturation, the shift and the wrap-around of the source written out
-- (Prelude/Words). A check of the gate runner takes the state of the machine and returns the next;
-- a directory is a tree in the order in which it is listed. Trimming is over ASCII white space.
--
-- Bounds and fuel. Decimal printing has the fuel 20, the digits of the largest `u64`. Nothing else
-- needs fuel: the loops recur over lists, texts and trees. `attempts += 1` wraps at 2 ^ 32, as an
-- optimised build does.
--
-- What is a parameter. The store behind the queue, the account store, the audit store, the JSON
-- and TOML parsers, the crates for signatures, base64 and HMAC, the executor of migrations, the
-- SQLite connection, the billing provider, the map from tokens to principals, and the machine of
-- the gate runner (its files, processes and `cargo metadata`) are arguments, records of the
-- operations that the code calls with the laws that they document. Tests has an instance of each.
--
-- What is not modelled: the Axum routing and request extraction, the Tauri commands, the SQLite
-- and Postgres drivers, the tables of drafts and notes in the local store, and what the gate
-- runner prints. They are input and output around the parts above.
pub mod Prelude
pub mod TreeMap
pub mod Text
pub mod Shared
pub mod Api
pub mod Crypto
pub mod Licenses
pub mod Desktop
pub mod LocalStore
pub mod Xtask
pub mod Tests
