-- ===== src/Api/Webhook.antt =====
-- services/api/src/webhook.rs: ingestion of Stripe events. `Event` parses and derives, `Ingest` is
-- the handler, `Signature` the verifier; the proofs stand below them.
pub mod Event
pub mod Ingest
pub mod Signature
