-- ===== src/Tests/App.antt =====
-- The audit trail on two events.
use development_kit.Prelude.{Str, codes, some, none, ◌≡◌, refl, [], ◌∷◌}
use development_kit.Shared.Audit.{AuditEvent, user, system, standard, sensitive}
use development_kit.Api.Audit.{in_memory, memory_save, record_event, query_sensitive}

abbrev refreshed : AuditEvent Str
refreshed = record {
  event_id = codes "evt_001";
  occurred_at = codes "2026-06-05T12:00:00Z";
  account_id = codes "acct_123";
  user_id = some (codes "user_456");
  actor_kind = user;
  action = codes "license.refreshed";
  sensitivity = standard;
  payload = codes "{}";
}

abbrev subscribed : AuditEvent Str
subscribed = record {
  event_id = codes "evt_002";
  occurred_at = codes "2026-06-05T12:01:00Z";
  account_id = codes "acct_123";
  user_id = none;
  actor_kind = system;
  action = codes "billing.subscription_created";
  sensitivity = sensitive;
  payload = codes "null";
}

recorded :
    (record_event Str
      (in_memory Str)
      (record_event Str (in_memory Str) [] refreshed).0
      subscribed).0
    ≡ refreshed ∷ subscribed ∷ []
unfolding record_event memory_save
recorded = refl

sensitive_event :
    query_sensitive Str (in_memory Str) (refreshed ∷ subscribed ∷ []) ≡ subscribed ∷ []
unfolding query_sensitive
sensitive_event = refl
