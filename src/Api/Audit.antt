-- ===== src/Api/Audit.antt =====
-- services/api/src/audit.rs: the audit service over a store, and the store in memory.
use development_kit.Prelude.{Str, List, [], ◌∷◌, ◌++◌, select, Result, ok, str_eq}
use development_kit.Shared.Audit.{AuditEvent, sensitive, sensitivity_eq}

pub data AuditError : Type 0 where
  storage_failure : Str → AuditError

module _ (Json : Type 0) where
  -- The trait.
  pub record AuditStore : Type 1 where
    pub Store : Type 0
    pub save : Store → AuditEvent Json → Store × Result AuditError (Unit {0})
    pub list : Store → List (AuditEvent Json)

  -- The methods of `AuditService`, which holds nothing but its store.
  module _ (audit : AuditStore) where
    unfoldable pub record_event :
        audit.Store → AuditEvent Json → audit.Store × Result AuditError (Unit {0})
    record_event s event = audit.save s event

    unfoldable pub query_all : audit.Store → List (AuditEvent Json)
    query_all s = audit.list s

    unfoldable pub query_by_action : audit.Store → Str → List (AuditEvent Json)
    query_by_action s action =
        select (λ (e : AuditEvent Json). str_eq e.action action) (audit.list s)

    unfoldable pub query_sensitive : audit.Store → List (AuditEvent Json)
    query_sensitive s =
        select (λ (e : AuditEvent Json). sensitivity_eq e.sensitivity sensitive) (audit.list s)

  -- `InMemoryAuditStore`: its lock is taken for the whole of each call.
  unfoldable pub memory_save :
      List (AuditEvent Json)
      → AuditEvent Json
      → List (AuditEvent Json) × Result AuditError (Unit {0})
  memory_save events event = (events ++ event ∷ [], ok tt)

  abbrev pub in_memory : AuditStore
  in_memory = record { Store = List (AuditEvent Json); save = memory_save; list = λ events. events }
