-- ===== src/Shared/Audit.antt =====
-- crates/shared/src/audit.rs: the audit event. Its payload is a JSON value, whose type is a parameter.
use development_kit.Prelude.{Str, Option, Bool, true, false}

pub data ActorKind : Type 0 where
  user system : ActorKind

pub data Sensitivity : Type 0 where
  standard sensitive : Sensitivity

pub record AuditEvent (Json : Type 0) : Type 0 where
  pub event_id : Str
  pub occurred_at : Str
  pub account_id : Str
  pub user_id : Option Str
  pub actor_kind : ActorKind
  pub action : Str
  pub sensitivity : Sensitivity
  pub payload : Json

abbrev pub sensitivity_eq : Sensitivity → Sensitivity → Bool
sensitivity_eq standard standard = true
sensitivity_eq sensitive sensitive = true
sensitivity_eq _ _ = false

unfoldable pub is_sensitive : {Json : Type 0} → AuditEvent Json → Bool
is_sensitive event = sensitivity_eq event.sensitivity sensitive
