-- ===== src/Audit/Model.antt =====
-- The shapes of an audit event, of a page of the log and of an export.
use authz_plane.Common.{ℕ, String, Option, List}
use authz_plane.Common.Dict.{Dict}

pub data AuditAction : Type 0 where
  spec_updated : AuditAction
  reconcile_succeeded : AuditAction
  reconcile_degraded : AuditAction
  reconcile_failed : AuditAction
  drift_detected : AuditAction
  drift_healed : AuditAction
  drift_acknowledged : AuditAction
  relations_written : AuditAction
  tuple_written : AuditAction
  idp_secret_rotated : AuditAction
  check_explained : AuditAction
  tenant_created : AuditAction

abbrev pub action_number : AuditAction → ℕ
action_number spec_updated = 0
action_number reconcile_succeeded = 1
action_number reconcile_degraded = 2
action_number reconcile_failed = 3
action_number drift_detected = 4
action_number drift_healed = 5
action_number drift_acknowledged = 6
action_number relations_written = 7
action_number tuple_written = 8
action_number idp_secret_rotated = 9
action_number check_explained = 10
action_number tenant_created = 11

pub data ActorKind : Type 0 where
  human : ActorKind
  system : ActorKind
  m2m : ActorKind

pub record Actor : Type 0 where
  pub id : String
  pub kind : ActorKind
  pub label : String

pub data DiffLineKind : Type 0 where
  removed : DiffLineKind
  added : DiffLineKind
  changed : DiffLineKind
  context : DiffLineKind

pub record DiffLine : Type 0 where
  pub kind : DiffLineKind
  pub text : String

pub record AuditEvent : Type 0 where
  pub id : String
  pub tenant : String
  pub occurred_at : String
  pub actor : Actor
  pub action : AuditAction
  pub resource : String
  pub title : String
  pub request_id : String
  pub trace_id : Option String
  pub ip : Option String
  pub idempotency_key : Option String
  pub spec_hash : Option String
  pub diff : List DiffLine
  pub related_run_id : Option String

pub record AuditFilter : Type 0 where
  pub tenant : Option String
  pub actor : Option String
  pub action : Option AuditAction

pub record AuditPage : Type 0 where
  pub generated_at : String
  pub items : List AuditEvent
  pub next_cursor : Option String
  pub total : ℕ
  pub actors : List Actor

-- The status is always "queued" and the format "ndjson.gz".
pub record ExportResponse : Type 0 where
  pub export_id : String
  pub status : String
  pub format : String

abbrev pub Exports : Type 0
Exports = Dict ExportResponse
