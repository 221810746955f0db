-- ===== src/Reconcile/Model.antt =====
-- Runs, their changes and the store. A date is the text of its ISO form.
use authz_plane.Common.{ℕ, String, Option, List}
use authz_plane.Common.Dict.{Dict}

pub data Trigger : Type 0 where
  outbox resync manual backoff delete : Trigger

pub data Outcome : Type 0 where
  partial_applied drift applying no_changes failed applied deleting : Outcome

pub data ChangeOutcome : Type 0 where
  applied failed retrying applying pending skipped : ChangeOutcome

pub data PhaseTone : Type 0 where
  ready link degraded failed drift neutral : PhaseTone

pub data LogLevel : Type 0 where
  info ready link degraded failed : LogLevel

pub record RunAttempt : Type 0 where
  pub n : ℕ
  pub max : ℕ

pub record RunPhase : Type 0 where
  pub name : String
  pub duration_ms : ℕ
  pub tone : PhaseTone
  pub weight : ℕ

pub record ChangeError : Type 0 where
  pub type : String
  pub title : String
  pub change_key : String
  pub attempt : ℕ
  pub max_attempts : ℕ
  pub next_retry_seconds : Option ℕ
  pub detail : String

pub record RunChange : Type 0 where
  pub index : ℕ
  pub kind : String
  pub description : String
  pub note : Option String
  pub duration_ms : Option ℕ
  pub outcome : ChangeOutcome
  pub error : Option ChangeError

pub record RunFacts : Type 0 where
  pub advisory_lock_held_ms : Option ℕ
  pub outbox_message_id : Option String
  pub worker : String
  pub snapshot_key : Option String
  pub spec_hash : String
  pub actual_hash : String

pub record LogLine : Type 0 where
  pub ts : String
  pub level : LogLevel
  pub text : String

-- A value of the snapshot body: a text, or anything else by its JSON text.
pub data Json : Type 0 where
  text other : String → Json

pub record RunDetail : Type 0 where
  pub id : String
  pub tenant_slug : String
  pub trigger : Trigger
  pub generation : ℕ
  pub outcome : Outcome
  pub started_at : String
  pub finished_at : Option String
  pub duration_ms : ℕ
  pub trace_id : String
  pub change_outcomes : List ChangeOutcome
  pub drift_count : ℕ
  pub attempt : Option RunAttempt
  pub retry_of : Option String
  pub phases : List RunPhase
  pub changes : List RunChange
  pub facts : RunFacts
  pub log : List LogLine
  pub trace_url : String
  pub snapshot : Dict Json

pub record StepLog : Type 0 where
  pub offset_ms : ℕ
  pub level : LogLevel
  pub text : String

pub record Finish : Type 0 where
  pub outcome : Outcome
  pub phases : List RunPhase

-- `changes` is the record from a change's index to its new outcome, as pairs.
pub record LiveStep : Type 0 where
  pub log : StepLog
  pub changes : List (ℕ × ChangeOutcome)
  pub duration_ms : ℕ
  pub finish : Option Finish

pub record Store : Type 0 where
  pub runs : Dict RunDetail
  pub live_step : Dict ℕ
  pub scripts : Dict (List LiveStep)
  pub retries_by_key : Dict String
