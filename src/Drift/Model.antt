-- ===== src/Drift/Model.antt =====
-- The findings and the store. A date is the text of its ISO form.
use authz_plane.Common.{ℕ, String, Option, List, Bool}
use authz_plane.Common.Dict.{Dict}
use authz_plane.Common.Int.{ℤ}

pub data Severity : Type 0 where
  high medium low : Severity

pub data DriftStatus : Type 0 where
  opened acknowledged : DriftStatus

pub record Resource : Type 0 where
  pub kind : String
  pub path : String
  pub ref : String

pub record Evidence : Type 0 where
  pub actual_state_hash : String
  pub last_known_hash : String
  pub sibling_findings : ℕ
  pub conclusion : String

pub record HealPlan : Type 0 where
  pub resource : String
  pub description : String
  pub change_key : String

pub record DriftFinding : Type 0 where
  pub id : String
  pub tenant : String
  pub auto_heal : Bool
  pub resource : Resource
  pub desired : Option String
  pub actual : Option String
  pub severity : Severity
  pub status : DriftStatus
  pub detected_at : String
  pub detected_by_run : String
  pub title : String
  pub impact : String
  pub evidence : Evidence
  pub heal_plan : HealPlan
  pub reconcile_run_id : Option String

pub record Store : Type 0 where
  pub findings : Dict DriftFinding
  pub healed_today : ℕ
  pub last_resync_at : String

pub record DriftListFilter : Type 0 where
  pub tenant : Option String
  pub severity : Option Severity

pub record DriftStats : Type 0 where
  pub open_count : ℕ
  pub tenants_affected : ℕ
  pub oldest_unresolved_seconds : Option ℤ
  pub healed_today : ℕ

pub record DriftList : Type 0 where
  pub generated_at : String
  pub items : List DriftFinding
  pub stats : DriftStats
  pub last_resync_at : String
  pub resync_interval_seconds : ℕ
  pub tenants : List String

pub record HealRun : Type 0 where
  pub tenant : String
  pub run_id : String

pub record ResyncResponse : Type 0 where
  pub status : String
  pub scheduled_at : String
