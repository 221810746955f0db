-- ===== src/Tenants/Types.antt =====
-- The shapes of a tenant, of the list of tenants and of a request to create one.
use authz_plane.Common.{ℕ, String, Option, List, Bool}
use authz_plane.Common.Dict.{Dict}

pub data Phase : Type 0 where
  pending : Phase
  planning : Phase
  applying : Phase
  ready : Phase
  degraded : Phase
  failed : Phase
  deleting : Phase

pub record TenantSummary : Type 0 where
  pub id : String
  pub slug : String
  pub display_name : String
  pub phase : Phase
  pub generation : ℕ
  pub observed_generation : ℕ
  pub open_drift : ℕ
  pub last_reconciled_at : Option String
  pub idp : Option String
  pub auto_heal : Bool
  pub resync_interval_seconds : ℕ
  pub created_at : String
  pub org_id : Option String
  pub spec_hash : String

pub record TenantError : Type 0 where
  pub message : String
  pub attempt : ℕ
  pub max_attempts : ℕ
  pub next_attempt_at : Option String
  pub run_id : String

pub record Desired : Type 0 where
  pub identity_providers : List String
  pub model_summary : String
  pub roles : List String
  pub user_count : ℕ
  pub policy : String

pub record TenantDetail : Type 0 where
  pub summary : TenantSummary
  pub last_error : Option TenantError
  pub observed_lag_seconds : ℕ
  pub tuple_count : ℕ
  pub model_version : ℕ
  pub desired : Desired

pub record TenantListFilter : Type 0 where
  pub phase : Option Phase
  pub has_drift : Bool
  pub q : Option String
  pub cursor : Option String
  pub limit : ℕ

pub record Counts : Type 0 where
  pub all : ℕ
  pub by_phase : Phase → ℕ
  pub with_drift : ℕ

pub record TenantPage : Type 0 where
  pub items : List TenantSummary
  pub next_cursor : Option String
  pub total : ℕ
  pub counts : Counts

pub data StartFrom : Type 0 where
  blank : StartFrom
  copy : StartFrom
  yaml : StartFrom

pub data StarterModel : Type 0 where
  roles_only : StarterModel
  documents : StarterModel

pub record CreateTenantInput : Type 0 where
  pub display_name : String
  pub slug : String
  pub start_from : StartFrom
  pub copy_from_slug : Option String
  pub yaml_text : Option String
  pub starter_model : StarterModel
  pub auto_heal : Bool
  pub resync_interval_seconds : ℕ

pub record SlugCheck : Type 0 where
  pub available : Bool
  pub reason : Option String

pub record CreatedTenant : Type 0 where
  pub summary : TenantSummary
  pub input : CreateTenantInput

abbrev pub Created : Type 0
Created = Dict CreatedTenant
