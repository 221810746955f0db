-- ===== src/Staging/Tests.antt =====
-- A tenant whose draft is staged.
use authz_plane.Common.{
  String, Option, none, some, [], true, false, ◌==◌, ◌≡◌, refl, if◌then◌else◌, Memᴰ,
}
use authz_plane.Common.Dict.{Dict, set}
use authz_plane.Dsl.Types.{TypeDef, RelationDef}
use authz_plane.Dsl.References.{parse_model}
use authz_plane.Dsl.Closed.{IsClosed}
use authz_plane.Tenants.Types.{ready, TenantDetail}
use authz_plane.Staging.Server.{
  ModelState, StageResult, done, Fixtures, state_for, validate_model, stage_model, staged_state,
  first_state,
}
use authz_plane.Staging.Laws.{IsStaged, stage_model-IsStaged}

abbrev globex : TenantDetail
globex = record {
  summary = record {
    id = "9f2c1a";
    slug = "globex";
    display_name = "Globex";
    phase = ready;
    generation = 4;
    observed_generation = 4;
    open_drift = 0;
    last_reconciled_at = none;
    idp = none;
    auto_heal = false;
    resync_interval_seconds = 600;
    created_at = "2025-01-01T00:00:00Z";
    org_id = some "3108";
    spec_hash = "00000000";
  };
  last_error = none;
  observed_lag_seconds = 0;
  tuple_count = 17;
  model_version = 2;
  desired = record {
    identity_providers = [];
    model_summary = "";
    roles = [];
    user_count = 0;
    policy = "";
  };
}

abbrev tenants : String → Option TenantDetail
tenants slug = if slug == "globex" then some globex else none

abbrev generic : Fixtures
generic = record {
  acme = record {
    live_dsl = "";
    draft_dsl = "";
    live_version = 6;
    draft_version = some 7;
    versions = [];
    cached_decisions = 0;
  };
  generic_dsl = "model\nschema 1.1\ntype user";
  generic_versions = λ n. [];
}

abbrev draft_text : String
draft_text = "model\nschema 1.1\ntype user\ntype doc\ndefine viewer: [user]"

abbrev staged_store : Dict ModelState
staged_store =
    set "globex" (staged_state (first_state generic "globex" 2) draft_text 5 "now")
      (set "globex" (first_state generic "globex" 2) [])

abbrev staged : StageResult
staged = record { generation = 5; version = 3; staged_at = "now" }

stages : stage_model tenants generic "globex" draft_text "now" [] ≡ (done staged, staged_store)
unfolding stage_model
stages = refl

validated :
    validate_model tenants generic "globex" draft_text
    ≡ some (
        done (record {
          ok = true;
          types = 2;
          relations = 1;
          depth = 0;
          issues = [];
          tuples_validated = 17;
          elapsed_ms = 21;
        }))
unfolding validate_model
validated = refl

stage_model-IsStaged_example :
    ((parse_model draft_text).issues ≡ [])
    × ((type : TypeDef)
        → Memᴰ type (parse_model draft_text).types
        → (rel : RelationDef) → Memᴰ rel type.relations
        → IsClosed (parse_model draft_text).types type rel)
    × ((before : ModelState)
        → (state_for tenants generic "globex" []).0 ≡ some before
        → IsStaged tenants generic "globex" draft_text 3 before staged_store)
    × ((other later : String) (store'' : Dict ModelState) (r' : StageResult)
        → stage_model tenants generic "globex" other later staged_store ≡ (done r', store'')
        → r'.version ≡ 3)
stage_model-IsStaged_example =
    stage_model-IsStaged tenants generic "globex" draft_text "now" [] staged_store staged stages
