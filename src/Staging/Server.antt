-- ===== src/Staging/Server.antt =====
-- `getAuthorizationModel`, `validateModel` and `stageModel`.
--
-- `tenant_for` is `getTenant`, and `Fixtures` holds what the source takes from its fixtures.
use authz_plane.Common.{
  ℕ, ◌+◌, ◌/◌, max, min, String, Option, none, some, List, [], ◌∷◌, ◌++◌, Bool, ◌==◌, eqb,
  if◌then◌else◌, any, length, map, or_else, show, template, utf16_length,
}
use authz_plane.Common.Dict.{Dict, get, set}
use authz_plane.Dsl.Types.{ParseIssue}
use authz_plane.Dsl.References.{parse_model}
use authz_plane.Dsl.Summary.{ModelSummary, summarize}
use authz_plane.Tenants.Types.{TenantDetail}

pub data VersionState : Type 0 where
  live : VersionState
  draft : VersionState
  superseded : VersionState

pub record ModelVersion : Type 0 where
  pub version : ℕ
  pub author : String
  pub created_at : String
  pub summary : String
  pub state : VersionState

pub record ModelState : Type 0 where
  pub live_dsl : String
  pub draft_dsl : String
  pub live_version : ℕ
  pub draft_version : Option ℕ
  pub versions : List ModelVersion
  pub cached_decisions : ℕ

pub record AuthorizationModel : Type 0 where
  pub slug : String
  pub live_version : ℕ
  pub draft_version : Option ℕ
  pub live_dsl : String
  pub draft_dsl : String
  pub versions : List ModelVersion
  pub tuple_count : ℕ
  pub cached_decisions : ℕ

pub record ValidationResult : Type 0 where
  pub ok : Bool
  pub types : ℕ
  pub relations : ℕ
  pub depth : ℕ
  pub issues : List ParseIssue
  pub tuples_validated : ℕ
  pub elapsed_ms : ℕ

pub record StageResult : Type 0 where
  pub generation : ℕ
  pub version : ℕ
  pub staged_at : String

pub record Failure : Type 0 where
  pub status : ℕ
  pub title : String
  pub detail : Option String

pub data Result (A : Type 0) : Type 0 where
  done : A → Result A
  refused : Failure → Result A

pub record Fixtures : Type 0 where
  pub acme : ModelState
  pub generic_dsl : String
  pub generic_versions : ℕ → List ModelVersion

abbrev pub not_found : Failure
not_found = record { status = 404; title = "Tenant not found"; detail = none }

abbrev pub first_state : Fixtures → String → ℕ → ModelState
first_state fixtures slug model_version = if slug == "acme-air" then fixtures.acme else record {
  live_dsl = fixtures.generic_dsl;
  draft_dsl = fixtures.generic_dsl;
  live_version = max 1 model_version;
  draft_version = none;
  versions = fixtures.generic_versions (max 1 model_version);
  cached_decisions = 12;
}

-- The entry of a version, put in the place of the one that is there or at the end.
abbrev pub has_version : ℕ → List ModelVersion → Bool
has_version version versions = any (λ (v : ModelVersion). eqb v.version version) versions

abbrev pub put_version : ModelVersion → List ModelVersion → List ModelVersion
put_version entry versions =
    if has_version entry.version versions
    then map (λ (v : ModelVersion). if eqb v.version entry.version then entry else v) versions
    else (versions ++ (entry ∷ []))

abbrev pub issue_text : ParseIssue → List ParseIssue → String
issue_text first rest = template (
    "line "
    ∷ show first.line
    ∷ ": "
    ∷ first.message
    ∷ (if eqb (length rest) 0 then "" else template (" (+" ∷ show (length rest) ∷ " more)" ∷ []))
    ∷ [])

abbrev pub rejected : List ParseIssue → Option Failure
rejected [] = none
rejected (first ∷ rest) =
    some (record {
      status = 400;
      title = "Model does not parse";
      detail = some (issue_text first rest);
    })

abbrev pub next_version : ModelState → ℕ
next_version s = or_else s.draft_version (s.live_version + 1)

unfoldable pub staged_state : ModelState → String → ℕ → String → ModelState
staged_state s dsl generation staged_at =
    let version = next_version s in
    record s {
      draft_dsl = dsl;
      draft_version = some version;
      versions =
          put_version
            (record {
              version = version;
              author = "raj.kolekar";
              created_at = staged_at;
              summary = template ("staged into generation " ∷ show generation ∷ []);
              state = draft;
            })
            s.versions;
    }

module _ (tenant_for : String → Option TenantDetail) (fixtures : Fixtures) where
  -- The state of a tenant, which is stored when it is first asked for.
  unfoldable pub state_for : String → Dict ModelState → Option ModelState × Dict ModelState
  unfolding get set
  state_for slug store = elim (get slug store) [
    | some s ↦ (some s, store)
    | none ↦ elim (tenant_for slug) [
      | none ↦ (none, store)
      | some tenant ↦
          let s = first_state fixtures slug tenant.model_version in (some s, set slug s store)
    ]
  ]

  unfoldable pub get_authorization_model :
      String → Dict ModelState → Option AuthorizationModel × Dict ModelState
  unfolding state_for
  get_authorization_model slug store =
      let (found, store') = state_for slug store in
      elim found [
        | none ↦ (none, store')
        | some s ↦ elim (tenant_for slug) [
          | none ↦ (none, store')
          | some tenant ↦ (
            some (record {
              slug = slug;
              live_version = s.live_version;
              draft_version = s.draft_version;
              live_dsl = s.live_dsl;
              draft_dsl = s.draft_dsl;
              versions = s.versions;
              tuple_count = tenant.tuple_count;
              cached_decisions = s.cached_decisions;
            }),
            store',
          )
        ]
      ]

  abbrev pub validation_of : TenantDetail → String → ModelSummary → ValidationResult
  validation_of tenant dsl summary =
      let issues = (parse_model dsl).issues in
      let fine = eqb (length issues) 0 in
      record {
        ok = fine;
        types = summary.types;
        relations = summary.relations;
        depth = summary.depth;
        issues = issues;
        tuples_validated = if fine then tenant.tuple_count else 0;
        elapsed_ms = 20 + min 40 (utf16_length dsl / 40);
      }

  -- Without a result the summary ran out of fuel.
  unfoldable pub validate_model : String → String → Option (Result ValidationResult)
  unfolding parse_model summarize utf16_length
  validate_model slug dsl = elim (tenant_for slug) [
    | none ↦ some (refused not_found)
    | some tenant ↦ elim (summarize (parse_model dsl)) [
      | none ↦ none
      | some summary ↦ some (done (validation_of tenant dsl summary))
    ]
  ]

  unfoldable pub stage_model :
      String → String → String → Dict ModelState → Result StageResult × Dict ModelState
  unfolding state_for parse_model set staged_state
  stage_model slug dsl now store =
      let (found, store') = state_for slug store in
      elim found [
        | none ↦ (refused not_found, store')
        | some s ↦ elim (tenant_for slug) [
          | none ↦ (refused not_found, store')
          | some tenant ↦ elim (rejected (parse_model dsl).issues) [
            | some failure ↦ (refused failure, store')
            | none ↦
                let generation = tenant.summary.generation + 1 in
                (
                  done (record {
                    generation = generation;
                    version = next_version s;
                    staged_at = now;
                  }),
                  set slug (staged_state s dsl generation now) store',
                )
          ]
        ]
      ]
