-- ===== src/Spec/Save.antt =====
-- `saveSpec` and `restoreVersion`. The state is that of one tenant, after `stateFor`.
--
-- `validate` stands for `validateSpecBody`, and `enqueue` for `enqueueReconcile`, on a world that
-- holds the reconciler's store.
use authz_plane.Common.{
  ℕ, ◌+◌, String, Option, none, some, List, [], ◌∷◌, ◌++◌, Bool, true, false, eqb, if◌then◌else◌,
  find, map, template, show,
}
use authz_plane.Common.Dict.{get, set}
use authz_plane.Diff.Pairs.{diff_lines}
use authz_plane.Diff.Views.{DiffSummary, summarize}
use authz_plane.Spec.Model.{
  current, SpecVersion, SaveSpecResponse, TenantSpecState, error, ValidationIssue,
  ValidationOutcome, version_status, fnv1a,
}

pub record Failure : Type 0 where
  pub status : ℕ
  pub title : String
  pub detail : String

pub data SaveResult : Type 0 where
  saved : SaveSpecResponse → SaveResult
  refused : Failure → SaveResult
  thrown : SaveResult

abbrev pub version_at : ℕ → List SpecVersion → Option SpecVersion
version_at g versions = find (λ (v : SpecVersion). eqb v.generation g) versions

abbrev pub first_version : List SpecVersion → Option SpecVersion
first_version [] = none
first_version (v ∷ vs) = some v

-- None on a tenant without a version.
abbrev pub current_version : TenantSpecState → Option SpecVersion
current_version state = elim (version_at state.current_generation state.versions) [
  | some v ↦ some v
  | none ↦ first_version state.versions
]

abbrev pub body_of : Option SpecVersion → Option String
body_of none = none
body_of (some v) = some v.body

abbrev pub applied_body : TenantSpecState → Option String
applied_body state = body_of (version_at state.observed_generation state.versions)

abbrev plural_line : ℕ → String
plural_line n = if eqb n 1 then " line" else " lines"

abbrev part : ℕ → String → List String
part n text = if eqb n 0 then [] else text ∷ []

-- `parts.join(", ")`
abbrev join : List String → String
join [] = ""
join (s ∷ []) = s
join (s ∷ t ∷ ss) = template (s ∷ ", " ∷ join (t ∷ ss) ∷ [])

abbrev change_text : DiffSummary → String
change_text s =
    if eqb s.hunks 0
    then "no field changes"
    else join (
        part s.added (template ("+" ∷ show s.added ∷ plural_line s.added ∷ []))
        ++ (part s.removed (template ("−" ∷ show s.removed ∷ plural_line s.removed ∷ []))
            ++ part s.changed (template (show s.changed ∷ " changed" ∷ []))))

-- The loop of `diff_lines` always ends with a result.
unfoldable pub describe_change : String → String → String
unfolding diff_lines summarize show
describe_change before after = elim (diff_lines before after) [
  | none ↦ ""
  | some ops ↦ change_text (summarize ops)
]

-- None where the source reads the body of a version that is not there, and throws.
unfoldable pub summary_of : Option String → Option SpecVersion → String → Option String
unfolding describe_change
summary_of (some words) prev body = some words
summary_of none none body = none
summary_of none (some prev) body = some (describe_change prev.body body)

abbrev pub restatus : ℕ → ℕ → SpecVersion → SpecVersion
restatus generation observed v = record v {
  status = version_status v.generation generation observed;
}

abbrev pub new_version : ℕ → String → String → String → String → SpecVersion
new_version generation author now summary body = record {
  generation = generation;
  author = author;
  created_at = now;
  hash = fnv1a body;
  summary = summary;
  status = current;
  body = body;
}

abbrev pub no_precondition : Failure
no_precondition = record {
  status = 428;
  title = "If-Match required";
  detail =
      "Send If-Match with the generation you edited so a stale write cannot overwrite a newer one.";
}

abbrev pub stale : ℕ → ℕ → Failure
stale edited now = record {
  status = 412;
  title = "Spec changed underneath you";
  detail = template (
      "You edited generation "
      ∷ show edited
      ∷ " but generation "
      ∷ show now
      ∷ " is now current · reload and re-diff before saving."
      ∷ []);
}

abbrev is_error : ValidationIssue → Bool
is_error issue = elim issue.level [ error ↦ true | _ ↦ false ]

abbrev pub invalid : ValidationOutcome → Failure
invalid outcome = record {
  status = 400;
  title = "Spec does not validate";
  detail = elim (find is_error outcome.results) [
    | some first ↦ template (first.title ∷ " · " ∷ first.detail ∷ [])
    | none ↦ template (show outcome.errors ∷ " errors" ∷ [])
  ];
}

abbrev pub appended : SpecVersion → String → SaveSpecResponse → TenantSpecState → TenantSpecState
appended version key answer state = record state {
  versions = version ∷ map (restatus version.generation state.observed_generation) state.versions;
  current_generation = version.generation;
  by_key = set key answer state.by_key;
}

abbrev pub restore_status : ℕ → ℕ
restore_status status = if eqb status 404 then 404 else 400

-- `restoreVersion` answers any failure of the save but 404 with 400.
abbrev pub restore_result : SaveResult → SaveResult
restore_result (saved answer) = saved answer
restore_result (refused f) = refused (record f { status = restore_status f.status })
restore_result thrown = thrown

module _ {World : Type 0} (validate : String → Option String → ValidationOutcome)
    (enqueue : String → String → String → World → String × World) (slug : String) where
  -- The accepted save: a new version, a reconcile, and the answer under its key.
  unfoldable pub append_version :
      String
      → String
      → String
      → String
      → Option String
      → TenantSpecState
      → World
      → SaveResult × TenantSpecState × World
  unfolding summary_of
  append_version body key author now override state world =
      let generation = state.current_generation + 1 in
      elim (summary_of override (current_version state) body) [
        | none ↦ (thrown, state, world)
        | some summary ↦
            let (run_id, world') = enqueue slug (template (key ∷ ":reconcile" ∷ [])) now world in
            let answer : SaveSpecResponse = record { generation = generation; run_id = run_id } in
            (
              saved answer,
              appended (new_version generation author now summary body) key answer state,
              world',
            )
      ]

  unfoldable pub save_spec :
      String
      → Option ℕ
      → String
      → String
      → String
      → Option String
      → TenantSpecState
      → World
      → SaveResult × TenantSpecState × World
  unfolding append_version get show
  save_spec body if_match key author now override state world = elim (get key state.by_key) [
    | some replay ↦ (saved replay, state, world)
    | none ↦ elim if_match [
      | none ↦ (refused no_precondition, state, world)
      | some edited ↦
          if eqb edited state.current_generation
          then if (validate body (applied_body state)).valid
            then append_version body key author now override state world
            else (refused (invalid (validate body (applied_body state))), state, world)
          else (refused (stale edited state.current_generation), state, world)
    ]
  ]

  unfoldable pub restore_version :
      ℕ → String → String → String → TenantSpecState → World → SaveResult × TenantSpecState × World
  unfolding save_spec show
  restore_version generation key author now state world =
      elim (version_at generation state.versions) [
        | none ↦ (
          refused (record {
            status = 404;
            title = "Version not found";
            detail = template (slug ∷ " has no generation " ∷ show generation ∷ "." ∷ []);
          }),
          state,
          world,
        )
        | some source ↦
            if eqb generation state.current_generation
            then (
              refused (record {
                status = 409;
                title = "Already current";
                detail = template (
                    "Generation "
                    ∷ show generation
                    ∷ " is the current desired state; nothing to restore."
                    ∷ []);
              }),
              state,
              world,
            )
            else let (r, state', world') =
                save_spec source.body (some state.current_generation) key author now
                  (some (template ("restore of gen " ∷ show generation ∷ []))) state world in
              (restore_result r, state', world')
      ]
