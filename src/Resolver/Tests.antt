-- ===== src/Resolver/Tests.antt =====
-- The resolver on a small model, and its theorems at it.
use authz_plane.Common.{String, none, some, List, [], ◌∷◌, true, false, ◌≡◌, ◌↔◌, refl, Memᴰ, map}
use authz_plane.Resolver.Model.{
  AuthorizationModel, RelationDef, StoredTuple, CheckTuple, ResolverOptions, strong, DecisiveTuple,
  depth_cap, relations_of,
}
use authz_plane.Resolver.Explain.{explain, batch_check}
use authz_plane.Resolver.Grants.{Grants}
use authz_plane.Resolver.Evidence.{Attests}
use authz_plane.Resolver.Decides.{
  explain-decides, explain-denied, explain_mono, explain-decisive, batch_check-explain,
}

abbrev only_direct : RelationDef
only_direct = record { direct = true; computed = []; tuple_to_userset = [] }

abbrev documents : AuthorizationModel
documents =
    ("folder", ("editor", only_direct) ∷ ("parent", only_direct) ∷ [])
    ∷ (
      "document",
      ("parent", only_direct)
          ∷ (
            "editor",
            record {
              direct = true;
              computed = [];
              tuple_to_userset = record { tupleset = "parent"; relation = "editor" } ∷ [];
            },
          )
          ∷ ("viewer", record { direct = true; computed = "editor" ∷ []; tuple_to_userset = [] })
          ∷ [],
    )
    ∷ []

abbrev stored_tuple : String → String → String → String → StoredTuple
stored_tuple id object relation user = record {
  object = object;
  relation = relation;
  user = user;
  tuple_id = id;
  written_at = "t";
  written_by = "w";
  audit_event_id = "e";
}

abbrev rows : List StoredTuple
rows =
    stored_tuple "t1" "document:plan" "parent" "folder:finance"
    ∷ stored_tuple "t2" "folder:finance" "editor" "user:raj"
    ∷ []

abbrev check : String → CheckTuple
check user = record { user = user; relation = "viewer"; object = "document:plan" }

abbrev options : ResolverOptions
options = record { now = "n"; model_version = 3; consistency = strong; include_provenance = none }

raj_allowed : (explain documents rows (check "user:raj") options).allowed ≡ true
unfolding explain
raj_allowed = refl

raj_reason :
    (explain documents rows (check "user:raj") options).reason
    ≡ "raj can view plan because raj is an editor of folder:finance, and document viewers inherit from parent folder editors."
unfolding explain
raj_reason = refl

ann_denied :
    ((explain documents rows (check "user:ann") options).allowed ≡ false)
    × ((explain documents rows (check "user:ann") options).stats.depth_cap_hit ≡ false)
unfolding explain
ann_denied = (refl, refl)

relations_test : relations_of documents ≡ "editor" ∷ "parent" ∷ "viewer" ∷ []
unfolding relations_of
relations_test = refl

explain-decides_example :
    ((explain documents rows (check "user:raj") options).allowed ≡ true)
    ↔ Grants documents rows "user:raj" depth_cap "document:plan" "viewer"
explain-decides_example = explain-decides documents rows (check "user:raj") options

explain-denied_example : ¬ Grants documents rows "user:ann" 20 "document:plan" "viewer"
explain-denied_example =
    explain-denied documents rows (check "user:ann") options ann_denied.1 ann_denied.0 20

explain_mono_example :
    (explain documents
      (stored_tuple "t3" "folder:x" "editor" "user:ann" ∷ rows)
      (check "user:raj")
      options).allowed
    ≡ true
explain_mono_example =
    explain_mono documents rows (stored_tuple "t3" "folder:x" "editor" "user:ann" ∷ rows)
      (check "user:raj") options options (λ t m. Memᴰ.tail m) raj_allowed

explain-decisive_example :
    ((explain documents rows (check "user:raj") options).allowed ≡ true
      → (d : DecisiveTuple) × (object : String) × (relation : String) × ((explain documents rows
            (check "user:raj")
            options).decisive
          ≡ some d)
        × Attests rows "user:raj" d object relation)
    × ((explain documents rows (check "user:raj") options).allowed ≡ false
        → (explain documents rows (check "user:raj") options).decisive ≡ none)
explain-decisive_example = explain-decisive documents rows (check "user:raj") options

batch_check-explain_example :
    (map (λ r. r.check) (batch_check documents rows (check "user:raj" ∷ []) options).results
      ≡ check "user:raj" ∷ [])
    × (map (λ r. r.allowed) (batch_check documents rows (check "user:raj" ∷ []) options).results
        ≡ map (λ c. (explain documents rows c options).allowed) (check "user:raj" ∷ []))
batch_check-explain_example =
    batch_check-explain documents rows (check "user:raj" ∷ []) options options
