-- ===== src/Relations/Write.antt =====
-- `writeRelations`: every write and delete is checked, then the deletes and the writes are applied.
--
-- `parse_model` stands for the parser of the model's language and `seed` for what `storeFor` makes
-- of a tenant whose store is not there yet, none where there is no such tenant.
use text.Mathlib.Text.{starts_with}
use authz_plane.Common.{
  ℕ, ◌+◌, String, Option, none, some, List, [], ◌∷◌, ◌++◌, Bool, false, not, ◌||◌, ◌==◌,
  if◌then◌else◌, any, find, template, before, show, pad4,
}
use authz_plane.Common.Dict.{Dict, get, set}
use authz_plane.Common.Int.{difference, ◌+ℤ◌}
use authz_plane.Dsl.Types.{TypeDef, RelationDef, ParsedModel}
use authz_plane.Relations.Model.{
  api, Tuple, TupleInput, input_of, WriteRequest, WriteResult, Store, Failure, Result, success,
  failure, tuple_key, same_tuple,
}

abbrev pub is_reserved : TupleInput → Bool
is_reserved t = starts_with t.object "platform:" || starts_with t.user "platform:"

abbrev pub reserved_failure : TupleInput → Failure
reserved_failure t = record {
  status = 400;
  title = "Reserved namespace";
  detail = some (
      template
        ("platform:* is reserved for the control plane · " ∷ tuple_key t ∷ " rejected" ∷ []));
}

abbrev pub type_name : TupleInput → String
type_name w = before b':' w.object

abbrev pub has_relation : TypeDef → String → Bool
has_relation type relation = any (λ (r : RelationDef). r.name == relation) type.relations

abbrev pub in_model : ParsedModel → TupleInput → Bool
in_model model w = elim (find (λ (t : TypeDef). t.name == type_name w) model.types) [
  | none ↦ false
  | some type ↦ has_relation type w.relation
]

abbrev pub model_failure : ℕ → TupleInput → Failure
model_failure version w = record {
  status = 400;
  title = "Relation not in model";
  detail = some (
      template (
        w.relation
        ∷ " is not defined on "
        ∷ type_name w
        ∷ " in model v"
        ∷ show version
        ∷ " · "
        ∷ tuple_key w
        ∷ " rejected"
        ∷ []));
}

-- The two loops that return early.
abbrev pub rejection : ParsedModel → ℕ → WriteRequest → Option Failure
rejection model version req = elim (find is_reserved (req.writes ++ req.deletes)) [
  | some t ↦ some (reserved_failure t)
  | none ↦ elim (find (λ w. not (in_model model w)) req.writes) [
    | some w ↦ some (model_failure version w)
    | none ↦ none
  ]
]

abbrev pub holds : TupleInput → List Tuple → Bool
holds w items = any (λ existing. same_tuple (input_of existing) w) items

abbrev pub is_hit : List TupleInput → Tuple → Bool
is_hit deletes existing = any (λ d. same_tuple d (input_of existing)) deletes

-- The filter that counts what it drops.
unfoldable pub delete_tuples : List TupleInput → List Tuple → List Tuple × ℕ
delete_tuples deletes [] = ([], 0)
delete_tuples deletes (t ∷ items) =
    let (kept, deleted) = delete_tuples deletes items in
    if is_hit deletes t then (kept, deleted + 1) else (t ∷ kept, deleted)

abbrev pub new_tuple : ℕ → String → TupleInput → Tuple
new_tuple seq now w = record {
  id = template ("t-" ∷ pad4 seq ∷ []);
  user = w.user;
  relation = w.relation;
  object = w.object;
  source = api;
  written_at = now;
}

-- The items, the sequence number and the count of the writes, after the loop.
unfoldable pub write_tuples : String → List TupleInput → List Tuple → ℕ → ℕ → List Tuple × ℕ × ℕ
write_tuples now [] items seq written = (items, seq, written)
write_tuples now (w ∷ ws) items seq written =
    let skip = write_tuples now ws items seq written in
    let push = write_tuples now ws (items ++ (new_tuple seq now w ∷ [])) (seq + 1) (written + 1) in
    if holds w items then skip else push

unfoldable pub apply_batch : String → WriteRequest → Store → WriteResult × Store
unfolding delete_tuples write_tuples ◌+ℤ◌
apply_batch now req store =
    let (kept, deleted) = delete_tuples req.deletes store.items in
    let (items, seq, written) = write_tuples now req.writes kept store.seq 0 in
    (
      record {
        written = written;
        deleted = deleted;
        invalidated_decisions = store.cached_decisions;
        model_version = store.model_version;
      },
      record store { items = items; seq = seq; total = store.total +ℤ difference written deleted },
    )

-- The request on the tenant's store.
unfoldable pub write_store :
    (String → ParsedModel) → String → WriteRequest → Store → Result WriteResult × Store
unfolding apply_batch
write_store parse_model now req store =
    elim (rejection (parse_model store.model_dsl) store.model_version req) [
      | some f ↦ (failure f, store)
      | none ↦ let (r, store') = apply_batch now req store in (success r, store')
    ]

unfoldable pub store_for : (String → Option Store) → String → Dict Store → Option Store × Dict Store
unfolding get set
store_for seed slug stores = elim (get slug stores) [
  | some cached ↦ (some cached, stores)
  | none ↦ elim (seed slug) [
    | none ↦ (none, stores)
    | some store ↦ (some store, set slug store stores)
  ]
]

-- The store is shared with the map, so the new one stands there after the call.
unfoldable pub write_relations :
    (String → ParsedModel)
    → (String → Option Store)
    → String
    → WriteRequest
    → String
    → Dict Store
    → Result WriteResult × Dict Store
unfolding store_for write_store set
write_relations parse_model seed slug req now stores =
    let (found, stores') = store_for seed slug stores in
    elim found [
      | none ↦
          (failure (record { status = 404; title = "Tenant not found"; detail = none }), stores')
      | some store ↦
          let (r, store') = write_store parse_model now req store in (r, set slug store' stores')
    ]
