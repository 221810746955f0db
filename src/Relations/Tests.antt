-- ===== src/Relations/Tests.antt =====
-- A store of two tuples, and the theorems at it.
use authz_plane.Common.{
  String, Option, none, some, [], ◌∷◌, ◌++◌, true, false, any, all, length, ◌≡◌, refl, ◌↔◌, ◌+◌,
  inl, inr, subst, before, or-cases,
}
use authz_plane.Common.Dict.{Dict, get}
use authz_plane.Common.Int.{pos, negsuc, ◌+ℤ◌}
use authz_plane.Dsl.Types.{RelationDef, ParsedModel}
use authz_plane.Relations.Model.{
  api, Tuple, TupleInput, WriteRequest, WriteResult, Store, Failure, success, failure, same_tuple,
}
use authz_plane.Relations.Write.{
  is_reserved, in_model, holds, write_store, store_for, write_relations,
}
use authz_plane.Relations.Batch.{names, same_tuple-eq}
use authz_plane.Relations.Account.{Distinct}
use authz_plane.Relations.Allowed.{IsAllowed}
use authz_plane.Relations.Effect.{
  write_store_accepts, write_store-holds, write_store-total, write_relations-get,
}
use authz_plane.Relations.Replay.{write_store_replay}
use authz_plane.Relations.Listing.{RelationsFilter, list_store}

abbrev relation_def : String → RelationDef
relation_def name = record {
  name = name;
  direct = "user" ∷ [];
  computed = [];
  tuple_to_userset = [];
  line = 5;
}

abbrev one_type : String → ParsedModel
one_type dsl = record {
  schema = some "1.1";
  types =
      record {
        name = "document";
        relations = relation_def "viewer" ∷ relation_def "editor" ∷ [];
        line = 4;
      }
      ∷ [];
  issues = [];
}

abbrev stored : String → String → String → Tuple
stored id user relation = record {
  id = id;
  user = user;
  relation = relation;
  object = "document:plan";
  source = api;
  written_at = "2026-08-12T09:00:00Z";
}

abbrev input : String → String → TupleInput
input user relation = record { user = user; relation = relation; object = "document:plan" }

abbrev two_tuples : Store
two_tuples = record {
  items = stored "t-0001" "user:raj" "viewer" ∷ stored "t-0002" "user:mira" "editor" ∷ [];
  total = pos 0;
  seq = 3;
  model_dsl = "model";
  model_version = 6;
  cached_decisions = 41;
}

-- One new write, one that is there already, one delete.
abbrev batch : WriteRequest
batch = record {
  writes = input "user:dana" "viewer" ∷ input "user:mira" "editor" ∷ [];
  deletes = input "user:raj" "viewer" ∷ [];
}

abbrev purge : WriteRequest
purge = record { writes = []; deletes = input "user:raj" "viewer" ∷ [] }

abbrev outcome : WriteResult
outcome = record { written = 1; deleted = 1; invalidated_decisions = 41; model_version = 6 }

abbrev stores : Dict Store
stores = ("acme", two_tuples) ∷ ("globex", two_tuples) ∷ []

abbrev no_tenant : String → Option Store
no_tenant slug = none

abbrev everything : RelationsFilter
everything = record { user = none; relation = none; object = some "document:*" }

batch_accepted : (write_store one_type "now" batch two_tuples).0 ≡ success outcome
unfolding write_store same_tuple before
batch_accepted = refl

-- A tenant that reports fewer tuples than its store holds ends with a negative total.
purge_total : (write_store one_type "now" purge two_tuples).1.total ≡ negsuc 0
unfolding write_store same_tuple
purge_total = refl

reserved_rejected :
    (write_store one_type "now"
      (record { writes = input "platform:root" "viewer" ∷ []; deletes = [] })
      two_tuples).1
    ≡ two_tuples
unfolding write_store
reserved_rejected = refl

second_page :
    (list_store two_tuples everything (some "c1") 1).items
    ≡ stored "t-0002" "user:mira" "editor" ∷ []
unfolding list_store
second_page = refl

first_cursor : (list_store two_tuples everything none 1).next_cursor ≡ some "c1"
unfolding list_store
first_cursor = refl

apart : (t : TupleInput) → names batch.deletes t ≡ true → names batch.writes t ≡ false
unfolding same_tuple
apart t h =
    let raj = input "user:raj" "viewer" in
    elim (or-cases (same_tuple raj t) false h) [
      | inl same ↦ subst (λ x. names batch.writes x ≡ false) (same_tuple-eq raj t same) refl
      | inr never ↦ cc
    ]

write_store_accepts_example :
    (((r : WriteResult) × ((write_store one_type "now" batch two_tuples).0 ≡ success r)) ↔ (
      (any is_reserved (batch.writes ++ batch.deletes) ≡ false)
      × (all (in_model (one_type "model")) batch.writes ≡ true)))
    × ((f : Failure)
        → (write_store one_type "now" batch two_tuples).0 ≡ failure f
        → (write_store one_type "now" batch two_tuples).1 ≡ two_tuples)
    × (((r : WriteResult) × ((write_store one_type "now" batch two_tuples).0 ≡ success r))
        ↔ IsAllowed (one_type "model") batch)
write_store_accepts_example = write_store_accepts one_type "now" batch two_tuples

write_store-holds_example :
    holds (input "user:mira" "editor") (write_store one_type "now" batch two_tuples).1.items ≡ true
unfolding write_store same_tuple
write_store-holds_example =
    write_store-holds one_type "now" batch two_tuples outcome (input "user:mira" "editor")
      batch_accepted

write_store-total_example :
    (length (write_store one_type "now" batch two_tuples).1.items + 1 ≡ 2 + 1)
    × ((write_store one_type "now" batch two_tuples).1.total +ℤ pos 2
        ≡ pos 0 +ℤ pos (length (write_store one_type "now" batch two_tuples).1.items))
    × (Distinct two_tuples.items → Distinct (write_store one_type "now" batch two_tuples).1.items)
write_store-total_example = write_store-total one_type "now" batch two_tuples outcome batch_accepted

write_store_replay_example :
    write_store one_type "later" batch (write_store one_type "now" batch two_tuples).1 ≡ (
      success (record outcome { written = 0; deleted = 0 }),
      (write_store one_type "now" batch two_tuples).1,
    )
write_store_replay_example =
    write_store_replay one_type "now" "later" batch two_tuples outcome apart batch_accepted

write_relations-get_example :
    get "globex" (write_relations one_type no_tenant "acme" batch "now" stores).1 ≡ some two_tuples
unfolding get store_for
write_relations-get_example =
    write_relations-get one_type no_tenant "acme" batch "now" stores "globex"
