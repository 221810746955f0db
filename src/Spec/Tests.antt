-- ===== src/Spec/Tests.antt =====
-- A specification of two versions, and the theorems at it.
use authz_plane.Common.{ℕ, ◌+◌, String, Option, none, some, [], ◌∷◌, true, ◌≡◌, ◌≢◌, refl}
use authz_plane.Common.Dict.{get}
use authz_plane.Spec.Model.{
  current, applied, SpecVersion, SaveSpecResponse, TenantSpecState, ValidationOutcome, fnv1a,
}
use authz_plane.Spec.Save.{
  SaveResult, saved, refused, stale, applied_body, describe_change, save_spec, restore_version,
}
use authz_plane.Spec.Laws.{Entry, history, HasStatuses}
use authz_plane.Spec.History.{save_spec-history, save_spec_replay, save_spec-stale}
use authz_plane.Spec.Restore.{restore_version-history}

abbrev lenient : String → Option String → ValidationOutcome
lenient body before = record {
  results = [];
  errors = 0;
  warnings = 0;
  line_count = 1;
  valid = true;
}

-- The world counts the reconciles that were enqueued.
abbrev count_up : String → String → String → ℕ → String × ℕ
count_up slug key now n = ("aaaabbbbcccc", n + 1)

abbrev first : SpecVersion
first = record {
  generation = 1;
  author = "mira";
  created_at = "2026-08-12T09:00:00Z";
  hash = "00000001";
  summary = "initial spec";
  status = applied;
  body = "kind: Tenant";
}

abbrev second : SpecVersion
second = record {
  generation = 2;
  author = "raj";
  created_at = "2026-08-30T09:12:00Z";
  hash = "00000002";
  summary = "no field changes";
  status = current;
  body = "kind: Realm";
}

abbrev two_versions : TenantSpecState
two_versions = record {
  versions = second ∷ first ∷ [];
  current_generation = 2;
  observed_generation = 1;
  by_key = [];
}

abbrev third : SaveSpecResponse
third = record { generation = 3; run_id = "aaaabbbbcccc" }

abbrev if_current : Option ℕ
if_current = some 2

abbrev edit : String → Option ℕ → TenantSpecState → ℕ → SaveResult × TenantSpecState × ℕ
edit key if_match state n =
    save_spec lenient count_up "acme-air" "kind: Org" if_match key "dana" "now" none state n

abbrev undo : SaveResult × TenantSpecState × ℕ
undo = restore_version lenient count_up "acme-air" 1 "key-1" "dana" "now" two_versions 0

edited : (edit "key-1" (some 2) two_versions 0).0 ≡ saved third
unfolding save_spec
edited = refl

undone : undo.0 ≡ saved third
unfolding restore_version
undone = refl

hash_a : fnv1a "a" ≡ "e40c292c"
unfolding fnv1a
hash_a = refl

hash_of_pair : fnv1a "😀" ≡ "cb31c4b8"
unfolding fnv1a
hash_of_pair = refl

described : describe_change "kind: Tenant" "kind: Tenant\nspec:" ≡ "+1 line"
unfolding describe_change
described = refl

save_spec-history_example :
    (if_current ≡ some two_versions.current_generation)
    × ((lenient "kind: Org" (applied_body two_versions)).valid ≡ true)
    × (third.generation ≡ two_versions.current_generation + 1)
    × (e : Entry) × (history (edit "key-1" (some 2) two_versions 0).1 ≡ e ∷ history two_versions)
    × ((edit "key-1" (some 2) two_versions 0).1.current_generation ≡ 3)
    × (e.generation ≡ 3)
    × (e.body ≡ "kind: Org")
    × (e.author ≡ "dana")
    × HasStatuses (edit "key-1" (some 2) two_versions 0).1
unfolding get
save_spec-history_example =
    save_spec-history lenient count_up "acme-air" "kind: Org" (some 2) "key-1" "dana" "now" none
      two_versions 0 third refl edited

save_spec_replay_example :
    edit "key-1" none (edit "key-1" (some 2) two_versions 0).1 7
    ≡ (saved third, (edit "key-1" (some 2) two_versions 0).1, 7)
save_spec_replay_example =
    save_spec_replay lenient count_up "acme-air" "kind: Org" (some 2) "key-1" "dana" "now" none
      two_versions 0 third "kind: Org" none "dana" "now" none 7 edited

save_spec-stale_example :
    edit "key-2" (some 2) (edit "key-1" (some 2) two_versions 0).1 7
    ≡ (refused (stale 2 3), (edit "key-1" (some 2) two_versions 0).1, 7)
unfolding get
save_spec-stale_example =
    save_spec-stale lenient count_up "acme-air" "kind: Org" 2 "key-1" "dana" "now" none two_versions
      0 third "kind: Org" "key-2" "dana" "now" none 7 refl refl refl edited

restore_version-history_example :
    (first.generation ≢ two_versions.current_generation)
    × (e : Entry) × (history undo.1 ≡ e ∷ history two_versions)
    × (e.body ≡ "kind: Tenant")
    × (e.generation ≡ 2 + 1)
    × (undo.1.current_generation ≡ 2 + 1)
    × HasStatuses undo.1
unfolding get
restore_version-history_example =
    restore_version-history lenient count_up "acme-air" 1 "key-1" "dana" "now" two_versions 0 first
      third refl refl undone
