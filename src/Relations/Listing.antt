-- ===== src/Relations/Listing.antt =====
-- `listRelations`: filters, cursors and pages. `offset_of` reads a cursor as the source's
-- expression does: an absent or malformed one is the start.
use Prim.Native.Char.{code}
use Prim.Native.String.{String, [], ◌∷◌}
use text.Mathlib.Text.{starts_with}
use authz_plane.Common.{
  ℕ, ◌+◌, Option, none, some, List, [], ◌∷◌, Bool, true, false, ◌&&◌, ◌||◌, ◌==◌, eqb, ltb,
  if◌then◌else◌, filter, take, drop, length, or_else, template, show, number, ends_with, not,
}
use authz_plane.Common.Int.{ℤ, pos}
use authz_plane.Common.Dict.{Dict}
use authz_plane.Relations.Model.{Tuple, Store}
use authz_plane.Relations.Write.{store_for}

pub record RelationsFilter : Type 0 where
  pub user : Option String
  pub relation : Option String
  pub object : Option String

pub record RelationsPage : Type 0 where
  pub items : List Tuple
  pub next_cursor : Option String
  pub total : ℤ
  pub model_version : ℕ
  pub cached_decisions : ℕ

abbrev pub page_size : ℕ
page_size = 6

-- `pattern.slice(0, -1)`
unfoldable pub init : String → String
init [] = ""
init (c ∷ []) = ""
init (c ∷ d ∷ s) = c ∷ init (d ∷ s)

-- A text is truthy if it is there and not empty.
abbrev pub truthy : Option String → Bool
truthy none = false
truthy (some s) = not (s == "")

unfoldable pub matches : String → Option String → Bool
unfolding ends_with init
matches value none = true
matches value (some pattern) =
    if pattern == ""
    then true
    else if ends_with b'*' pattern
    then starts_with value (init pattern)
    else value == pattern

-- /^c(\d+)$/
unfoldable pub cursor_number : String → Option ℕ
unfolding number
cursor_number [] = none
cursor_number (c ∷ s) = if eqb (code c) b'c' then number s else none

unfoldable pub offset_of : Option String → ℕ
unfolding cursor_number
offset_of none = 0
offset_of (some cursor) = or_else (cursor_number cursor) 0

abbrev pub cursor_at : ℕ → String
cursor_at end = template ("c" ∷ show end ∷ [])

abbrev pub passes : RelationsFilter → Tuple → Bool
passes filter t =
    matches t.user filter.user
    && (matches t.relation filter.relation && matches t.object filter.object)

unfoldable pub list_store : Store → RelationsFilter → Option String → ℕ → RelationsPage
unfolding matches offset_of show
list_store store f cursor limit =
    let filtered = filter (passes f) store.items in
    let offset = offset_of cursor in
    let items = take limit (drop offset filtered) in
    let end = offset + length items in
    let has_filter = truthy f.user || (truthy f.relation || truthy f.object) in
    record {
      items = items;
      next_cursor = if ltb end (length filtered) then some (cursor_at end) else none;
      total = if has_filter then pos (length filtered) else store.total;
      model_version = store.model_version;
      cached_decisions = store.cached_decisions;
    }

unfoldable pub list_relations :
    (String → Option Store)
    → String
    → RelationsFilter
    → Option String
    → ℕ
    → Dict Store
    → Option RelationsPage × Dict Store
unfolding store_for list_store
list_relations seed slug f cursor limit stores =
    let (found, stores') = store_for seed slug stores in
    (elim found [ none ↦ none | some store ↦ some (list_store store f cursor limit) ], stores')
