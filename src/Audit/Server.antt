-- ===== src/Audit/Server.antt =====
-- `listAuditEvents` and `requestAuditExport`.
--
-- `known` is whether `findTenant` finds a tenant; `events`, `totals`, `total_default` and
-- `total_platform` are the fixtures'. `parse_date` is `Date.parse`, and `locale_at_most` is
-- `localeCompare` with a result of at most zero.
use Prim.Native.Char.{code}
use Prim.Native.String.{String, [], ◌∷◌}
use authz_plane.Common.{
  ℕ, ◌+◌, Option, none, some, List, [], ◌∷◌, Bool, true, false, not, ◌&&◌, ◌||◌, ◌==◌, eqb, ltb,
  if◌then◌else◌, filter, take, drop, length, or_else, is_some, template, text_take,
}
use authz_plane.Common.Dict.{Dict, get, set, values}
use authz_plane.Common.Sort.{sort_by}
use authz_plane.Relations.Listing.{offset_of, cursor_at, truthy}
use authz_plane.Audit.Model.{
  AuditAction, action_number, Actor, AuditEvent, AuditFilter, AuditPage, ExportResponse, Exports,
}

abbrev pub audit_page_size : ℕ
audit_page_size = 8

-- `!wanted || value === wanted`
abbrev pub wants : Option String → String → Bool
wants none value = true
wants (some w) value = w == "" || value == w

abbrev pub wants_action : Option AuditAction → AuditAction → Bool
wants_action none a = true
wants_action (some w) a = eqb (action_number a) (action_number w)

abbrev pub selects : AuditFilter → AuditEvent → Bool
selects f e = wants f.actor e.actor.id && wants_action f.action e.action

-- The actors by identifier: of two with one identifier the later, at the place of the first.
abbrev pub actors_of : List AuditEvent → Dict Actor → Dict Actor
actors_of [] actors = actors
actors_of (e ∷ es) actors = actors_of es (set e.actor.id e.actor actors)

abbrev pub total_of : Dict ℕ → ℕ → ℕ → AuditFilter → List AuditEvent → ℕ
total_of totals total_default total_platform f filtered =
    if truthy f.actor || is_some f.action then length filtered else elim f.tenant [
      | none ↦ total_platform
      | some t ↦ if t == "" then total_platform else or_else (get t totals) total_default
    ]

-- The test of the first line: the tenant asked for is not there.
abbrev pub is_missing : (String → Bool) → Option String → Bool
is_missing known none = false
is_missing known (some t) = not (t == "") && not (known t)

module _ (parse_date : String → ℕ) (locale_at_most : String → String → Bool) where
  -- The comparison of the events, with a result of at most zero.
  abbrev pub latest_first : AuditEvent → AuditEvent → Bool
  latest_first a b =
      let ta = parse_date a.occurred_at in
      let tb = parse_date b.occurred_at in ltb tb ta || (eqb ta tb && locale_at_most a.id b.id)

  unfoldable pub scope_of : List AuditEvent → Option String → List AuditEvent
  unfolding sort_by
  scope_of events tenant =
      sort_by latest_first (filter (λ (e : AuditEvent). wants tenant e.tenant) events)

  abbrev pub filtered_of : List AuditEvent → AuditFilter → List AuditEvent
  filtered_of events f = filter (selects f) (scope_of events f.tenant)

  unfoldable pub list_audit_events :
      (String → Bool)
      → List AuditEvent
      → Dict ℕ
      → ℕ
      → ℕ
      → AuditFilter
      → Option String
      → String
      → ℕ
      → Option AuditPage
  unfolding scope_of offset_of get set sort_by
  list_audit_events known events totals total_default total_platform f cursor now limit =
      let scope = scope_of events f.tenant in
      let filtered = filtered_of events f in
      let offset = offset_of cursor in
      let items = take limit (drop offset filtered) in
      let end = offset + length items in
      if is_missing known f.tenant
      then none
      else some (record {
        generated_at = now;
        items = items;
        next_cursor = if ltb end (length filtered) then some (cursor_at end) else none;
        total = total_of totals total_default total_platform f filtered;
        actors =
            sort_by (λ (a : Actor) b. locale_at_most a.label b.label) (values (actors_of scope []));
      })

-- `uuid.replaceAll("-", "")`
unfoldable pub without_hyphens : String → String
without_hyphens [] = ""
without_hyphens (c ∷ s) =
    let rest = without_hyphens s in if eqb (code c) b'-' then rest else c ∷ rest

abbrev pub export_key : String → String → String
export_key slug idempotency_key = template (slug ∷ ":" ∷ idempotency_key ∷ [])

unfoldable pub new_export : String → ExportResponse
unfolding without_hyphens text_take
new_export uuid = record {
  export_id = template ("exp_" ∷ text_take 10 (without_hyphens uuid) ∷ []);
  status = "queued";
  format = "ndjson.gz";
}

unfoldable pub request_audit_export :
    (String → Bool) → String → String → String → Exports → Option ExportResponse × Exports
unfolding get set new_export
request_audit_export known slug idempotency_key uuid exports =
    let key = export_key slug idempotency_key in
    if not (known slug) then (none, exports) else elim (get key exports) [
      | some existing ↦ (some existing, exports)
      | none ↦ (some (new_export uuid), set key (new_export uuid) exports)
    ]
