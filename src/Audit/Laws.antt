-- ===== src/Audit/Laws.antt =====
-- The pages of the audit log, and exports requested again.
use authz_plane.Common.{
  ℕ, ◌<◌, ◌⊎◌, String, Option, none, some, List, [], ◌∷◌, Bool, true, false, ◌≡◌, refl, ap, ◌∙◌,
  arith, Bool-cases, Option-cases, inl, inr, eq_iff, eq_refl,
}
use authz_plane.Common.Dict.{Dict, get, set, get-set}
use authz_plane.Audit.Model.{AuditEvent, AuditFilter, AuditPage, ExportResponse, Exports}
use authz_plane.Audit.Server.{
  new_export, filtered_of, list_audit_events, export_key, request_audit_export,
}

-- The order of the log: the later event first, then by identifier.
abbrev pub IsLater : (String → ℕ) → (String → String → Bool) → AuditEvent → AuditEvent → Type 0
IsLater parse_date locale_at_most a b =
    (parse_date b.occurred_at < parse_date a.occurred_at)
    ⊎ ((parse_date a.occurred_at ≡ parse_date b.occurred_at) × (locale_at_most a.id b.id ≡ true))

module _ (parse_date : String → ℕ) (locale_at_most : String → String → Bool) (known : String → Bool)
    (events : List AuditEvent) (totals : Dict ℕ) (total_default total_platform : ℕ)
    (f : AuditFilter) (now : String) (limit : ℕ) where
  abbrev pub page_pair : Option AuditPage → List AuditEvent × Option String
  page_pair none = ([], none)
  page_pair (some page) = (page.items, page.next_cursor)

  abbrev pub audit_page : Option String → List AuditEvent × Option String
  audit_page cursor = page_pair (
      list_audit_events parse_date locale_at_most known events totals total_default total_platform f
        cursor now limit)

  abbrev pub selected : List AuditEvent
  selected = filtered_of parse_date locale_at_most events f

-- Requests, each with its tenant, its key and the random identifier drawn for it.
abbrev pub Request : Type 0
Request = String × String × String

pub requests_after : (String → Bool) → List Request → Exports → Exports
requests_after known [] exports = exports
requests_after known ((slug, key, uuid) ∷ rest) exports =
    requests_after known rest (request_audit_export known slug key uuid exports).1

module _ (known : String → Bool) where
  request_hit :
      (slug key uuid : String) (r : ExportResponse) (exports : Exports)
      → known slug ≡ true
      → get (export_key slug key) exports ≡ some r
      → request_audit_export known slug key uuid exports ≡ (some r, exports)
  unfolding request_audit_export
  request_hit slug key uuid r exports there hit = rw (request_audit_export, there, hit) refl

  request_new :
      (slug key uuid : String) (exports : Exports)
      → known slug ≡ true
      → get (export_key slug key) exports ≡ none
      → request_audit_export known slug key uuid exports
        ≡ (some (new_export uuid), set (export_key slug key) (new_export uuid) exports)
  unfolding request_audit_export
  request_new slug key uuid exports there miss = rw (request_audit_export, there, miss) refl

  request_unknown :
      (slug key uuid : String) (exports : Exports)
      → known slug ≡ false
      → request_audit_export known slug key uuid exports ≡ (none, exports)
  unfolding request_audit_export
  request_unknown slug key uuid exports absent = rw (request_audit_export, absent) refl

  request-keeps :
      (slug key uuid k : String) (r : ExportResponse) (exports : Exports)
      → get k exports ≡ some r
      → get k (request_audit_export known slug key uuid exports).1 ≡ some r
  request-keeps slug key uuid k r exports h = elim (Bool-cases (known slug)) [
    | inr absent ↦ rw (request_unknown slug key uuid exports absent) h
    | inl there ↦ elim (Option-cases (get (export_key slug key) exports)) [
      | inr (x, hit) ↦ rw (request_hit slug key uuid x exports there hit) h
      | inl miss ↦ rw (request_new slug key uuid exports there miss) (
          ground (
            arith,
            get-set (export_key slug key) k (new_export uuid) exports,
            eq_iff (export_key slug key) k,
            miss,
            h,
          ))
    ]
  ]

  requests-keep :
      (others : List Request) (k : String) (r : ExportResponse) (exports : Exports)
      → get k exports ≡ some r
      → get k (requests_after known others exports) ≡ some r
  unfolding requests_after
  requests-keep [] k r exports h = h
  requests-keep ((slug, key, uuid) ∷ rest) k r exports h =
      requests-keep rest k r _ (request-keeps slug key uuid k r exports h)

  answered :
      (slug key uuid : String) (r : ExportResponse) (exports : Exports)
      → (request_audit_export known slug key uuid exports).0 ≡ some r
      → (known slug ≡ true)
        × (get (export_key slug key) (request_audit_export known slug key uuid exports).1 ≡ some r)
  answered slug key uuid r exports h = elim (Bool-cases (known slug)) [
    | inr absent ↦ ground (arith, request_unknown slug key uuid exports absent, h)
    | inl there ↦ elim (Option-cases (get (export_key slug key) exports)) [
      | inr (x, hit) ↦
          let e = request_hit slug key uuid x exports there hit in
          let same : x ≡ r = ground (arith, e, h) in (there, rw e (rw same at hit))
      | inl miss ↦
          let e = request_new slug key uuid exports there miss in
          let same : new_export uuid ≡ r = ground (arith, e, h) in
          (
            there,
            rw e (
                get-set (export_key slug key) (export_key slug key) (new_export uuid) exports
                ∙ rw (eq_refl (export_key slug key)) (ap some same)),
          )
    ]
  ]

  -- A request for an export that is answered has the same answer when it is sent again with its key,
  -- whatever other requests come between and whatever identifier is drawn, and changes nothing then.
  pub request_audit_export_replay :
      (slug key uuid uuid' : String) (r : ExportResponse) (exports : Exports)
      (others : List Request)
      → (request_audit_export known slug key uuid exports).0 ≡ some r
      → let later =
          requests_after known others (request_audit_export known slug key uuid exports).1 in
        request_audit_export known slug key uuid' later ≡ (some r, later)
  request_audit_export_replay slug key uuid uuid' r exports others h =
      let (there, kept) = answered slug key uuid r exports h in
      request_hit slug key uuid' r _ there (requests-keep others (export_key slug key) r _ kept)
