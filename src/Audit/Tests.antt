-- ===== src/Audit/Tests.antt =====
-- Three events of two tenants, in pages of one, and an export requested twice.
use authz_plane.Common.{
  ℕ, String, Option, none, some, List, [], ◌∷◌, Bool, true, false, ◌==◌, ◌≡◌, refl, map,
}
use authz_plane.Audit.Model.{spec_updated, human, AuditEvent, AuditFilter, ExportResponse}
use authz_plane.Audit.Server.{scope_of, request_audit_export}
use authz_plane.Audit.Laws.{audit_page, selected, requests_after, request_audit_export_replay}

abbrev event : String → String → String → AuditEvent
event id tenant at = record {
  id = id;
  tenant = tenant;
  occurred_at = at;
  actor = record { id = "ops"; kind = human; label = "ops" };
  action = spec_updated;
  resource = "tenant";
  title = "tenant";
  request_id = "r";
  trace_id = none;
  ip = none;
  idempotency_key = none;
  spec_hash = none;
  diff = [];
  related_run_id = none;
}

abbrev log : List AuditEvent
log = event "e1" "acme" "one" ∷ event "e2" "globex" "two" ∷ event "e3" "acme" "two" ∷ []

-- A clock of two times, and texts of one letter in one class.
abbrev clock : String → ℕ
clock at = if_one (at == "one")
  where
    if_one : Bool → ℕ
    if_one true = 1
    if_one false = 2

abbrev of_acme : AuditFilter
of_acme = record { tenant = some "acme"; actor = none; action = none }

abbrev is_known : String → Bool
is_known slug = slug == "acme"

abbrev always : String → String → Bool
always a b = true

abbrev page_one : Option String → List AuditEvent × Option String
page_one = audit_page clock always is_known log [] 10 20 of_acme "now" 1

two_events :
    map (λ (e : AuditEvent). e.id) (selected clock always is_known log [] 10 20 of_acme "now" 1)
    ≡ "e3" ∷ "e1" ∷ []
unfolding scope_of
two_events = refl

abbrev first_export : ExportResponse
first_export = record { export_id = "exp_0123456789"; status = "queued"; format = "ndjson.gz" }

exported : (request_audit_export is_known "acme" "k" "0123-4567-89ab" []).0 ≡ some first_export
unfolding request_audit_export
exported = refl

request_audit_export_replay_example :
    let later =
      requests_after is_known
        (("acme", "j", "cdef") ∷ [])
        (request_audit_export is_known "acme" "k" "0123-4567-89ab" []).1 in
    request_audit_export is_known "acme" "k" "fedc" later ≡ (some first_export, later)
request_audit_export_replay_example =
    request_audit_export_replay is_known "acme" "k" "0123-4567-89ab" "fedc" first_export []
      (("acme", "j", "cdef") ∷ []) exported
