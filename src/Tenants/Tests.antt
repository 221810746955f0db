-- ===== src/Tenants/Tests.antt =====
-- Two fixed tenants, one created and some slugs.
use authz_plane.Common.{
  String, none, some, List, [], ◌∷◌, true, false, ◌≡◌, refl, ◌↔◌, ◌⊎◌, ◌≤◌, map, text_length,
}
use authz_plane.Common.Dict.{set}
use authz_plane.Tenants.Types.{
  ready, TenantSummary, TenantListFilter, blank, roles_only, CreateTenantInput, Created,
}
use authz_plane.Tenants.Slug.{slug_max, slug_pattern, is_slug, validate_slug, derive_slug}
use authz_plane.Tenants.Shapes.{validate_slug-is_slug, derive_slug-shape}
use authz_plane.Tenants.Preview.{spec_yaml}
use authz_plane.Tenants.Server.{
  parse_input, new_summary, created, all_tenants, is_slug_available, create_tenant,
}
use authz_plane.Tenants.Creates.{
  IsIndexed, IsDistinct, create_tenant-available, create_tenant-lists,
}

abbrev fixture : String → TenantSummary
fixture slug = record {
  id = "9f2c1a";
  slug = slug;
  display_name = slug;
  phase = ready;
  generation = 9;
  observed_generation = 9;
  open_drift = 0;
  last_reconciled_at = none;
  idp = none;
  auto_heal = false;
  resync_interval_seconds = 600;
  created_at = "2025-01-01T00:00:00Z";
  org_id = some "3108";
  spec_hash = "00000000";
}

abbrev fleet : List TenantSummary
fleet = fixture "acme-air" ∷ fixture "globex" ∷ []

abbrev request : CreateTenantInput
request = record {
  display_name = " Vertex Freight ";
  slug = "vertex-freight";
  start_from = blank;
  copy_from_slug = none;
  yaml_text = none;
  starter_model = roles_only;
  auto_heal = true;
  resync_interval_seconds = 600;
}

abbrev trimmed : CreateTenantInput
trimmed = record request { display_name = "Vertex Freight" }

parsed : parse_input request ≡ some trimmed
unfolding parse_input
parsed = refl

preview_text :
    spec_yaml trimmed
    ≡ "apiVersion: authzplane.dev/v1\nkind: Tenant\nmetadata:\n  slug: vertex-freight\n  displayName: Vertex Freight\nspec:\n  reconcilePolicy:\n    autoHeal: true\n    resyncIntervalSeconds: 600\n  identityProviders: []\n  roles:\n    - key: tenant_admin\n    - key: tenant_viewer"
unfolding spec_yaml
preview_text = refl

derived : derive_slug (λ s. s) (λ s. s) "vertex  freight (eu)-" ≡ "vertex-freight-eu"
unfolding derive_slug
derived = refl

bad_slugs :
    map validate_slug ("" ∷ "a" ∷ "ab-" ∷ "new" ∷ [])
    ≡ some "enter a slug"
      ∷ some "at least 3 characters"
      ∷ some "lowercase letters, digits and hyphens; must start and end with a letter or digit"
      ∷ some "reserved"
      ∷ []
unfolding validate_slug
bad_slugs = refl

validate_slug-is_slug_example : (validate_slug "acme-air" ≡ none) ↔ (is_slug "acme-air" ≡ true)
validate_slug-is_slug_example = validate_slug-is_slug "acme-air"

derive_slug-shape_example :
    (text_length (derive_slug (λ s. s) (λ s. s) "vertex  freight (eu)-") ≤ slug_max)
    × ((derive_slug (λ s. s) (λ s. s) "vertex  freight (eu)-" ≡ "")
        ⊎ (slug_pattern (derive_slug (λ s. s) (λ s. s) "vertex  freight (eu)-") ≡ true))
derive_slug-shape_example = derive_slug-shape (λ s. s) (λ s. s) "vertex  freight (eu)-"

create_tenant-available_example :
    ((is_slug_available fleet [] "vertex-freight").available ≡ true)
    ↔ ((create_tenant fleet request "now" []).0 ≡ created (new_summary trimmed "now"))
create_tenant-available_example = create_tenant-available fleet request trimmed "now" [] parsed

abbrev vertex : TenantSummary
vertex = new_summary trimmed "now"

abbrev one_created : Created
one_created = set "vertex-freight" (record { summary = vertex; input = trimmed }) []

creates : create_tenant fleet request "now" [] ≡ (created vertex, one_created)
unfolding create_tenant
creates = refl

fleet-IsDistinct : IsDistinct (all_tenants fleet [])
unfolding all_tenants
fleet-IsDistinct = (refl, (refl, tt))

create_tenant-lists_example :
    (all_tenants fleet one_created ≡ vertex ∷ all_tenants fleet [])
    × (is_slug vertex.slug ≡ true)
    × IsIndexed one_created
    × IsDistinct (all_tenants fleet one_created)
    × (is_slug_available fleet one_created vertex.slug
        ≡ record { available = false; reason = some "taken" })
create_tenant-lists_example =
    create_tenant-lists fleet request "now" [] one_created vertex tt fleet-IsDistinct creates

abbrev everything : TenantListFilter
everything = record { phase = some ready; has_drift = false; q = none; cursor = none; limit = 1 }
