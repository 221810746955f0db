-- ===== src/Tenants/Preview.antt =====
-- The lines of generation 1, `specPreviewLines`, and their text, `specYaml`.
use authz_plane.Common.{
  ℕ, zero, suc, String, Option, none, some, List, [], ◌∷◌, ◌++◌, Bool, ◌==◌, map, if◌then◌else◌,
  or_else, show, split_on, template, unix_lines,
}
use authz_plane.Common.Chars.{trim}
use authz_plane.Tenants.Types.{
  StartFrom, copy, yaml, StarterModel, roles_only, documents, CreateTenantInput,
}

pub data SpecValueTone : Type 0 where
  plain : SpecValueTone
  bool : SpecValueTone
  number : SpecValueTone

pub record SpecLine : Type 0 where
  pub indent : ℕ
  pub key : Option String
  pub value : Option String
  pub tone : Option SpecValueTone
  pub raw : Option String

abbrev pub starter_roles : StarterModel → List String
starter_roles roles_only = "tenant_admin" ∷ "tenant_viewer" ∷ []
starter_roles documents = "tenant_admin" ∷ "tenant_editor" ∷ "tenant_viewer" ∷ []

abbrev pub starter_title : StarterModel → String
starter_title roles_only = "Roles only"
starter_title documents = "Documents starter"

abbrev pub kv : ℕ → String → Option String → SpecValueTone → SpecLine
kv indent key value tone = record {
  indent = indent;
  key = some key;
  value = value;
  tone = some tone;
  raw = none;
}

abbrev pub raw_line : ℕ → String → SpecLine
raw_line indent text = record {
  indent = indent;
  key = none;
  value = none;
  tone = none;
  raw = some text;
}

-- `text || "~"`
abbrev pub or_tilde : String → String
or_tilde text = if text == "" then "~" else text

abbrev pub show_bool : Bool → String
show_bool b = if b then "true" else "false"

-- The YAML text that the tenant starts from, if there is one.
abbrev pub pasted : StartFrom → Option String → Option String
pasted yaml (some text) = if trim text == "" then none else some text
pasted _ _ = none

abbrev pub copied : StartFrom → Option String → List SpecLine
copied copy (some slug) = if slug == "" then [] else kv 1 "copyFrom" (some slug) plain ∷ []
copied _ _ = []

abbrev pub model_lines : StarterModel → List SpecLine
model_lines roles_only = []
model_lines documents =
    kv 1 "authorizationModel" none plain
    ∷ kv 2 "starter" (some "documents") plain
    ∷ kv 2 "types" (some "[user, organization, document]") plain
    ∷ []

unfoldable pub spec_preview_lines : CreateTenantInput → List SpecLine
unfolding trim unix_lines split_on show
spec_preview_lines input = elim (pasted input.start_from input.yaml_text) [
  | some text ↦ map (raw_line 0) (split_on b'\n' (unix_lines text))
  | none ↦
      kv 0 "apiVersion" (some "authzplane.dev/v1") plain
      ∷ kv 0 "kind" (some "Tenant") plain
      ∷ kv 0 "metadata" none plain
      ∷ kv 1 "slug" (some (or_tilde input.slug)) plain
      ∷ kv 1 "displayName" (some (or_tilde (trim input.display_name))) plain
      ∷ kv 0 "spec" none plain
      ∷ kv 1 "reconcilePolicy" none plain
      ∷ kv 2 "autoHeal" (some (show_bool input.auto_heal)) bool
      ∷ kv 2 "resyncIntervalSeconds" (some (show input.resync_interval_seconds)) number
      ∷ (copied input.start_from input.copy_from_slug
          ++ (kv 1 "identityProviders" (some "[]") plain
              ∷ kv 1 "roles" none plain
              ∷ (map (λ role. raw_line 2 (template ("- key: " ∷ role ∷ [])))
                    (starter_roles input.starter_model)
                  ++ model_lines input.starter_model)))
]

-- `"  ".repeat(n)`
unfoldable pub pad : ℕ → String
pad zero = ""
pad (suc n) = template ("  " ∷ pad n ∷ [])

abbrev pub line_text : SpecLine → String
line_text l = elim l.raw [
  | some raw ↦ template (pad l.indent ∷ raw ∷ [])
  | none ↦
      let key = or_else l.key "undefined" in
      elim l.value [
        | none ↦ template (pad l.indent ∷ key ∷ ":" ∷ [])
        | some value ↦ template (pad l.indent ∷ key ∷ ": " ∷ value ∷ [])
      ]
]

-- `lines.join("\n")`
unfoldable pub join_lines : List String → String
join_lines [] = ""
join_lines (l ∷ []) = l
join_lines (l ∷ k ∷ ls) = template (l ∷ "\n" ∷ join_lines (k ∷ ls) ∷ [])

unfoldable pub spec_yaml : CreateTenantInput → String
unfolding spec_preview_lines pad join_lines
spec_yaml input = join_lines (map line_text (spec_preview_lines input))
