-- ===== src/Spec/Model.antt =====
-- The versions, the state of a tenant's specification, and the hash of a body.
use Prim.Native.Nat.{bit_xor}
use Prim.Native.Char.{code}
use Prim.Native.String.{String, [], ◌∷◌}
use authz_plane.Common.{
  [], ◌∷◌, utf16_units, ℕ, zero, suc, ◌*◌, ◌/◌, ◌%◌, ◌^◌, Option, List, Bool, eqb, ltb,
  if◌then◌else◌, show,
}
use authz_plane.Common.Dict.{Dict}

pub data VersionStatus : Type 0 where
  current applied superseded : VersionStatus

pub record SpecVersion : Type 0 where
  pub generation : ℕ
  pub author : String
  pub created_at : String
  pub hash : String
  pub summary : String
  pub status : VersionStatus
  pub body : String

pub record SaveSpecResponse : Type 0 where
  pub generation : ℕ
  pub run_id : String

pub record TenantSpecState : Type 0 where
  pub versions : List SpecVersion
  pub current_generation : ℕ
  pub observed_generation : ℕ
  pub by_key : Dict SaveSpecResponse

pub data ValidationLevel : Type 0 where
  ok warning error : ValidationLevel

pub record ValidationIssue : Type 0 where
  pub level : ValidationLevel
  pub title : String
  pub detail : String
  pub line : Option ℕ

pub record ValidationOutcome : Type 0 where
  pub results : List ValidationIssue
  pub errors : ℕ
  pub warnings : ℕ
  pub line_count : ℕ
  pub valid : Bool

abbrev pub version_status : ℕ → ℕ → ℕ → VersionStatus
version_status generation now observed =
    if eqb generation now then current else if eqb generation observed then applied else superseded

-- One round of the 32-bit hash for each UTF-16 unit.
abbrev mix : ℕ → List ℕ → ℕ
mix h [] = h
mix h (u ∷ us) = mix ((bit_xor h u * 16777619) % 2 ^ 32) us

-- The loop of the hash.
unfoldable pub fnv1a_from : ℕ → String → ℕ
fnv1a_from h [] = h
fnv1a_from h (c ∷ s) = fnv1a_from (mix h (utf16_units (code c))) s

abbrev hex_digit : ℕ → String
hex_digit n =
    if ltb n 10
    then show n
    else if eqb n 10
    then "a"
    else if eqb n 11
    then "b"
    else if eqb n 12
    then "c"
    else if eqb n 13
    then "d"
    else if eqb n 14
    then "e"
    else "f"

-- `h.toString(16).padStart(8, "0")` for a number of 32 bits: its last `n` hexadecimal digits.
unfoldable pub hex_from : ℕ → ℕ → String
hex_from zero h = ""
hex_from (suc n) h = Prim.Native.String.◌++◌ (hex_from n (h / 16)) (hex_digit (h % 16))

unfoldable pub fnv1a : String → String
unfolding fnv1a_from hex_from show
fnv1a input = hex_from 8 (fnv1a_from 2166136261 input)
