-- ===== src/Common/Dict.antt =====
-- JavaScript's `Map` with text keys: entries in the order of first insertion. A `set` on a key that
-- is there replaces its value in place.
pub mod Keys
use Prim.Native.String.{String}
use mathlib.Core.Path.{◌≡◌, refl}
use mathlib.Core.Bool.{Bool}
use mathlib.Core.Option.{Option, none, some}
use mathlib.Core.List.{List, [], ◌∷◌, map}
use native.Mathlib.Omega.{arith}
use text.Mathlib.Text.{◌==◌}
use text.Mathlib.TextEquality.{eq_iff}
use authz_plane.Common.Tests.{if◌then◌else◌, is_some}

abbrev pub Dict {ℓ} : Type ℓ → Type ℓ
Dict V = List (String × V)

module _ {ℓ} {V : Type ℓ} where
  unfoldable pub get : String → Dict V → Option V
  get k [] = none
  get k ((j, v) ∷ m) = if j == k then some v else get k m

  abbrev pub has : String → Dict V → Bool
  has k m = is_some (get k m)

  unfoldable pub set : String → V → Dict V → Dict V
  set k v [] = (k, v) ∷ []
  set k v ((j, w) ∷ m) = if j == k then (j, v) ∷ m else (j, w) ∷ set k v m

  unfoldable pub delete : String → Dict V → Dict V
  delete k [] = []
  delete k ((j, v) ∷ m) = let rest = delete k m in if j == k then rest else (j, v) ∷ rest

  abbrev pub values : Dict V → List V
  values m = map (λ e. e.1) m

  abbrev pub keys : Dict V → List String
  keys m = map (λ e. e.0) m

  pub get-set :
      (k j : String) (v : V) (m : Dict V) → get j (set k v m) ≡ (if k == j then some v else get j m)
  unfolding get set
  get-set k j v [] = refl
  get-set k j v ((i, w) ∷ m) = ground (arith, eq_iff k j, eq_iff i k, eq_iff i j, get-set k j v m)

  pub get-delete :
      (k j : String) (m : Dict V) → get j (delete k m) ≡ (if k == j then none else get j m)
  unfolding get delete
  get-delete k j [] = ground arith
  get-delete k j ((i, w) ∷ m) = ground (arith, eq_iff k j, eq_iff i k, eq_iff i j, get-delete k j m)
