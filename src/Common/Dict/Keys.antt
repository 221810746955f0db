-- ===== src/Common/Dict/Keys.antt =====
-- A `Map` has each key once, and its size follows what is set and deleted.
use Prim.Native.Nat.{◌+◌}
use Prim.Native.String.{String}
use mathlib.Core.Path.{◌≡◌, refl, subst}
use mathlib.Core.Logic.{inl, inr}
use mathlib.Core.Option.{none, some}
use mathlib.Core.List.{[], ◌∷◌}
use native.Mathlib.Omega.{arith}
use text.Mathlib.Text.{◌==◌}
use text.Mathlib.TextEquality.{eq_iff}
use authz_plane.Common.Tests.{Bool-cases}
use authz_plane.Common.Lists.{length}
use authz_plane.Common.Dict.{Dict, get, set, delete, get-set, get-delete}

module _ {ℓ} {V : Type ℓ} where
  -- No key stands twice.
  pub data IsKeyed : Dict V → Type ℓ where
    empty : IsKeyed []
    entry : {k : String} {v : V} {m : Dict V} → get k m ≡ none → IsKeyed m → IsKeyed ((k, v) ∷ m)

  pub set-IsKeyed : (k : String) (v : V) (m : Dict V) → IsKeyed m → IsKeyed (set k v m)
  unfolding set get
  set-IsKeyed k v [] d = IsKeyed.entry refl IsKeyed.empty
  set-IsKeyed k v ((j, w) ∷ m) (IsKeyed.entry e d) = elim (Bool-cases (j == k)) [
    | inl here ↦ rw here (IsKeyed.entry e d)
    | inr there ↦
        let apart : get j (set k v m) ≡ none =
          ground (arith, get-set k j v m, eq_iff j k, eq_iff k j) in
        rw there (IsKeyed.entry apart (set-IsKeyed k v m d))
  ]

  pub delete-IsKeyed : (k : String) (m : Dict V) → IsKeyed m → IsKeyed (delete k m)
  unfolding delete
  delete-IsKeyed k [] d = d
  delete-IsKeyed k ((j, w) ∷ m) (IsKeyed.entry e d) = elim (Bool-cases (j == k)) [
    | inl here ↦ rw here (delete-IsKeyed k m d)
    | inr there ↦
        let apart : get j (delete k m) ≡ none = ground (arith, get-delete k j m) in
        rw there (IsKeyed.entry apart (delete-IsKeyed k m d))
  ]

  pub length-set :
      (k : String) (v : V) (m : Dict V)
      → length (set k v m) ≡ length m + (elim (get k m) [ none ↦ 1 | some w ↦ 0 ])
  unfolding set get
  length-set k v [] = refl
  length-set k v ((j, w) ∷ m) = ground (arith, length-set k v m)

  -- Deleting what is not there.
  delete-missing : (k : String) (m : Dict V) → get k m ≡ none → delete k m ≡ m
  unfolding get delete
  delete-missing k [] h = refl
  delete-missing k ((j, w) ∷ m) h = ground (arith, delete-missing k m)

  pub length-delete :
      (k : String) (v : V) (m : Dict V)
      → IsKeyed m
      → get k m ≡ some v
      → length (delete k m) + 1 ≡ length m
  unfolding get delete
  length-delete k v [] d h = ground arith
  length-delete k v ((j, w) ∷ m) (IsKeyed.entry e d) h = elim (Bool-cases (j == k)) [
    | inl here ↦
        let gone : get k m ≡ none = subst (λ x. get x m ≡ none) ((eq_iff j k).0 here) e in
        ground (arith, here, delete-missing k m gone)
    | inr there ↦ ground (arith, there, length-delete k v m d)
  ]
