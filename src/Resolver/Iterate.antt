-- ===== src/Resolver/Iterate.antt =====
-- What a `map` that threads the context grants, and what `find` and `filter` return.
use authz_plane.Common.{
  or-cases, or-true_right, List, [], ◌∷◌, Bool, true, false, ◌≡◌, inl, inr, refl, any, subst, sym,
  Memᴰ,
}
use authz_plane.Resolver.Model.{ExplainNode, Ctx, grants, is_allowed, result_of}
use authz_plane.Resolver.Evaluate.{map_ctx}

pub is_allowed-result_of : (b : Bool) → is_allowed (result_of b) ≡ b
is_allowed-result_of true = refl
is_allowed-result_of false = refl

module _ {A : Type 0} (f : A → Ctx → ExplainNode × Ctx) where
  -- If some node is granted, the member that it comes from is one for which `P` holds.
  pub map_ctx_sound :
      (P : A → Type 0)
      → ((x : A) (c : Ctx) → grants (f x c).0 ≡ true → P x)
      → (xs : List A) (c : Ctx) → any grants (map_ctx f xs c).0 ≡ true
      → (x : A) × Memᴰ x xs × P x
  unfolding map_ctx
  map_ctx_sound P s [] c h = cc
  map_ctx_sound P s (x ∷ xs) c h = elim (or-cases _ _ h) [
    | inl here ↦ (x, Memᴰ.head refl, s x c here)
    | inr there ↦ let (y, m, p) = map_ctx_sound P s xs (f x c).1 there in (y, Memᴰ.tail m, p)
  ]

  pub map_ctx_complete :
      (x : A) (xs : List A)
      → Memᴰ x xs
      → ((c : Ctx) → grants (f x c).0 ≡ true)
      → (c : Ctx) → any grants (map_ctx f xs c).0 ≡ true
  unfolding map_ctx
  map_ctx_complete x [] m k c = elim m [ ]
  map_ctx_complete x (y ∷ xs) (Memᴰ.head e) k c =
      subst
        (λ z. ((c' : Ctx) → grants (f z c').0 ≡ true) → any grants (map_ctx f (y ∷ xs) c).0 ≡ true)
        (sym e) (λ k'. rw (k' c) refl) k
  map_ctx_complete x (y ∷ xs) (Memᴰ.tail m) k c =
      or-true_right _ _ (map_ctx_complete x xs m k (f y c).1)
