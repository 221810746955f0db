-- ===== src/Resolver/Keeps.antt =====
-- The mark of the depth cap, once set, stays set; and what a list of calls grants, where it is not set
-- at the end.
use authz_plane.Common.{
  ℕ, ◌+◌, String, List, [], ◌∷◌, Bool, true, false, ◌≡◌, refl, arith, any, Memᴰ, or-true_right,
  subst,
}
use authz_plane.Resolver.Model.{
  TupleToUserset, RelationDef, AuthorizationModel, StoredTuple, ExplainVia, direct, ExplainNode,
  Ctx, depth_cap, def_of, grants,
}
use authz_plane.Resolver.Model
use authz_plane.Resolver.Evaluate.{
  visit, map_ctx, direct_leaf, targets, via_tupleset, direct_branch, expand,
}
use authz_plane.Resolver.Iterate.{map_ctx_complete}
use authz_plane.Resolver.Expand.{at_direct, at_computed, at_through}

-- What a context must satisfy at the end: with `strict` the cap may not have been hit.
abbrev pub Clear : Bool → Ctx → Type 0
Clear true c = c.depth_cap_hit ≡ false
Clear false c = Unit

abbrev pub Call : Type 0
Call = Ctx → ExplainNode × Ctx

-- A call never takes the mark of the cap away.
abbrev pub Keeps : Call → Type 0
Keeps f = (c : Ctx) → (f c).1.depth_cap_hit ≡ false → c.depth_cap_hit ≡ false

map_ctx-Keeps :
    {A : Type 0} (f : A → Call) (xs : List A)
    → ((x : A) → Keeps (f x))
    → (c : Ctx) → (map_ctx f xs c).1.depth_cap_hit ≡ false
    → c.depth_cap_hit ≡ false
unfolding map_ctx
map_ctx-Keeps f [] k c h = h
map_ctx-Keeps f (x ∷ xs) k c h = k x c (map_ctx-Keeps f xs k (f x c).1 h)

-- The part of a list of calls that comes before, and the call for a member.
map_ctx_strict :
    {A : Type 0} (f : A → Call) (x : A) (xs : List A)
    → ((y : A) → Keeps (f y))
    → Memᴰ x xs
    → ((c : Ctx) → (f x c).1.depth_cap_hit ≡ false → grants (f x c).0 ≡ true)
    → (c : Ctx) → (map_ctx f xs c).1.depth_cap_hit ≡ false
    → any grants (map_ctx f xs c).0 ≡ true
unfolding map_ctx
map_ctx_strict f x [] k m g c h = elim m [ ]
map_ctx_strict f x (y ∷ xs) k (Memᴰ.head e) g c h =
    let here = subst (λ z. (f z c).1.depth_cap_hit ≡ false → grants (f z c).0 ≡ true) e (g c) in
    rw (here (map_ctx-Keeps f xs k (f y c).1 h)) refl
map_ctx_strict f x (y ∷ xs) k (Memᴰ.tail m) g c h =
    or-true_right _ _ (map_ctx_strict f x xs k m g (f y c).1 h)

-- Both ways at once.
pub map_ctx_flagged :
    (strict : Bool) {A : Type 0} (f : A → Call) (x : A) (xs : List A)
    → ((y : A) → Keeps (f y))
    → Memᴰ x xs
    → ((c : Ctx) → Clear strict (f x c).1 → grants (f x c).0 ≡ true)
    → (c : Ctx) → Clear strict (map_ctx f xs c).1
    → any grants (map_ctx f xs c).0 ≡ true
map_ctx_flagged true f x xs k m g c h = map_ctx_strict f x xs k m g c h
map_ctx_flagged false f x xs k m g c h = map_ctx_complete f x xs m (λ c'. g c' tt) c

abbrev pub Go : Type 0
Go = String → String → ℕ → ExplainVia → Call

abbrev pub GoKeeps : Go → Type 0
GoKeeps go = (o r : String) (depth : ℕ) (via : ExplainVia) → Keeps (go o r depth via)

module _ (model : AuthorizationModel) (tuples : List StoredTuple) (provenance : Bool)
    (user : String) where
  pub direct_leaf-Keeps : GoKeeps (direct_leaf model tuples provenance user)
  unfolding direct_leaf
  direct_leaf-Keeps o r depth via c h = ground arith

  direct_branch-Keeps :
      (b : Bool) (o r : String) (depth : ℕ) (c : Ctx)
      → (direct_branch model tuples provenance user b o r depth c).1.depth_cap_hit ≡ false
      → c.depth_cap_hit ≡ false
  unfolding direct_branch
  direct_branch-Keeps true o r depth c h = direct_leaf-Keeps o r (depth + 1) direct c h
  direct_branch-Keeps false o r depth c h = h

  module _ (go : Go) (k : GoKeeps go) where
    pub via_tupleset-Keeps :
        (o : String) (depth : ℕ) (ttu : TupleToUserset)
        → Keeps (via_tupleset model tuples provenance user go o depth ttu)
    unfolding via_tupleset
    via_tupleset-Keeps o depth ttu c h =
        map_ctx-Keeps (λ target. go target ttu.relation (depth + 2) direct)
          (targets model tuples provenance user o ttu.tupleset)
          (λ target. k target ttu.relation (depth + 2) direct) (visit (depth + 1) c) h

    module _ (def : RelationDef) (o r : String) (depth : ℕ) (c : Ctx) where
      abbrev pub ds : List ExplainNode × Ctx
      ds = at_direct model tuples provenance user go def o r depth c

      abbrev pub cs : List ExplainNode × Ctx
      cs = at_computed model tuples provenance user go def o r depth c

      abbrev pub ts : List ExplainNode × Ctx
      ts = at_through model tuples provenance user go def o r depth c

      pub through-Keeps : ts.1.depth_cap_hit ≡ false → cs.1.depth_cap_hit ≡ false
      through-Keeps h =
          map_ctx-Keeps (via_tupleset model tuples provenance user go o depth) def.tuple_to_userset
            (via_tupleset-Keeps o depth) cs.1 h

      pub computed-Keeps : cs.1.depth_cap_hit ≡ false → ds.1.depth_cap_hit ≡ false
      computed-Keeps h =
          map_ctx-Keeps (λ other. go o other (depth + 1) Model.computed) def.computed
            (λ other. k o other (depth + 1) Model.computed) ds.1 h

      pub expand-Keeps :
          (via : ExplainVia)
          → (expand model tuples provenance user go def o r depth via c).1.depth_cap_hit ≡ false
          → c.depth_cap_hit ≡ false
      unfolding expand
      expand-Keeps via h =
          direct_branch-Keeps def.direct o r depth (visit depth c)
            (computed-Keeps (through-Keeps h))
