-- ===== src/Resolver/Grants.antt =====
-- What the resolver decides, stated with no recursion of its own: a derivation that a user holds a
-- relation, by a stored tuple, by a computed userset or through a tupleset.
use authz_plane.Common.{ℕ, suc, String, some, List, true, ◌≡◌, Memᴰ}
use authz_plane.Resolver.Model.{
  TupleToUserset, RelationDef, AuthorizationModel, StoredTuple, def_of,
}

module _ (model : AuthorizationModel) (tuples : List StoredTuple) (user : String) where
  -- A derivation that needs at most `n` levels: a computed userset costs one, a tupleset two.
  pub data Grants : ℕ → String → String → Type 0 where
    stored :
        {n : ℕ} {object relation : String} (def : RelationDef) (t : StoredTuple)
        → def_of model object relation ≡ some def
        → def.direct ≡ true
        → Memᴰ t tuples
        → t.object ≡ object
        → t.relation ≡ relation
        → t.user ≡ user
        → Grants (suc n) object relation
    computed :
        {n : ℕ} {object relation : String} (def : RelationDef) (other : String)
        → def_of model object relation ≡ some def
        → Memᴰ other def.computed
        → Grants n object other
        → Grants (suc n) object relation
    through :
        {n : ℕ} {object relation : String} (def : RelationDef) (ttu : TupleToUserset)
        (t : StoredTuple)
        → def_of model object relation ≡ some def
        → Memᴰ ttu def.tuple_to_userset
        → Memᴰ t tuples
        → t.object ≡ object
        → t.relation ≡ ttu.tupleset
        → Grants n t.user ttu.relation
        → Grants (suc (suc n)) object relation
