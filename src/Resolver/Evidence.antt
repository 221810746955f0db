-- ===== src/Resolver/Evidence.antt =====
-- The decisive tuple: every allowed answer names a stored tuple of the user who is asked about.
use authz_plane.Common.{
  ℕ, String, some, List, [], ◌∷◌, true, ◌≡◌, inl, inr, refl, ◌∙◌, arith, any, Memᴰ, Option-cases,
  is_some, or-cases, subst,
}
use mathlib.Core.Option.{some-injective}
use authz_plane.Resolver.Model.{StoredTuple, ExplainNode, DecisiveTuple, Ctx, grants}
use authz_plane.Resolver.Evaluate.{visit, decide, map_ctx, is_tuple, tuple_text}
use authz_plane.Resolver.Expand.{is_tuple_sound}
use authz_plane.Resolver.Keeps.{Call}

module _ (tuples : List StoredTuple) (user : String) where
  -- `d` is the copy of a stored tuple by which `user` holds `relation` on `object`.
  pub record Attests (d : DecisiveTuple) (object relation : String) : Type 0 where
    pub tuple : StoredTuple
    pub listed : Memᴰ tuple tuples
    pub on : tuple.object ≡ object
    pub by : tuple.relation ≡ relation
    pub to : tuple.user ≡ user
    pub node : d.node ≡ tuple_text object relation user
    pub id : d.tuple_id ≡ tuple.tuple_id
    pub at : d.written_at ≡ tuple.written_at
    pub writer : d.written_by ≡ tuple.written_by
    pub audited : d.audit_event_id ≡ tuple.audit_event_id

  -- The context names a stored tuple, if it names any.
  pub record IsHonest (c : Ctx) : Type 0 where
    pub decisive :
        (d : DecisiveTuple) → c.decisive ≡ some d → Attests d c.decisive_object c.decisive_relation

  pub record Attributes (f : Call) : Type 0 where
    pub keeps : (c : Ctx) → IsHonest c → IsHonest (f c).1
    pub stays : (c : Ctx) → is_some c.decisive ≡ true → is_some (f c).1.decisive ≡ true
    pub names : (c : Ctx) → grants (f c).0 ≡ true → is_some (f c).1.decisive ≡ true

  pub IsHonest-visit : (depth : ℕ) (c : Ctx) → IsHonest c → IsHonest (visit depth c)
  IsHonest-visit depth c h = record { decisive = h.decisive }

  -- The same for a list of calls.
  pub record AttributesAll (f : Ctx → List ExplainNode × Ctx) : Type 0 where
    pub keeps : (c : Ctx) → IsHonest c → IsHonest (f c).1
    pub stays : (c : Ctx) → is_some c.decisive ≡ true → is_some (f c).1.decisive ≡ true
    pub names : (c : Ctx) → any grants (f c).0 ≡ true → is_some (f c).1.decisive ≡ true

  map_ctx-Keeps :
      {A : Type 0} (f : A → Call) (xs : List A)
      → ((x : A) → Attributes (f x))
      → (c : Ctx) → IsHonest c
      → IsHonest (map_ctx f xs c).1
  unfolding map_ctx
  map_ctx-Keeps f [] a c h = h
  map_ctx-Keeps f (x ∷ xs) a c h = map_ctx-Keeps f xs a (f x c).1 ((a x).keeps c h)

  map_ctx_stays :
      {A : Type 0} (f : A → Call) (xs : List A)
      → ((x : A) → Attributes (f x))
      → (c : Ctx) → is_some c.decisive ≡ true
      → is_some (map_ctx f xs c).1.decisive ≡ true
  unfolding map_ctx
  map_ctx_stays f [] a c h = h
  map_ctx_stays f (x ∷ xs) a c h = map_ctx_stays f xs a (f x c).1 ((a x).stays c h)

  map_ctx-names :
      {A : Type 0} (f : A → Call) (xs : List A)
      → ((x : A) → Attributes (f x))
      → (c : Ctx) → any grants (map_ctx f xs c).0 ≡ true
      → is_some (map_ctx f xs c).1.decisive ≡ true
  unfolding map_ctx
  map_ctx-names f [] a c h = cc
  map_ctx-names f (x ∷ xs) a c h = elim (or-cases _ _ h) [
    | inl here ↦ map_ctx_stays f xs a (f x c).1 ((a x).names c here)
    | inr there ↦ map_ctx-names f xs a (f x c).1 there
  ]

  pub map_ctx-Attributes :
      {A : Type 0} (f : A → Call) (xs : List A)
      → ((x : A) → Attributes (f x))
      → AttributesAll (map_ctx f xs)
  map_ctx-Attributes f xs a = record {
    keeps = map_ctx-Keeps f xs a;
    stays = map_ctx_stays f xs a;
    names = map_ctx-names f xs a;
  }

  pub IsHonest-decide :
      (o r : String) (t : StoredTuple) (c : Ctx)
      → Memᴰ t tuples
      → is_tuple o r user t ≡ true
      → IsHonest c
      → IsHonest (decide o r user t c)
  IsHonest-decide o r t c m test h = elim (Option-cases c.decisive) [
    | inr (d, e) ↦ rw e (record { decisive = λ d' e'. h.decisive d' (e ∙ e') })
    | inl e ↦
        let (p, q, u) = is_tuple_sound o r user t test in
        rw e (record {
          decisive = λ d' e'.
              subst (λ x. Attests x o r) (some-injective _ _ e')
                (record {
                  tuple = t;
                  listed = m;
                  on = p;
                  by = q;
                  to = u;
                  node = refl;
                  id = refl;
                  at = refl;
                  writer = refl;
                  audited = refl;
                });
        })
  ]

  pub decide-names :
      (o r : String) (t : StoredTuple) (c : Ctx) → is_some (decide o r user t c).decisive ≡ true
  decide-names o r t c = ground arith
