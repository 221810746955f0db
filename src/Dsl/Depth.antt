-- ===== src/Dsl/Depth.antt =====
-- The relations that a relation is rewritten to are relations of the model.
use authz_plane.Common.{
  String, some, List, [], ◌∷◌, ◌++◌, ◌≡◌, refl, ◌∙◌, sym, subst, arith, map, Memᴰ, Option-cases,
  inl, inr, mem-cons_cases, mem-map, find_sound,
}
use authz_plane.Dsl.Types.{TupleToUserset, RelationDef, TypeDef}
use authz_plane.Dsl.References.{base_of, type_by_name, rel_of}
use authz_plane.Dsl.Summary.{
  Target, same_type_targets, via_targets, rewrite_targets, rewrites_of, all_relations,
}

mem-append_left : {A : Type 0} {x : A} (xs ys : List A) → Memᴰ x xs → Memᴰ x (xs ++ ys)
mem-append_left [] ys m = elim m [ ]
mem-append_left (z ∷ xs) ys (Memᴰ.head e) = Memᴰ.head e
mem-append_left (z ∷ xs) ys (Memᴰ.tail m) = Memᴰ.tail (mem-append_left xs ys m)

mem-append_right : {A : Type 0} {x : A} (xs ys : List A) → Memᴰ x ys → Memᴰ x (xs ++ ys)
mem-append_right [] ys m = m
mem-append_right (z ∷ xs) ys m = Memᴰ.tail (mem-append_right xs ys m)

-- Of the model: the type is one of its types and the relation one of the type's.
abbrev pub Known : List TypeDef → Target → Type 0
Known types (type, rel) = Memᴰ type types × Memᴰ rel type.relations

abbrev pub AllKnown : List TypeDef → List Target → Type 0
AllKnown types targets = (t : Target) → Memᴰ t targets → Known types t

type_by_name-mem :
    (name : String) (types : List TypeDef) (t : TypeDef)
    → type_by_name name types ≡ some t
    → Memᴰ t types
unfolding type_by_name
type_by_name-mem name [] t h = cc
type_by_name-mem name (u ∷ types) t h = elim (Option-cases (type_by_name name types)) [
  | inl missing ↦ Memᴰ.head (ground (arith, missing))
  | inr (v, found) ↦ Memᴰ.tail (type_by_name-mem name types t (found ∙ ground (arith, found)))
]

module _ (types : List TypeDef) where
  add-Known :
      (t : Target) (ts : List Target) → Known types t → AllKnown types ts → AllKnown types (t ∷ ts)
  add-Known t ts k ks u m = elim (mem-cons_cases m) [
    | inl e ↦ subst (Known types) (sym e) k
    | inr m' ↦ ks u m'
  ]

  rel_of-Known :
      (type : TypeDef) (name : String) (rel : RelationDef)
      → Memᴰ type types
      → rel_of type name ≡ some rel
      → Known types (type, rel)
  rel_of-Known type name rel m found = (m, (find_sound _ type.relations found).0)

  same_type_known :
      (type : TypeDef) (cs : List String)
      → Memᴰ type types
      → AllKnown types (same_type_targets type cs)
  same_type_known type [] m = λ t k. elim k [ ]
  same_type_known type (c ∷ cs) m = elim (Option-cases (rel_of type c)) [
    | inl missing ↦ rw (same_type_targets, missing) (same_type_known type cs m)
    | inr (rel, found) ↦
        rw (same_type_targets, found)
          (add-Known (type, rel) _ (rel_of-Known type c rel m found) (same_type_known type cs m))
  ]

  via_known :
      (relation : String) (ds : List String) → AllKnown types (via_targets types relation ds)
  via_known relation [] = λ t k. elim k [ ]
  via_known relation (d ∷ ds) = elim (Option-cases (type_by_name (base_of d) types)) [
    | inl missing ↦ rw (via_targets, missing) (via_known relation ds)
    | inr (type, found) ↦ elim (Option-cases (rel_of type relation)) [
      | inl missing ↦ rw (via_targets, found, missing) (via_known relation ds)
      | inr (rel, there) ↦
          rw (via_targets, found, there)
            (add-Known (type, rel) _
              (rel_of-Known type relation rel (type_by_name-mem (base_of d) types type found) there)
              (via_known relation ds))
    ]
  ]

  append_known :
      (ts us : List Target) → AllKnown types ts → AllKnown types us → AllKnown types (ts ++ us)
  append_known [] us k l = l
  append_known (t ∷ ts) us k l =
      add-Known t (ts ++ us) (k t (Memᴰ.head refl))
        (append_known ts us (λ u m. k u (Memᴰ.tail m)) l)

  rewrites_known :
      (type : TypeDef) (ttus : List TupleToUserset)
      → AllKnown types (rewrite_targets types type ttus)
  rewrites_known type [] = λ t k. elim k [ ]
  rewrites_known type (ttu ∷ ttus) = elim (Option-cases (rel_of type ttu.via)) [
    | inl missing ↦ rw (rewrite_targets, missing) (rewrites_known type ttus)
    | inr (via, found) ↦
        rw (rewrite_targets, found)
          (append_known (via_targets types ttu.relation via.direct) _
            (via_known ttu.relation via.direct) (rewrites_known type ttus))
  ]

  pub rewrites_of-Known :
      (type : TypeDef) (rel : RelationDef)
      → Memᴰ type types
      → AllKnown types (rewrites_of types type rel)
  unfolding rewrites_of
  rewrites_of-Known type rel m =
      append_known (same_type_targets type rel.computed) _ (same_type_known type rel.computed m)
        (rewrites_known type rel.tuple_to_userset)

  relations_known :
      (type : TypeDef) (rels : List RelationDef)
      → Memᴰ type types
      → ((rel : RelationDef) → Memᴰ rel rels → Memᴰ rel type.relations)
      → AllKnown types (map (λ (r : RelationDef). (type, r)) rels)
  relations_known type [] m h = λ t k. elim k [ ]
  relations_known type (r ∷ rels) m h =
      add-Known (type, r) _ (m, h r (Memᴰ.head refl))
        (relations_known type rels m (λ rel n. h rel (Memᴰ.tail n)))

  part_known :
      (part : List TypeDef)
      → ((t : TypeDef) → Memᴰ t part → Memᴰ t types)
      → AllKnown types (all_relations part)
  part_known [] h = λ t k. elim k [ ]
  part_known (t ∷ part) h =
      append_known (map (λ (r : RelationDef). (t, r)) t.relations) _
        (relations_known t t.relations (h t (Memᴰ.head refl)) (λ rel n. n))
        (part_known part (λ u m. h u (Memᴰ.tail m)))

pub all_relations-Known : (types : List TypeDef) → AllKnown types (all_relations types)
all_relations-Known types = part_known types types (λ t m. m)

pub all_relations_mem :
    (types : List TypeDef) (type : TypeDef) (rel : RelationDef)
    → Known types (type, rel)
    → Memᴰ (type, rel) (all_relations types)
all_relations_mem [] type rel (m, n) = elim m [ ]
all_relations_mem (t ∷ types) type rel (m, n) = elim (mem-cons_cases m) [
  | inl e ↦ mem-append_left _ _ (
      subst
        (λ (u : TypeDef).
          Memᴰ {A = Target} (type, rel) (map (λ (r : RelationDef). (u, r)) u.relations))
        e (mem-map (λ (r : RelationDef). (type, r)) n))
  | inr m' ↦ mem-append_right _ _ (all_relations_mem types type rel (m', n))
]
