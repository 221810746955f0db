-- ===== src/Relations/Allowed.antt =====
-- What a batch may hold, said without the loops and tests of `writeRelations`.
use authz_plane.Common.{
  any-false_iff, all_iff, any_sound, any_complete, String, List, [], ◌∷◌, ◌++◌, Bool, true, false,
  ◌==◌, any, all, find, some, none, Memᴰ, ◌≡◌, ◌≢◌, ◌⊎◌, ◌↔◌, inl, inr, Bool-cases, eq_iff,
  or-cases, or-true_left, or-true_right,
}
use text.Mathlib.TextEquality.{starts_with_iff}
use text.Mathlib.TextBridge.{IsPrefix}
use authz_plane.Dsl.Types.{ParsedModel, TypeDef, RelationDef}
use authz_plane.Relations.Model.{TupleInput, WriteRequest}
use authz_plane.Relations.Write.{is_reserved, type_name, has_relation, in_model}

-- The object or the user of the tuple begins with `platform:`.
abbrev pub IsReserved : TupleInput → Type 0
IsReserved t = IsPrefix "platform:" t.object ⊎ IsPrefix "platform:" t.user

-- The first type of the name has a relation of the name.
pub data Defines (type relation : String) : List TypeDef → Type 0 where
  here :
      {t : TypeDef} {ts : List TypeDef}
      → t.name ≡ type
      → (r : RelationDef) → Memᴰ r t.relations
      → r.name ≡ relation
      → Defines type relation (t ∷ ts)
  there :
      {t : TypeDef} {ts : List TypeDef}
      → t.name ≢ type
      → Defines type relation ts
      → Defines type relation (t ∷ ts)

-- No tuple of the batch is reserved, and the model defines the relation of every tuple to be written
-- on the type of its object.
pub record IsAllowed (model : ParsedModel) (req : WriteRequest) : Type 0 where
  pub free : (t : TupleInput) → Memᴰ t (req.writes ++ req.deletes) → ¬ IsReserved t
  pub defined : (w : TupleInput) → Memᴰ w req.writes → Defines (type_name w) w.relation model.types

is_reserved_iff : (t : TupleInput) → (is_reserved t ≡ true) ↔ IsReserved t
is_reserved_iff t =
    let o = starts_with_iff t.object "platform:" in
    let u = starts_with_iff t.user "platform:" in
    (
      λ h. elim (or-cases _ _ h) [ inl a ↦ inl (o.0 a) | inr b ↦ inr (u.0 b) ],
      λ h. elim h [ inl a ↦ or-true_left _ _ (o.1 a) | inr b ↦ or-true_right _ _ (u.1 b) ],
    )

abbrev in_types : List TypeDef → TupleInput → Bool
in_types ts w = elim (find (λ (t : TypeDef). t.name == type_name w) ts) [
  | none ↦ false
  | some type ↦ has_relation type w.relation
]

has_relation_iff :
    (t : TypeDef) (relation : String)
    → (has_relation t relation ≡ true)
      ↔ ((r : RelationDef) × Memᴰ r t.relations × (r.name ≡ relation))
has_relation_iff t relation = (
  λ h.
      let (r, m, e) = any_sound (λ (r : RelationDef). r.name == relation) t.relations h in
      (r, m, (eq_iff r.name relation).0 e),
  λ (r, m, e).
      any_complete (λ (r : RelationDef). r.name == relation) t.relations r m
        ((eq_iff r.name relation).1 e),
)

in_types-Defines :
    (w : TupleInput) (ts : List TypeDef)
    → in_types ts w ≡ true
    → Defines (type_name w) w.relation ts
in_types-Defines w [] h = cc
in_types-Defines w (t ∷ ts) h = elim (Bool-cases (t.name == type_name w)) [
  | inl same ↦
      let (r, m, e) = (has_relation_iff t w.relation).0 (rw (in_types, same) at h) in
      Defines.here ((eq_iff t.name (type_name w)).0 same) r m e
  | inr other ↦
      Defines.there (λ e. let k = (eq_iff t.name (type_name w)).1 e in cc)
        (in_types-Defines w ts (rw (in_types, other) at h))
]

Defines-in_types :
    (w : TupleInput) (ts : List TypeDef)
    → Defines (type_name w) w.relation ts
    → in_types ts w ≡ true
Defines-in_types w [] d = elim d [ ]
Defines-in_types w (t ∷ ts) (Defines.here named r m e) =
    rw (in_types, (eq_iff t.name (type_name w)).1 named)
      ((has_relation_iff t w.relation).1 (r, m, e))
Defines-in_types w (t ∷ ts) (Defines.there other d) = elim (Bool-cases (t.name == type_name w)) [
  | inl same ↦ absurd (other ((eq_iff t.name (type_name w)).0 same))
  | inr apart ↦ rw (in_types, apart) (Defines-in_types w ts d)
]

-- The tests of `writeRelations` are the two conditions.
pub IsAllowed-iff :
    (model : ParsedModel) (req : WriteRequest)
    → ((any is_reserved (req.writes ++ req.deletes) ≡ false)
        × (all (in_model model) req.writes ≡ true))
      ↔ IsAllowed model req
IsAllowed-iff model req = (
  λ (free, defined). record {
    free = λ t m r.
        let clear = (any-false_iff is_reserved (req.writes ++ req.deletes)).0 free t m in
        let hit = (is_reserved_iff t).1 r in cc;
    defined =
        λ w m. in_types-Defines w model.types ((all_iff (in_model model) req.writes).0 defined w m);
  },
  λ a. (
    (any-false_iff is_reserved (req.writes ++ req.deletes)).1 (λ t m.
        elim (Bool-cases (is_reserved t)) [
          | inl hit ↦ absurd (a.free t m ((is_reserved_iff t).0 hit))
          | inr clear ↦ clear
        ]),
    (all_iff (in_model model) req.writes).1 (λ w m. Defines-in_types w model.types (a.defined w m)),
  ),
)
