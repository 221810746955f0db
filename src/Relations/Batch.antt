-- ===== src/Relations/Batch.antt =====
-- What a batch does to the set of tuples that a store holds.
use authz_plane.Common.{
  ℕ, ◌+◌, String, List, [], ◌∷◌, ◌++◌, Bool, true, not, ◌||◌, ◌&&◌, any, ◌≡◌, refl, ap, subst,
  eq_iff, eq_refl, arith, Bool-cases, any-append, inl, inr,
}
use authz_plane.Relations.Model.{Tuple, TupleInput, input_of, same_tuple}
use authz_plane.Relations.Write.{holds, is_hit, delete_tuples, new_tuple, write_tuples}

abbrev pub names : List TupleInput → TupleInput → Bool
names ts t = any (λ d. same_tuple d t) ts

pub same_tuple-eq : (a b : TupleInput) → same_tuple a b ≡ true → a ≡ b
unfolding same_tuple
same_tuple-eq a b h =
    let u : a.user ≡ b.user = ground (arith, eq_iff a.user b.user) in
    let r : a.relation ≡ b.relation = ground (arith, eq_iff a.relation b.relation) in
    let o : a.object ≡ b.object = ground (arith, eq_iff a.object b.object) in cc

pub same_tuple_refl : (a : TupleInput) → same_tuple a a ≡ true
unfolding same_tuple
same_tuple_refl a = rw (eq_refl a.user, eq_refl a.relation, eq_refl a.object)

pub same_tuple_sym : (a b : TupleInput) → same_tuple a b ≡ same_tuple b a
unfolding same_tuple
same_tuple_sym a b = ground (
  arith,
  eq_iff a.user b.user,
  eq_iff b.user a.user,
  eq_iff a.relation b.relation,
  eq_iff b.relation a.relation,
  eq_iff a.object b.object,
  eq_iff b.object a.object,
)

pub write_tuples-holds :
    (now : String) (ws : List TupleInput) (items : List Tuple) (seq n : ℕ) (t : TupleInput)
    → holds t (write_tuples now ws items seq n).0 ≡ (holds t items || names ws t)
unfolding write_tuples
write_tuples-holds now [] items seq n t = ground arith
write_tuples-holds now (w ∷ ws) items seq n t = elim (Bool-cases (holds w items)) [
  | inl here ↦ elim (Bool-cases (same_tuple w t)) [
    | inl same ↦
        let q : holds t items ≡ true =
          subst (λ x. holds x items ≡ true) (same_tuple-eq w t same) here in
        ground (arith, q, here, write_tuples-holds now ws items seq n t)
    | inr other ↦ ground (arith, other, here, write_tuples-holds now ws items seq n t)
  ]
  | inr new ↦
      let added = new_tuple seq now w ∷ [] in
      ground (
        arith,
        new,
        any-append (λ e. same_tuple (input_of e) t) items added,
        write_tuples-holds now ws (items ++ added) (seq + 1) (n + 1) t,
      )
]

pub delete_tuples-holds :
    (ds : List TupleInput) (items : List Tuple) (t : TupleInput)
    → holds t (delete_tuples ds items).0 ≡ (holds t items && not (names ds t))
unfolding delete_tuples
delete_tuples-holds ds [] t = refl
delete_tuples-holds ds (e ∷ items) t = elim (Bool-cases (same_tuple (input_of e) t)) [
  | inl here ↦
      let q : is_hit ds e ≡ names ds t = ap (names ds) (same_tuple-eq (input_of e) t here) in
      ground (arith, q, here, delete_tuples-holds ds items t)
  | inr other ↦ ground (arith, other, delete_tuples-holds ds items t)
]
