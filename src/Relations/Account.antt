-- ===== src/Relations/Account.antt =====
-- How a batch counts, and that it keeps the store's tuples distinct.
use authz_plane.Common.{
  ℕ, ◌+◌, String, List, [], ◌∷◌, ◌++◌, false, length, ◌≡◌, refl, inl, inr, arith, Bool-cases,
  any-append, length-append,
}
use authz_plane.Common.Int.{◌+ℤ◌, pos, difference-balance}
use authz_plane.Relations.Model.{Tuple, TupleInput, input_of, WriteRequest, Store, same_tuple}
use authz_plane.Relations.Write.{holds, is_hit, delete_tuples, new_tuple, write_tuples, apply_batch}
use authz_plane.Relations.Batch.{same_tuple_sym, delete_tuples-holds}

-- No two tuples agree in user, relation and object.
pub data Distinct : List Tuple → Type 0 where
  none_left : Distinct []
  one_more :
      {t : Tuple} {ts : List Tuple}
      → holds (input_of t) ts ≡ false
      → Distinct ts
      → Distinct (t ∷ ts)

length-delete_tuples :
    (ds : List TupleInput) (items : List Tuple)
    → length (delete_tuples ds items).0 + (delete_tuples ds items).1 ≡ length items
unfolding delete_tuples
length-delete_tuples ds [] = refl
length-delete_tuples ds (e ∷ items) = ground (arith, length-delete_tuples ds items)

length-write_tuples :
    (now : String) (ws : List TupleInput) (items : List Tuple) (seq n : ℕ)
    → length (write_tuples now ws items seq n).0 + n
      ≡ length items + (write_tuples now ws items seq n).2
unfolding write_tuples
length-write_tuples now [] items seq n = refl
length-write_tuples now (w ∷ ws) items seq n =
    let added = new_tuple seq now w ∷ [] in
    ground (
      arith,
      length-append items added,
      length-write_tuples now ws items seq n,
      length-write_tuples now ws (items ++ added) (seq + 1) (n + 1),
    )

pub apply_batch-total :
    (now : String) (req : WriteRequest) (store : Store)
    → (length (apply_batch now req store).1.items + (apply_batch now req store).0.deleted
        ≡ length store.items + (apply_batch now req store).0.written)
      × ((apply_batch now req store).1.total +ℤ pos (length store.items)
          ≡ store.total +ℤ pos (length (apply_batch now req store).1.items))
unfolding apply_batch
apply_batch-total now req store =
    let (kept, deleted) = delete_tuples req.deletes store.items in
    let l = length-delete_tuples req.deletes store.items in
    let w = length-write_tuples now req.writes kept store.seq 0 in
    (
      omega arith,
      difference-balance store.total (length store.items)
          (length (apply_batch now req store).1.items) (apply_batch now req store).0.written deleted
          (omega arith),
    )

delete_tuples-Distinct :
    (ds : List TupleInput) (items : List Tuple)
    → Distinct items
    → Distinct (delete_tuples ds items).0
unfolding delete_tuples
delete_tuples-Distinct ds [] d = d
delete_tuples-Distinct ds (e ∷ items) (Distinct.one_more h d) = elim (Bool-cases (is_hit ds e)) [
  | inl hit ↦ rw hit (delete_tuples-Distinct ds items d)
  | inr miss ↦
      let h' : holds (input_of e) (delete_tuples ds items).0 ≡ false =
        ground (arith, h, delete_tuples-holds ds items (input_of e)) in
      rw miss (Distinct.one_more h' (delete_tuples-Distinct ds items d))
]

append-Distinct :
    (items : List Tuple) (t : Tuple)
    → Distinct items
    → holds (input_of t) items ≡ false
    → Distinct (items ++ (t ∷ []))
append-Distinct [] t d h = Distinct.one_more refl d
append-Distinct (e ∷ items) t (Distinct.one_more k d) h =
    let apart : holds (input_of e) (items ++ (t ∷ [])) ≡ false = ground (
      arith,
      k,
      h,
      same_tuple_sym (input_of t) (input_of e),
      any-append (λ x. same_tuple (input_of x) (input_of e)) items (t ∷ []),
    ) in
    Distinct.one_more apart (append-Distinct items t d (ground arith))

write_tuples-Distinct :
    (now : String) (ws : List TupleInput) (items : List Tuple) (seq n : ℕ)
    → Distinct items
    → Distinct (write_tuples now ws items seq n).0
unfolding write_tuples
write_tuples-Distinct now [] items seq n d = d
write_tuples-Distinct now (w ∷ ws) items seq n d = elim (Bool-cases (holds w items)) [
  | inl here ↦ rw here (write_tuples-Distinct now ws items seq n d)
  | inr new ↦
      let t = new_tuple seq now w in
      rw new (
        write_tuples-Distinct now ws (items ++ (t ∷ [])) (seq + 1) (n + 1)
          (append-Distinct items t d new))
]

pub apply_batch-Distinct :
    (now : String) (req : WriteRequest) (store : Store)
    → Distinct store.items
    → Distinct (apply_batch now req store).1.items
unfolding apply_batch
apply_batch-Distinct now req store d =
    write_tuples-Distinct now req.writes (delete_tuples req.deletes store.items).0 store.seq 0
      (delete_tuples-Distinct req.deletes store.items d)
