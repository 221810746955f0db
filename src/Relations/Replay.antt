-- ===== src/Relations/Replay.antt =====
-- Sending a batch again changes nothing.
use authz_plane.Common.{
  ℕ, String, List, [], ◌∷◌, true, false, ◌≡◌, refl, arith, inl, inr, none, ap, ◌∙◌,
}
use authz_plane.Common.Int.{ℤ, ◌+ℤ◌, pos, negsuc, difference}
use authz_plane.Dsl.Types.{ParsedModel}
use authz_plane.Relations.Model.{
  Tuple, TupleInput, input_of, WriteRequest, WriteResult, Store, success,
}
use authz_plane.Relations.Write.{
  holds, delete_tuples, write_tuples, apply_batch, write_store, rejection,
}
use authz_plane.Relations.Batch.{names, same_tuple_refl}
use authz_plane.Relations.Effect.{apply_batch-holds, write_store-cases}

delete_tuples_none :
    (ds : List TupleInput) (items : List Tuple)
    → ((t : TupleInput) → names ds t ≡ true → holds t items ≡ false)
    → delete_tuples ds items ≡ (items, 0)
unfolding delete_tuples
delete_tuples_none ds [] h = refl
delete_tuples_none ds (e ∷ items) h =
    let rest = delete_tuples_none ds items (λ t n. ground (arith, h t n)) in
    ground (arith, rest, same_tuple_refl (input_of e), h (input_of e))

write_tuples_none :
    (now : String) (ws : List TupleInput) (items : List Tuple) (seq n : ℕ)
    → ((t : TupleInput) → names ws t ≡ true → holds t items ≡ true)
    → write_tuples now ws items seq n ≡ (items, seq, n)
unfolding write_tuples
write_tuples_none now [] items seq n h = refl
write_tuples_none now (w ∷ ws) items seq n h =
    let rest = write_tuples_none now ws items seq n (λ t k. h t (ground (arith, k))) in
    ground (arith, rest, same_tuple_refl w, h w)

plus-nothing : (total : ℤ) → total +ℤ difference 0 0 ≡ total
unfolding ◌+ℤ◌
plus-nothing (pos t) = ground arith
plus-nothing (negsuc t) = ground arith

abbrev nothing_done : Store → WriteResult
nothing_done store = record {
  written = 0;
  deleted = 0;
  invalidated_decisions = store.cached_decisions;
  model_version = store.model_version;
}

apply_batch_settled :
    (now : String) (req : WriteRequest) (store : Store)
    → ((t : TupleInput) → names req.deletes t ≡ true → holds t store.items ≡ false)
    → ((t : TupleInput) → names req.writes t ≡ true → holds t store.items ≡ true)
    → apply_batch now req store ≡ (nothing_done store, store)
unfolding apply_batch
apply_batch_settled now req store gone there =
    rw
      (
        delete_tuples_none req.deletes store.items gone,
        write_tuples_none now req.writes store.items store.seq 0 there,
        plus-nothing store.total,
      )
      refl

-- A second look at the batch finds the same model, and nothing left to do.
second_write :
    (parse_model : String → ParsedModel) (now later : String) (req : WriteRequest) (store : Store)
    → ((t : TupleInput) → names req.deletes t ≡ true → names req.writes t ≡ false)
    → rejection (parse_model store.model_dsl) store.model_version req ≡ none
    → write_store parse_model later req (apply_batch now req store).1
      ≡ (success (nothing_done store), (apply_batch now req store).1)
unfolding apply_batch
second_write parse_model now later req store apart accepted =
    let after = (apply_batch now req store).1 in
    let settled : apply_batch later req after ≡ (nothing_done after, after) =
      apply_batch_settled later req after
        (λ t d. ground (arith, apart t d, d, apply_batch-holds now req store t))
        (λ t w. ground (arith, w, apply_batch-holds now req store t)) in
    elim (write_store-cases parse_model later req after) [
      | inl (f, e, q) ↦ cc
      | inr (e, q) ↦ q ∙ ap (λ p. (success p.0, p.1)) settled
    ]

reported :
    (now : String) (req : WriteRequest) (store : Store)
    → record (apply_batch now req store).0 { written = 0; deleted = 0 } ≡ nothing_done store
unfolding apply_batch
reported now req store = refl

-- Sending an accepted batch again, at any time, is accepted, writes and deletes nothing, and leaves
-- the store as it is, if no tuple of the batch is both written and deleted.
pub write_store_replay :
    (parse_model : String → ParsedModel) (now later : String) (req : WriteRequest) (store : Store)
    (r : WriteResult)
    → ((t : TupleInput) → names req.deletes t ≡ true → names req.writes t ≡ false)
    → (write_store parse_model now req store).0 ≡ success r
    → write_store parse_model later req (write_store parse_model now req store).1
      ≡ (success (record r { written = 0; deleted = 0 }), (write_store parse_model now req store).1)
write_store_replay parse_model now later req store r apart h =
    elim (write_store-cases parse_model now req store) [
      | inl (f, e, q) ↦ cc
      | inr (e, q) ↦
          let same : r ≡ (apply_batch now req store).0 = cc in
          rw (q, same, reported now req store)
            (second_write parse_model now later req store apart e)
    ]
