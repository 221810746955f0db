-- ===== src/Relations/Effect.antt =====
-- The promises of a write: when a batch is accepted, what it leaves in the store, that a rejected
-- one leaves everything alone, and that a replay changes nothing.
use authz_plane.Common.{
  ℕ, ◌+◌, String, Option, none, some, ◌++◌, true, false, not, ◌||◌, ◌&&◌, ◌==◌, if◌then◌else◌, any,
  all, length, ◌≡◌, refl, ◌⊎◌, inl, inr, ◌↔◌, arith, Option-cases, eq_iff, find-any, find-all,
}
use authz_plane.Common.Dict.{Dict, get, set, get-set}
use authz_plane.Common.Int.{◌+ℤ◌, pos}
use authz_plane.Dsl.Types.{ParsedModel}
use authz_plane.Relations.Model.{
  TupleInput, WriteRequest, WriteResult, Store, Failure, success, failure,
}
use authz_plane.Relations.Write.{
  is_reserved, in_model, rejection, holds, delete_tuples, apply_batch, write_store, store_for,
  write_relations,
}
use authz_plane.Relations.Allowed.{IsAllowed, IsAllowed-iff}
use authz_plane.Relations.Batch.{names, write_tuples-holds, delete_tuples-holds}
use authz_plane.Relations.Account.{Distinct, apply_batch-total, apply_batch-Distinct}

pub apply_batch-holds :
    (now : String) (req : WriteRequest) (store : Store) (t : TupleInput)
    → holds t (apply_batch now req store).1.items
      ≡ ((holds t store.items && not (names req.deletes t)) || names req.writes t)
unfolding apply_batch
apply_batch-holds now req store t =
    let (kept, deleted) = delete_tuples req.deletes store.items in
    ground (
      arith,
      write_tuples-holds now req.writes kept store.seq 0 t,
      delete_tuples-holds req.deletes store.items t,
    )

-- A rejected batch leaves the store, an accepted one is applied.
pub write_store-cases :
    (parse_model : String → ParsedModel) (now : String) (req : WriteRequest) (store : Store)
    → ((f : Failure) × (rejection (parse_model store.model_dsl) store.model_version req ≡ some f)
        × (write_store parse_model now req store ≡ (failure f, store)))
      ⊎ ((rejection (parse_model store.model_dsl) store.model_version req ≡ none)
          × (write_store parse_model now req store
              ≡ (success (apply_batch now req store).0, (apply_batch now req store).1)))
unfolding write_store
write_store-cases parse_model now req store =
    elim (Option-cases (rejection (parse_model store.model_dsl) store.model_version req)) [
      | inl accepted ↦ inr (accepted, rw (write_store, accepted) refl)
      | inr (f, e) ↦ inl (f, e, rw (write_store, e) refl)
    ]

-- After an accepted batch the store is that of the applied batch.
write_store-apply :
    (parse_model : String → ParsedModel) (now : String) (req : WriteRequest) (store : Store)
    (r : WriteResult)
    → (write_store parse_model now req store).0 ≡ success r
    → ((write_store parse_model now req store).1 ≡ (apply_batch now req store).1)
      × (r ≡ (apply_batch now req store).0)
write_store-apply parse_model now req store r h =
    elim (write_store-cases parse_model now req store) [
      | inl (f, e, q) ↦ cc
      | inr (e, q) ↦ (cc, cc)
    ]

-- An accepted batch leaves exactly the tuples that it writes and those of before that it does not
-- delete: a tuple both deleted and written is there.
pub write_store-holds :
    (parse_model : String → ParsedModel) (now : String) (req : WriteRequest) (store : Store)
    (r : WriteResult) (t : TupleInput)
    → (write_store parse_model now req store).0 ≡ success r
    → holds t (write_store parse_model now req store).1.items
      ≡ ((holds t store.items && not (names req.deletes t)) || names req.writes t)
write_store-holds parse_model now req store r t h =
    let (same, _) = write_store-apply parse_model now req store r h in
    rw same (apply_batch-holds now req store t)

-- An accepted batch reports as many written and deleted tuples as the store gains and loses, the
-- total changes as the number of stored tuples does, and tuples that were distinct stay distinct.
pub write_store-total :
    (parse_model : String → ParsedModel) (now : String) (req : WriteRequest) (store : Store)
    (r : WriteResult)
    → (write_store parse_model now req store).0 ≡ success r
    → (length (write_store parse_model now req store).1.items + r.deleted
        ≡ length store.items + r.written)
      × ((write_store parse_model now req store).1.total +ℤ pos (length store.items)
          ≡ store.total +ℤ pos (length (write_store parse_model now req store).1.items))
      × (Distinct store.items → Distinct (write_store parse_model now req store).1.items)
write_store-total parse_model now req store r h =
    let (same, result) = write_store-apply parse_model now req store r h in
    let (count, total) = apply_batch-total now req store in
    (rw (same, result) count, rw same total, λ d. rw same (apply_batch-Distinct now req store d))

rejection_iff :
    (model : ParsedModel) (version : ℕ) (req : WriteRequest)
    → (rejection model version req ≡ none) ↔ (
        (any is_reserved (req.writes ++ req.deletes) ≡ false)
        × (all (in_model model) req.writes ≡ true))
rejection_iff model version req =
    ground (
      arith,
      find-any is_reserved (req.writes ++ req.deletes),
      find-all (in_model model) req.writes,
    )

-- A batch is accepted exactly when no tuple of it touches the reserved namespace and every write is
-- in the live model: no object and no user in it begins with `platform:`, and the first type of the
-- live model with the name of a write's object type has the write's relation. A batch that is not
-- accepted leaves the store as it was.
pub write_store_accepts :
    (parse_model : String → ParsedModel) (now : String) (req : WriteRequest) (store : Store)
    → (((r : WriteResult) × ((write_store parse_model now req store).0 ≡ success r)) ↔ (
        (any is_reserved (req.writes ++ req.deletes) ≡ false)
        × (all (in_model (parse_model store.model_dsl)) req.writes ≡ true)))
      × ((f : Failure)
          → (write_store parse_model now req store).0 ≡ failure f
          → (write_store parse_model now req store).1 ≡ store)
      × (((r : WriteResult) × ((write_store parse_model now req store).0 ≡ success r))
          ↔ IsAllowed (parse_model store.model_dsl) req)
write_store_accepts parse_model now req store =
    let (allowed, tested) = IsAllowed-iff (parse_model store.model_dsl) req in
    let (from, to) = rejection_iff (parse_model store.model_dsl) store.model_version req in
    elim (write_store-cases parse_model now req store) [
      | inl (f, e, q) ↦
          ((λ (r, h). cc, λ fine. cc (to fine)), λ g h. cc, (λ (r, h). cc, λ a. cc (to (tested a))))
      | inr (e, q) ↦ (
        (λ (r, h). from e, λ fine. ((apply_batch now req store).0, cc)),
        λ g h. cc,
        (λ (r, h). allowed (from e), λ a. ((apply_batch now req store).0, cc)),
      )
    ]

-- A write touches the store of its own tenant only, and that one as the tenant's own store says.
pub write_relations-get :
    (parse_model : String → ParsedModel) (seed : String → Option Store) (slug : String)
    (req : WriteRequest) (now : String) (stores : Dict Store) (other : String)
    → get other (write_relations parse_model seed slug req now stores).1 ≡ (
        if slug == other
        then elim (store_for seed slug stores).0 [
          | none ↦ none
          | some store ↦ some (write_store parse_model now req store).1
        ]
        else get other stores)
unfolding write_relations store_for
write_relations-get parse_model seed slug req now stores other =
    elim (Option-cases (get slug stores)) [
      | inr (store, e) ↦
          ground (arith, e, get-set slug other (write_store parse_model now req store).1 stores)
      | inl new ↦ elim (Option-cases (seed slug)) [
        | inl missing ↦ ground (arith, new, missing, eq_iff slug other)
        | inr (store, e) ↦ ground (
          arith,
          new,
          e,
          get-set slug other store stores,
          get-set slug other (write_store parse_model now req store).1 (set slug store stores),
        )
      ]
    ]
