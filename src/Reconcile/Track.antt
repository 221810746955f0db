-- ===== src/Reconcile/Track.antt =====
-- What every read and every retry keeps, and the replay of a retry.
use authz_plane.Common.{
  ℕ, ◌+◌, String, Option, none, some, List, ◌==◌, if◌then◌else◌, or_else, get_elem?, ◌≡◌, ◌⊎◌, inl,
  inr, refl, ap, ◌∙◌, sym, subst, arith, Bool-cases, Option-cases, eq_refl, eq_iff,
}
use authz_plane.Common.Dict.{Dict, get, get-set}
use authz_plane.Reconcile.Model.{RunDetail, LiveStep, Store}
use authz_plane.Reconcile.Advance.{step_run, advance_live, get_run}
use authz_plane.Reconcile.Retry.{RetryResult, retried_run, new_run_id, accepted, refused, retry_run}
use authz_plane.Reconcile.Polls.{after_step, get_run-open, id-step_run}
use authz_plane.Reconcile.Settle.{
  started, Accepted, retry_run-replayed, retry_run-Accepted, IsTracked,
}

-- A retry that was accepted gives the same run to every later call with its key, whatever run that
-- call names, and such a call changes nothing.
pub retry_run_replay :
    (run_id key : String) (candidates : List String) (now id : String) (s s' : Store)
    (other : String) (more : List String) (later : String)
    → retry_run run_id key candidates now s ≡ some (accepted id, s')
    → retry_run other key more later s' ≡ some (accepted id, s')
retry_run_replay run_id key candidates now id s s' other more later h =
    let known : get key s'.retries_by_key ≡ some id =
      elim (retry_run-Accepted run_id key candidates now id s s' h) [
        | Accepted.replayed e q ↦ ap (λ (x : Store). get key x.retries_by_key) q ∙ e
        | Accepted.begun original e stored done f q ↦
            ap (λ (x : Store). get key x.retries_by_key) q
            ∙ get-set key key id s.retries_by_key
            ∙ rw (eq_refl key) refl
      ] in
    retry_run-replayed other key more later id s' known

status_of : RetryResult → ℕ
status_of (accepted id) = 0
status_of (refused status title detail) = status

status_in : Option (RetryResult × Store) → ℕ
status_in none = 0
status_in (some r) = status_of r.0

store_in : Store → Option (RetryResult × Store) → Store
store_in s none = s
store_in s (some r) = r.1

-- What a refusal tells of the run that was to be retried.
abbrev pub Refusal : String → ℕ → Store → Type 0
Refusal run_id status s =
    ((status ≡ 404) × (get run_id s.runs ≡ none))
    ⊎ ((status ≡ 409)
        × (run : RunDetail) × (get run_id s.runs ≡ some run)
        × (run.finished_at ≡ none))

abbrev refusal : ℕ → String → String → Store → Option (RetryResult × Store)
refusal status title detail s = some (refused status title detail, s)

refused_with :
    (status status' : ℕ) (title detail title' detail' : String) (s s' : Store)
    → refusal status' title' detail' s ≡ refusal status title detail s'
    → (s' ≡ s) × (status ≡ status')
unfolding status_of status_in store_in
refused_with status status' title detail title' detail' s s' h =
    (sym (ap (store_in s) h), sym (ap status_in h))

retry_run-refused :
    (run_id key : String) (candidates : List String) (now : String) (s s' : Store) (status : ℕ)
    (title detail : String)
    → retry_run run_id key candidates now s ≡ some (refused status title detail, s')
    → (s' ≡ s) × (get key s.retries_by_key ≡ none) × Refusal run_id status s
unfolding retry_run
retry_run-refused run_id key candidates now s s' status title detail h =
    elim (Option-cases (get key s.retries_by_key)) [
      | inr (replay, e) ↦ ground (arith, e, h)
      | inl new ↦ elim (Option-cases (get run_id s.runs)) [
        | inl missing ↦
            let (same, by) =
              refused_with status 404 title detail _ _ s s' (rw (retry_run, new, missing) at h) in
            (same, new, inl (by, missing))
        | inr (original, stored) ↦ elim (Option-cases original.finished_at) [
          | inl running ↦
              let (same, by) =
                refused_with status 409 title detail _ _ s s'
                  (rw (retry_run, new, stored, running) at h) in
              (same, new, inr (by, original, stored, running))
          | inr (t, done) ↦ elim (Option-cases (new_run_id candidates s.runs)) [
            | inl never ↦ ground (arith, new, stored, done, never, h)
            | inr (fresh, f) ↦ ground (arith, new, stored, done, f, h)
          ]
        ]
      ]
    ]

name_of : Option RunDetail → Option String
name_of none = none
name_of (some run) = some run.id

-- A run put under its identifier, with or without a place in its script.
set-IsTracked :
    (run : RunDetail) (s s' : Store) (id : String) (n : Option ℕ)
    → IsTracked s
    → run.id ≡ id
    → ((j : String) → get j s'.runs ≡ (if id == j then some run else get j s.runs))
    → ((j : String) → get j s'.live_step ≡ (if id == j then n else get j s.live_step))
    → IsTracked s'
unfolding name_of
set-IsTracked run s s' id n t named runs steps = record {
  keyed = λ j r e. elim (Bool-cases (id == j)) [
    | inl here ↦
        let at : get j s'.runs ≡ some run = runs j ∙ (rw here refl) in
        let p : name_of (some run) ≡ name_of (some r) = ap name_of (sym at ∙ e) in
        let same : id ≡ j = (eq_iff id j).0 here in cc
    | inr there ↦ t.keyed j r (ground (arith, runs j, there, e))
  ];
  counted = λ j e. elim (Bool-cases (id == j)) [
    | inl here ↦ ground (arith, runs j, here, e)
    | inr there ↦ ground (arith, runs j, steps j, there, e, t.counted j)
  ];
}

same_place : (id j : String) (m : Dict ℕ) → get j m ≡ (if id == j then get id m else get j m)
same_place id j m = elim (Bool-cases (id == j)) [
  | inl here ↦ rw here (ap (λ k. get k m) (sym ((eq_iff id j).0 here)))
  | inr there ↦ rw there refl
]

retry_run-IsTracked :
    (run_id key : String) (candidates : List String) (now : String) (s s' : Store) (r : RetryResult)
    → IsTracked s
    → retry_run run_id key candidates now s ≡ some (r, s')
    → IsTracked s'
retry_run-IsTracked run_id key candidates now s s' (refused status title detail) t h =
    rw (retry_run-refused run_id key candidates now s s' status title detail h).0 t
retry_run-IsTracked run_id key candidates now s s' (accepted id) t h =
    elim (retry_run-Accepted run_id key candidates now id s s' h) [
      | Accepted.replayed e q ↦ rw q t
      | Accepted.begun original e stored done f q ↦ rw q (
          set-IsTracked (retried_run original id now) s (started original id key now s) id
            (get id s.live_step) t refl (λ j. get-set id j (retried_run original id now) s.runs)
            (λ j. same_place id j s.live_step))
    ]

module _ (parse_date : String → ℕ) (iso : ℕ → String) where
  advance_live-cases :
      (run : RunDetail) (s : Store)
      → ((advance_live parse_date iso run s).1 ≡ s)
        ⊎ ((step : LiveStep) × (i : ℕ) × ((advance_live parse_date iso run s).1
              ≡ after_step parse_date iso run.id step run i s))
  unfolding advance_live
  advance_live-cases run s = elim (Option-cases (get run.id s.scripts)) [
    | inl none_there ↦ inl (ground (arith, none_there))
    | inr (script, e) ↦
        elim (Option-cases (get_elem? script (or_else (get run.id s.live_step) 0))) [
          | inl over ↦ inl (ground (arith, e, over))
          | inr (step, f) ↦
              inr (step, or_else (get run.id s.live_step) 0, rw (advance_live, e, f) refl)
        ]
  ]

  get_run-still :
      (id : String) (s : Store) → get id s.runs ≡ none → (get_run parse_date iso id s).1 ≡ s
  unfolding get_run
  get_run-still id s h = ground (arith, h)

  get_run-done :
      (id : String) (run : RunDetail) (s : Store) {t : String}
      → get id s.runs ≡ some run
      → run.finished_at ≡ some t
      → (get_run parse_date iso id s).1 ≡ s
  unfolding get_run
  get_run-done id run s h k = ground (arith, h, k)

  -- Every read of a run and every retry, whatever its answer, keeps the stored runs under their own
  -- identifiers and gives no other run a place in a script. A retry is refused only under a new key,
  -- with 404 if there is no such run and with 409 if it has not finished, and changes nothing then.
  pub IsTracked-steps :
      (s : Store)
      → IsTracked s
      → ((id : String) → IsTracked (get_run parse_date iso id s).1)
        × ((run_id key : String) (candidates : List String) (now : String) (s' : Store)
              (r : RetryResult)
            → retry_run run_id key candidates now s ≡ some (r, s')
            → IsTracked s')
        × ((run_id key : String) (candidates : List String) (now : String) (s' : Store) (status : ℕ)
              (title detail : String)
            → retry_run run_id key candidates now s ≡ some (refused status title detail, s')
            → (s' ≡ s) × (get key s.retries_by_key ≡ none) × Refusal run_id status s)
  IsTracked-steps s t = (
    λ id. elim (Option-cases (get id s.runs)) [
      | inl missing ↦ subst IsTracked (sym (get_run-still id s missing)) t
      | inr (run, stored) ↦ elim (Option-cases run.finished_at) [
        | inr (time, done) ↦ subst IsTracked (sym (get_run-done id run s stored done)) t
        | inl going ↦
            rw (get_run-open parse_date iso id run s stored going)
              (elim (advance_live-cases run s) [
                | inl still ↦ rw still t
                | inr (step, i, moved) ↦ rw moved (
                    set-IsTracked (step_run parse_date iso step run) s
                      (after_step parse_date iso run.id step run i s) run.id (some (i + 1)) t
                      (id-step_run parse_date iso step run)
                      (λ j. get-set run.id j (step_run parse_date iso step run) s.runs)
                      (λ j. get-set run.id j (i + 1) s.live_step))
              ])
      ]
    ],
    λ run_id key candidates now s' r h. retry_run-IsTracked run_id key candidates now s s' r t h,
    λ run_id key candidates now s' status title detail h.
        retry_run-refused run_id key candidates now s s' status title detail h,
  )
