-- ===== src/Reconcile/Settle.antt =====
-- A retry: its replay, its fresh identifier, and that it settles.
use authz_plane.Common.{
  ℕ, suc, ◌+◌, String, Option, none, some, List, [], ◌∷◌, ◌++◌, true, not, is_some, find_sound,
  length, ◌≡◌, inl, inr, refl, ap, ◌∙◌, sym, arith, Option-cases, eq_refl, Memᴰ, length-append,
  length-map,
}
use authz_plane.Common.Dict.{Dict, get, set, has, get-set}
use authz_plane.Reconcile.Model.{Outcome, applied, RunChange, RunDetail, LiveStep, Store}
use authz_plane.Reconcile.Retry.{
  new_run_id, queued_change, retried_changes, retried_run, change_step, change_steps, plan_step,
  last_step, retry_script, RetryResult, accepted, retry_run,
}
use authz_plane.Reconcile.Script.{steps_run, retry_script_settles}
use authz_plane.Reconcile.Polls.{Runs, InFlight, poll, poll_runs}

abbrev pub started : RunDetail → String → String → String → Store → Store
started original id key now s = record s {
  runs = set id (retried_run original id now) s.runs;
  scripts = set id (retry_script (retried_run original id now)) s.scripts;
  retries_by_key = set key id s.retries_by_key;
}

-- An accepted retry is a replay, or it starts a run.
pub data Accepted (run_id key : String) (candidates : List String) (now id : String) (s s' : Store)
    : Type 0 where
  replayed :
      get key s.retries_by_key ≡ some id → s' ≡ s → Accepted run_id key candidates now id s s'
  begun :
      (original : RunDetail)
      → get key s.retries_by_key ≡ none
      → get run_id s.runs ≡ some original
      → is_some original.finished_at ≡ true
      → new_run_id candidates s.runs ≡ some id
      → s' ≡ started original id key now s
      → Accepted run_id key candidates now id s s'

pub retry_run-replayed :
    (run_id key : String) (candidates : List String) (now id : String) (s : Store)
    → get key s.retries_by_key ≡ some id
    → retry_run run_id key candidates now s ≡ some (accepted id, s)
unfolding retry_run
retry_run-replayed run_id key candidates now id s h = rw (retry_run, h) refl

abbrev answer : String → Store → Option (RetryResult × Store)
answer id s = some (accepted id, s)

accepted_inj : {i j : String} {s t : Store} → answer i s ≡ answer j t → (i ≡ j) × (s ≡ t)
accepted_inj h = (cc, cc)

pub retry_run-Accepted :
    (run_id key : String) (candidates : List String) (now id : String) (s s' : Store)
    → retry_run run_id key candidates now s ≡ some (accepted id, s')
    → Accepted run_id key candidates now id s s'
unfolding retry_run
retry_run-Accepted run_id key candidates now id s s' h =
    elim (Option-cases (get key s.retries_by_key)) [
      | inr (replay, e) ↦
          let same : answer id s' ≡ answer replay s =
            sym h ∙ retry_run-replayed run_id key candidates now replay s e in
          let (p, q) = accepted_inj same in Accepted.replayed (e ∙ ap some (sym p)) q
      | inl new ↦ elim (Option-cases (get run_id s.runs)) [
        | inl missing ↦ ground (arith, new, missing)
        | inr (original, stored) ↦ elim (Option-cases original.finished_at) [
          | inl running ↦ ground (arith, new, stored, running)
          | inr (t, done) ↦ elim (Option-cases (new_run_id candidates s.runs)) [
            | inl never ↦ ground (arith, new, stored, done, never)
            | inr (fresh, f) ↦
                let same : answer id s' ≡ answer fresh (started original fresh key now s) =
                  sym h ∙ ground (arith, new, stored, done, f) in
                let (p, q) = accepted_inj same in
                Accepted.begun original new stored (ap is_some done) (f ∙ ap some (sym p))
                  (q ∙ ap (λ k. started original k key now s) (sym p))
          ]
        ]
      ]
    ]

Runs-cons : (s : LiveStep) (ss : List LiveStep) → s.finish ≡ none → Runs ss → Runs (s ∷ ss)
Runs-cons s [] e r = tt
Runs-cons s (t ∷ ss) e r = (e, r)

Runs-change_steps :
    (i : ℕ) (cs : List RunChange) (last : LiveStep) → Runs (change_steps i cs ++ (last ∷ []))
unfolding change_steps
Runs-change_steps i [] last = tt
Runs-change_steps i (c ∷ cs) last =
    Runs-cons (change_step i c cs) (change_steps (i + 1) cs ++ (last ∷ [])) refl
      (Runs-change_steps (i + 1) cs last)

length-change_steps : (i : ℕ) (cs : List RunChange) → length (change_steps i cs) ≡ length cs
unfolding change_steps
length-change_steps i [] = refl
length-change_steps i (c ∷ cs) = ap suc (length-change_steps (i + 1) cs)

length-retried_changes : (cs : List RunChange) → length (retried_changes cs) ≡ length cs
length-retried_changes [] = refl
length-retried_changes (c ∷ cs) = ap suc (length-map queued_change cs)

rest_of : RunDetail → List LiveStep
rest_of run = change_steps 0 run.changes ++ (last_step run ∷ [])

length-rest_of : (run : RunDetail) → length (rest_of run) ≡ length run.changes + 1
unfolding rest_of
length-rest_of run =
    length-append (change_steps 0 run.changes) (last_step run ∷ [])
    ∙ ap (λ n. n + 1) (length-change_steps 0 run.changes)

-- Runs stand under their own identifier, and only they have a place in a script.
pub record IsTracked (s : Store) : Type 0 where
  pub keyed : (j : String) (run : RunDetail) → get j s.runs ≡ some run → run.id ≡ j
  pub counted : (j : String) → get j s.runs ≡ none → get j s.live_step ≡ none

fresh-missing :
    (candidates : List String) (runs : Dict RunDetail) (id : String)
    → new_run_id candidates runs ≡ some id
    → get id runs ≡ none
fresh-missing candidates runs id h =
    let (m, t) = find_sound (λ j. not (has j runs)) candidates h in
    elim (Option-cases (get id runs)) [
      | inl missing ↦ missing
      | inr (run, e) ↦ ground (arith, t, e)
    ]

started-InFlight :
    (original : RunDetail) (id key now : String) (s : Store)
    → get id s.live_step ≡ none
    → InFlight id
        (retry_script (retried_run original id now))
        (retried_run original id now)
        (started original id key now s)
started-InFlight original id key now s fresh =
    let run = retried_run original id now in
    record {
      script = retry_script run;
      at = 0;
      stored = get-set id id run s.runs ∙ rw (eq_refl id) refl;
      keyed = refl;
      open_run = refl;
      scripted = get-set id id (retry_script run) s.scripts ∙ rw (eq_refl id) refl;
      counted = rw fresh refl;
      left = refl;
    }

polls_needed :
    (original : RunDetail) (id now : String)
    → length (plan_step (retried_run original id now) ∷ rest_of (retried_run original id now))
      ≡ length original.changes + 2
polls_needed original id now =
    omega
      (arith, length-rest_of (retried_run original id now), length-retried_changes original.changes)

started_settles :
    (parse_date : String → ℕ) (iso : ℕ → String) (original : RunDetail) (id key now : String)
    (s : Store)
    → get id s.live_step ≡ none
    → get id
        (poll parse_date iso (length original.changes + 2) id (started original id key now s)).runs
      ≡ some (
          steps_run parse_date iso
            (retry_script (retried_run original id now))
            (retried_run original id now))
unfolding retry_script rest_of
started_settles parse_date iso original id key now s fresh =
    let run = retried_run original id now in
    ap (λ n. get id (poll parse_date iso n id (started original id key now s)).runs)
      (sym (polls_needed original id now))
    ∙ poll_runs parse_date iso id (plan_step run) (rest_of run) run (started original id key now s)
        (Runs-cons (plan_step run) (rest_of run) refl
          (Runs-change_steps 0 run.changes (last_step run)))
        (started-InFlight original id key now s fresh)

-- A retry that is accepted under a new key starts a run under an identifier that no run had, for the
-- same tenant and with the run that is retried as its origin. After two more reads of it than there
-- are changes the run is settled: its outcome is "Applied", it has a finishing time, and every
-- change is applied. It is assumed that stored runs stand under their own identifiers and that only
-- they have a place in a script.
pub retry_run_settles :
    (parse_date : String → ℕ) (iso : ℕ → String) (run_id key : String) (candidates : List String)
    (now id : String) (s s' : Store) (original : RunDetail)
    → IsTracked s
    → get key s.retries_by_key ≡ none
    → get run_id s.runs ≡ some original
    → retry_run run_id key candidates now s ≡ some (accepted id, s')
    → (get id s.runs ≡ none)
      × (run : RunDetail) × (get id s'.runs ≡ some run)
      × (run.tenant_slug ≡ original.tenant_slug)
      × (run.retry_of ≡ some original.id)
      × (done : RunDetail) × (get id (poll parse_date iso (length original.changes + 2) id s').runs
          ≡ some done)
      × (done.outcome ≡ Outcome.applied)
      × (is_some done.finished_at ≡ true)
      × ((c : RunChange) → Memᴰ c done.changes → c.outcome ≡ applied)
retry_run_settles parse_date iso run_id key candidates now id s s' original tracked new stored h =
    elim (retry_run-Accepted run_id key candidates now id s s' h) [
      | Accepted.replayed e q ↦ cc
      | Accepted.begun other e stored' done f q ↦
          let same : other ≡ original = cc in
          let run = retried_run original id now in
          let fresh = fresh-missing candidates s.runs id f in
          let q' : s' ≡ started original id key now s =
            q ∙ ap (λ (o : RunDetail). started o id key now s) same in
          let (applied_run, finished, changes) = retry_script_settles parse_date iso run in
          (
            fresh,
            run,
            ap (λ (x : Store). get id x.runs) q' ∙ get-set id id run s.runs ∙ rw (eq_refl id) refl,
            refl,
            refl,
            steps_run parse_date iso (retry_script run) run,
            ap (λ x. get id (poll parse_date iso (length original.changes + 2) id x).runs) q'
                ∙ started_settles parse_date iso original id key now s (tracked.counted id fresh),
            applied_run,
            finished,
            changes,
          )
    ]
