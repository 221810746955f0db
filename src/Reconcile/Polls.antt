-- ===== src/Reconcile/Polls.antt =====
-- Reading a run in flight again and again runs its script to the end.
use authz_plane.Common.{
  ℕ, zero, suc, ◌+◌, String, none, some, List, [], ◌∷◌, or_else, get_elem?, drop, length, ◌≡◌, refl,
  ap, ◌∙◌, arith, Option-cases, inl, inr, eq_refl, get_elem?-drop,
}
use authz_plane.Common.Dict.{get, set, get-set}
use authz_plane.Reconcile.Model.{RunDetail, LiveStep, Store}
use authz_plane.Reconcile.Advance.{step_run, advance_live, get_run}
use authz_plane.Reconcile.Script.{steps_run}

-- Every step but the last leaves the run open.
abbrev pub Runs : List LiveStep → Type 0
Runs [] = Unit
Runs (s ∷ []) = Unit
Runs (s ∷ t ∷ ss) = (s.finish ≡ none) × Runs (t ∷ ss)

-- The run stands in the store, in flight, with these steps to go.
pub record InFlight (id : String) (ss : List LiveStep) (run : RunDetail) (s : Store) : Type 0 where
  pub script : List LiveStep
  pub at : ℕ
  pub stored : get id s.runs ≡ some run
  pub keyed : run.id ≡ id
  pub open_run : run.finished_at ≡ none
  pub scripted : get id s.scripts ≡ some script
  pub counted : or_else (get id s.live_step) 0 ≡ at
  pub left : drop at script ≡ ss

module _ (parse_date : String → ℕ) (iso : ℕ → String) where
  -- The store after `n` reads of one run.
  abbrev pub poll : ℕ → String → Store → Store
  poll zero id s = s
  poll (suc n) id s = poll n id (get_run parse_date iso id s).1

  abbrev pub after_step : String → LiveStep → RunDetail → ℕ → Store → Store
  after_step id step run i s = record s {
    live_step = set id (i + 1) s.live_step;
    runs = set id (step_run parse_date iso step run) s.runs;
  }

  advance_live-step :
      (step : LiveStep) (run : RunDetail) (s : Store) (script : List LiveStep) (i : ℕ)
      → get run.id s.scripts ≡ some script
      → or_else (get run.id s.live_step) 0 ≡ i
      → get_elem? script i ≡ some step
      → (advance_live parse_date iso run s).1 ≡ after_step run.id step run i s
  unfolding advance_live
  advance_live-step step run s script i scripted counted here =
      let i' = or_else (get run.id s.live_step) 0 in
      let here' : get_elem? script i' ≡ some step = ap (get_elem? script) counted ∙ here in
      let go : (advance_live parse_date iso run s).1 ≡ after_step run.id step run i' s =
        rw (advance_live, scripted, here') refl in
      go ∙ ap (λ k. after_step run.id step run k s) counted

  pub get_run-open :
      (id : String) (run : RunDetail) (s : Store)
      → get id s.runs ≡ some run
      → run.finished_at ≡ none
      → (get_run parse_date iso id s).1 ≡ (advance_live parse_date iso run s).1
  unfolding get_run
  get_run-open id run s stored open_run = ground (arith, stored, open_run)

  get_run-step :
      (id : String) (step : LiveStep) (ss : List LiveStep) (run : RunDetail) (s : Store)
      (f : InFlight id (step ∷ ss) run s)
      → (get_run parse_date iso id s).1 ≡ after_step id step run f.at s
  get_run-step id step ss run s f =
      get_run-open id run s f.stored f.open_run
      ∙ advance_live-step step run s f.script f.at (ap (λ k. get k s.scripts) f.keyed ∙ f.scripted)
          (ap (λ k. or_else (get k s.live_step) 0) f.keyed ∙ f.counted)
          (get_elem?-drop f.at f.script f.left).0
      ∙ ap (λ k. after_step k step run f.at s) f.keyed

  pub id-step_run :
      (step : LiveStep) (run : RunDetail) → (step_run parse_date iso step run).id ≡ run.id
  unfolding step_run
  id-step_run step run = elim (Option-cases step.finish) [
    | inl e ↦ rw (step_run, e) refl
    | inr (f, e) ↦ rw (step_run, e) refl
  ]

  open-step_run :
      (step : LiveStep) (run : RunDetail)
      → step.finish ≡ none
      → (step_run parse_date iso step run).finished_at ≡ run.finished_at
  unfolding step_run
  open-step_run step run e = rw (step_run, e) refl

  after_step-InFlight :
      (id : String) (step : LiveStep) (ss : List LiveStep) (run : RunDetail) (s : Store)
      (f : InFlight id (step ∷ ss) run s)
      → step.finish ≡ none
      → InFlight id ss (step_run parse_date iso step run) (after_step id step run f.at s)
  after_step-InFlight id step ss run s f e =
      let next = step_run parse_date iso step run in
      record {
        script = f.script;
        at = f.at + 1;
        stored = rw (get-set id id next s.runs, eq_refl id) refl;
        keyed = id-step_run step run ∙ f.keyed;
        open_run = open-step_run step run e ∙ f.open_run;
        scripted = f.scripted;
        counted = rw (get-set id id (f.at + 1) s.live_step, eq_refl id) refl;
        left = (get_elem?-drop f.at f.script f.left).1;
      }

  pub poll_runs :
      (id : String) (step : LiveStep) (ss : List LiveStep) (run : RunDetail) (s : Store)
      → Runs (step ∷ ss)
      → InFlight id (step ∷ ss) run s
      → get id (poll (length (step ∷ ss)) id s).runs
        ≡ some (steps_run parse_date iso (step ∷ ss) run)
  poll_runs id step [] run s r f =
      ap (λ (x : Store). get id x.runs) (get_run-step id step [] run s f)
      ∙ get-set id id (step_run parse_date iso step run) s.runs
      ∙ rw (eq_refl id) refl
  poll_runs id step (t ∷ ss) run s (e, r) f =
      ap (λ x. get id (poll (length (t ∷ ss)) id x).runs) (get_run-step id step (t ∷ ss) run s f)
      ∙ poll_runs id t ss (step_run parse_date iso step run) (after_step id step run f.at s) r
          (after_step-InFlight id step (t ∷ ss) run s f e)
