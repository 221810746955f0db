-- ===== src/Reconcile/Script.antt =====
-- The script of a retry applies every change and then settles.
use authz_plane.Common.{
  ℕ, ◌+◌, String, none, some, List, [], ◌∷◌, ◌++◌, Bool, true, false, eqb, if◌then◌else◌, any, map,
  ◌≡◌, refl, ap, ◌∙◌, arith, Bool-cases, Option-cases, inl, inr, Memᴰ, is_some, mem-of_map,
}
use authz_plane.Reconcile.Model.{Outcome, applied, ChangeOutcome, RunChange, RunDetail, LiveStep}
use authz_plane.Reconcile.Advance.{outcome_at, step_change, step_run}
use authz_plane.Reconcile.Retry.{
  change_step, change_steps, plan_step, last_step, retry_script, step_entries,
}

-- The steps on one change, and on a run.
abbrev pub steps_change : List LiveStep → RunChange → RunChange
steps_change [] c = c
steps_change (s ∷ ss) c = steps_change ss (step_change s c)

abbrev pub steps_run : (String → ℕ) → (ℕ → String) → List LiveStep → RunDetail → RunDetail
steps_run parse_date iso [] run = run
steps_run parse_date iso (s ∷ ss) run = steps_run parse_date iso ss (step_run parse_date iso s run)

abbrev pub has_index : ℕ → List RunChange → Bool
has_index i cs = any (λ (c : RunChange). eqb c.index i) cs

index-step_change : (s : LiveStep) (c : RunChange) → (step_change s c).index ≡ c.index
unfolding step_change
index-step_change s c = elim (Option-cases (outcome_at c.index s.changes)) [
  | inl e ↦ rw (step_change, e) refl
  | inr (o, e) ↦ rw (step_change, e) refl
]

step_change-none :
    (s : LiveStep) (c : RunChange) → outcome_at c.index s.changes ≡ none → step_change s c ≡ c
unfolding step_change
step_change-none s c h = rw (step_change, h) refl

step_change-some :
    (s : LiveStep) (c : RunChange) {o : ChangeOutcome}
    → outcome_at c.index s.changes ≡ some o
    → (step_change s c).outcome ≡ o
unfolding step_change
step_change-some s c h = rw (step_change, h) refl

-- A change that is not behind `d` is touched by the step of `d` only if it is `d`.
outcome_at-step_entries :
    (i : ℕ) (d : RunChange) (cs : List RunChange)
    → has_index i cs ≡ false
    → outcome_at i (step_entries d cs) ≡ (if eqb d.index i then some applied else none)
unfolding outcome_at
outcome_at-step_entries i d [] h = refl
outcome_at-step_entries i d (e ∷ cs) h = ground arith

-- A change that no step names stays as it is.
untouched :
    (i : ℕ) (cs : List RunChange) (c : RunChange)
    → has_index c.index cs ≡ false
    → steps_change (change_steps i cs) c ≡ c
unfolding change_steps
untouched i [] c h = refl
untouched i (d ∷ cs) c h =
    let same : step_change (change_step i d cs) c ≡ c =
      step_change-none (change_step i d cs) c
        (ground (arith, outcome_at-step_entries c.index d cs)) in
    ap (steps_change (change_steps (i + 1) cs)) same ∙ untouched (i + 1) cs c (ground arith)

-- A change that some step names ends applied.
applies :
    (i : ℕ) (cs : List RunChange) (c : RunChange)
    → has_index c.index cs ≡ true
    → (steps_change (change_steps i cs) c).outcome ≡ applied
unfolding change_steps
applies i [] c h = cc
applies i (d ∷ cs) c h =
    let step = change_step i d cs in
    elim (Bool-cases (has_index c.index cs)) [
      | inl later ↦ applies (i + 1) cs (step_change step c) (rw (index-step_change step c) later)
      | inr last ↦
          let rest : steps_change (change_steps (i + 1) cs) (step_change step c)
              ≡ step_change step c =
            untouched (i + 1) cs (step_change step c) (rw (index-step_change step c) last) in
          rw rest (step_change-some step c (ground (arith, outcome_at-step_entries c.index d cs)))
    ]

steps_change-append :
    (ss : List LiveStep) (s : LiveStep) (c : RunChange)
    → steps_change (ss ++ (s ∷ [])) c ≡ step_change s (steps_change ss c)
steps_change-append [] s c = refl
steps_change-append (t ∷ ss) s c = steps_change-append ss s (step_change t c)

has_index-mem : (c : RunChange) (cs : List RunChange) → Memᴰ c cs → has_index c.index cs ≡ true
has_index-mem c [] m = elim m [ ]
has_index-mem c (d ∷ cs) (Memᴰ.head e) = ground (arith, ap (λ (x : RunChange). x.index) e)
has_index-mem c (d ∷ cs) (Memᴰ.tail m) = ground (arith, has_index-mem c cs m)

-- The script applies each change of its run.
retry_script_applies :
    (run : RunDetail) (c : RunChange)
    → Memᴰ c run.changes
    → (steps_change (retry_script run) c).outcome ≡ applied
unfolding retry_script outcome_at
retry_script_applies run c m =
    let steps = change_steps 0 run.changes in
    let start : step_change (plan_step run) c ≡ c = step_change-none (plan_step run) c refl in
    let done = steps_change steps c in
    ap (λ x. (steps_change (steps ++ (last_step run ∷ [])) x).outcome) start
    ∙ ap (λ (x : RunChange). x.outcome) (steps_change-append steps (last_step run) c)
    ∙ ap (λ (x : RunChange). x.outcome) (step_change-none (last_step run) done refl)
    ∙ applies 0 run.changes c (has_index-mem c run.changes m)

module _ (parse_date : String → ℕ) (iso : ℕ → String) where
  changes-step_run :
      (s : LiveStep) (run : RunDetail)
      → (step_run parse_date iso s run).changes ≡ map (step_change s) run.changes
  unfolding step_run
  changes-step_run s run = elim (Option-cases s.finish) [
    | inl e ↦ rw (step_run, e) refl
    | inr (f, e) ↦ rw (step_run, e) refl
  ]

  changes-steps_run :
      (ss : List LiveStep) (run : RunDetail) (c : RunChange)
      → Memᴰ c (steps_run parse_date iso ss run).changes
      → (b : RunChange) × Memᴰ b run.changes × (c ≡ steps_change ss b)
  changes-steps_run [] run c m = (c, m, refl)
  changes-steps_run (s ∷ ss) run c m =
      let (d, k, e) = changes-steps_run ss (step_run parse_date iso s run) c m in
      let (b, k', e') = mem-of_map (step_change s) run.changes (rw (changes-step_run s run) at k) in
      (b, k', e ∙ ap (steps_change ss) e')

  steps_run-append :
      (ss : List LiveStep) (s : LiveStep) (run : RunDetail)
      → steps_run parse_date iso (ss ++ (s ∷ [])) run
        ≡ step_run parse_date iso s (steps_run parse_date iso ss run)
  steps_run-append [] s run = refl
  steps_run-append (t ∷ ss) s run = steps_run-append ss s (step_run parse_date iso t run)

  pub retry_script_settles :
      (run : RunDetail)
      → let done = steps_run parse_date iso (retry_script run) run in
        (done.outcome ≡ Outcome.applied)
        × (is_some done.finished_at ≡ true)
        × ((c : RunChange) → Memᴰ c done.changes → c.outcome ≡ applied)
  unfolding retry_script step_run
  retry_script_settles run =
      let steps = change_steps 0 run.changes in
      let last = steps_run-append (plan_step run ∷ steps) (last_step run) run in
      (
        ap (λ (r : RunDetail). r.outcome) last,
        ap (λ (r : RunDetail). is_some r.finished_at) last,
        λ c m.
            let (b, k, e) = changes-steps_run (retry_script run) run c m in
            ap (λ (x : RunChange). x.outcome) e ∙ retry_script_applies run b k,
      )
