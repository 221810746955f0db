-- ===== src/Resolver/Decides.antt =====
-- What `explain` and `batchCheck` decide.
use authz_plane.Common.{
  ℕ, String, none, some, List, [], ◌∷◌, Bool, true, false, ◌≡◌, ◌↔◌, refl, sym, ap, ap₂, arith,
  Memᴰ, map, or_else, is_some, inl, inr, Option-cases,
}
use authz_plane.Resolver.Model.{
  AuthorizationModel, StoredTuple, CheckTuple, ResolverOptions, direct, DecisiveTuple, depth_cap,
}
use authz_plane.Resolver.Explain.{explain, batch_check, batch_row, empty_ctx, BatchCheckResult}
use authz_plane.Resolver.Grants.{Grants, stored, computed, through}
use authz_plane.Resolver.Sound.{run, evaluate_sound}
use authz_plane.Resolver.Complete.{evaluate_complete}
use authz_plane.Resolver.Evidence.{Attests, IsHonest}
use authz_plane.Resolver.Attribution.{evaluate-Attributes}

-- The answer is "allowed" exactly when the user can be shown to hold the relation by a derivation of
-- at most eight levels, whatever the options.
pub explain-decides :
    (model : AuthorizationModel) (tuples : List StoredTuple) (check : CheckTuple)
    (opts : ResolverOptions)
    → ((explain model tuples check opts).allowed ≡ true)
      ↔ Grants model tuples check.user depth_cap check.object check.relation
unfolding explain
explain-decides model tuples check opts =
    let p = or_else opts.include_provenance true in
    (
      λ h.
          evaluate_sound model tuples p check.user 8 8 check.object check.relation 1 direct
            empty_ctx (omega arith) h,
      λ g.
          evaluate_complete model tuples p check.user false 8 8 check.object check.relation 1 direct
            empty_ctx (omega arith) (omega arith) g tt,
    )

-- Where the depth cap was not hit, a denial is final: no derivation of any length exists.
pub explain-denied :
    (model : AuthorizationModel) (tuples : List StoredTuple) (check : CheckTuple)
    (opts : ResolverOptions)
    → (explain model tuples check opts).stats.depth_cap_hit ≡ false
    → (explain model tuples check opts).allowed ≡ false
    → (n : ℕ) → ¬ Grants model tuples check.user n check.object check.relation
unfolding explain
explain-denied model tuples check opts clear denied n g = cc (
    evaluate_complete model tuples (or_else opts.include_provenance true) check.user true 8 n
      check.object check.relation 1 direct empty_ctx tt (omega arith) g clear)

-- Derivations survive new tuples.
Grants-mono :
    (model : AuthorizationModel) (tuples more : List StoredTuple) (user : String)
    → ((t : StoredTuple) → Memᴰ t tuples → Memᴰ t more)
    → {n : ℕ} {o r : String} → Grants model tuples user n o r
    → Grants model more user n o r
Grants-mono model tuples more user k (stored def t e d m p q u) = stored def t e d (k t m) p q u
Grants-mono model tuples more user k (computed def other e m g) =
    computed def other e m (Grants-mono model tuples more user k g)
Grants-mono model tuples more user k (through def ttu t e m mt p q g) =
    through def ttu t e m (k t mt) p q (Grants-mono model tuples more user k g)

-- Adding tuples, or changing their order, never turns an allowed answer into a denied one.
pub explain_mono :
    (model : AuthorizationModel) (tuples more : List StoredTuple) (check : CheckTuple)
    (opts opts' : ResolverOptions)
    → ((t : StoredTuple) → Memᴰ t tuples → Memᴰ t more)
    → (explain model tuples check opts).allowed ≡ true
    → (explain model more check opts').allowed ≡ true
explain_mono model tuples more check opts opts' k h =
    (explain-decides model more check opts').1
      (Grants-mono model tuples more check.user k ((explain-decides model tuples check opts).0 h))

IsHonest-empty_ctx : (tuples : List StoredTuple) (user : String) → IsHonest tuples user empty_ctx
IsHonest-empty_ctx tuples user = record { decisive = λ d e. cc }

-- An allowed answer names a decisive tuple, a faithful copy of a stored tuple by which the user who
-- is asked about holds some relation on some object; a denied answer names none.
pub explain-decisive :
    (model : AuthorizationModel) (tuples : List StoredTuple) (check : CheckTuple)
    (opts : ResolverOptions)
    → ((explain model tuples check opts).allowed ≡ true
        → (d : DecisiveTuple) × (object : String) × (relation : String) × ((explain model tuples
              check opts).decisive
            ≡ some d)
          × Attests tuples check.user d object relation)
      × ((explain model tuples check opts).allowed ≡ false
          → (explain model tuples check opts).decisive ≡ none)
unfolding explain
explain-decisive model tuples check opts =
    let p = or_else opts.include_provenance true in
    let a = evaluate-Attributes tuples check.user model p 8 check.object check.relation 1 direct in
    let last = (run model tuples p check.user 8 check.object check.relation 1 direct empty_ctx).1 in
    let honest = a.keeps empty_ctx (IsHonest-empty_ctx tuples check.user) in
    (
      λ h. elim (Option-cases last.decisive) [
        | inl missing ↦ cc (a.names empty_ctx h, ap {B = Bool} is_some missing)
        | inr (d, e) ↦
            (d, last.decisive_object, last.decisive_relation, rw h e, honest.decisive d e)
      ],
      λ h. rw h,
    )

same_test : (a b : Bool) → (a ≡ true → b ≡ true) → (b ≡ true → a ≡ true) → a ≡ b
same_test true b h k = sym (h refl)
same_test false true h k = k refl
same_test false false h k = refl

verdict_same :
    (model : AuthorizationModel) (tuples : List StoredTuple) (check : CheckTuple)
    (opts opts' : ResolverOptions)
    → (explain model tuples check opts).allowed ≡ (explain model tuples check opts').allowed
verdict_same model tuples check opts opts' =
    let there = explain-decides model tuples check opts in
    let back = explain-decides model tuples check opts' in
    same_test _ _ (λ h. back.1 (there.0 h)) (λ h. there.1 (back.0 h))

-- Every row of a batch carries its check and the verdict that `explain` gives for it, under any
-- options, in the order of the request.
pub batch_check-explain :
    (model : AuthorizationModel) (tuples : List StoredTuple) (checks : List CheckTuple)
    (opts opts' : ResolverOptions)
    → (map (λ r. r.check) (batch_check model tuples checks opts).results ≡ checks)
      × (map (λ r. r.allowed) (batch_check model tuples checks opts).results
          ≡ map (λ c. (explain model tuples c opts').allowed) checks)
unfolding batch_check
batch_check-explain model tuples checks opts opts' = rows checks
  where
    rows :
        (cs : List CheckTuple)
        → (map (λ (r : BatchCheckResult). r.check) (map (batch_row model tuples opts) cs) ≡ cs)
          × (map (λ (r : BatchCheckResult). r.allowed) (map (batch_row model tuples opts) cs)
              ≡ map (λ c. (explain model tuples c opts').allowed) cs)
    rows [] = (refl, refl)
    rows (c ∷ cs) =
        let (same, verdicts) = rows cs in
        (
          ap (λ t. c ∷ t) same,
          ap₂ (λ (b : Bool) (bs : List Bool). b ∷ bs)
              (verdict_same model tuples c (record opts { include_provenance = some false }) opts')
              verdicts,
        )
