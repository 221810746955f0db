-- ===== src/Staging/Laws.antt =====
-- What staging a draft does, and that a model is always validated.
use authz_plane.Common.{
  ℕ, ◌+◌, String, Option, none, some, List, [], ◌∷◌, true, ◌≡◌, refl, ap, sym, ◌∙◌, subst, arith,
  eqb, if◌then◌else◌, map, Option-cases, Bool-cases, inl, inr, eq_refl, any-append, Memᴰ,
}
use authz_plane.Common.Dict.{Dict, get, set, get-set}
use authz_plane.Dsl.Types.{ParseIssue, TypeDef, RelationDef}
use authz_plane.Dsl.References.{parse_model}
use authz_plane.Dsl.Closed.{IsClosed, parse_model-IsClosed}
use authz_plane.Tenants.Types.{TenantDetail}
use authz_plane.Staging.Server.{
  ModelVersion, ModelState, AuthorizationModel, StageResult, Result, done, Fixtures, has_version,
  put_version, rejected, next_version, staged_state, state_for, get_authorization_model,
  stage_model,
}

replaced :
    (entry : ModelVersion) (versions : List ModelVersion)
    → has_version entry.version versions ≡ true
    → has_version entry.version
        (map (λ (v : ModelVersion). if eqb v.version entry.version then entry else v) versions)
      ≡ true
replaced entry [] h = h
replaced entry (v ∷ vs) h = ground (arith, replaced entry vs)

put_version-has :
    (entry : ModelVersion) (versions : List ModelVersion)
    → has_version entry.version (put_version entry versions) ≡ true
put_version-has entry versions = elim (Bool-cases (has_version entry.version versions)) [
  | inl there ↦ rw there (replaced entry versions there)
  | inr absent ↦ ground (
    arith,
    absent,
    any-append (λ (v : ModelVersion). eqb v.version entry.version) versions (entry ∷ []),
  )
]

no_issues : (issues : List ParseIssue) → rejected issues ≡ none → issues ≡ []
no_issues [] h = refl
no_issues (i ∷ is) h = cc

module _ (tenant_for : String → Option TenantDetail) (fixtures : Fixtures) where
  -- How a draft came to be staged.
  record Staged (slug dsl now : String) (store store' : Dict ModelState) (r : StageResult)
      : Type 0 where
    before : ModelState
    first : Dict ModelState
    tenant : TenantDetail
    found : state_for tenant_for fixtures slug store ≡ (some before, first)
    known : tenant_for slug ≡ some tenant
    clean : rejected (parse_model dsl).issues ≡ none
    result : r ≡ record {
      generation = tenant.summary.generation + 1;
      version = next_version before;
      staged_at = now;
    }
    after : store' ≡ set slug (staged_state before dsl (tenant.summary.generation + 1) now) first

  stage_clean :
      (slug dsl now : String) (store : Dict ModelState) (s : ModelState) (tenant : TenantDetail)
      → (state_for tenant_for fixtures slug store).0 ≡ some s
      → tenant_for slug ≡ some tenant
      → rejected (parse_model dsl).issues ≡ none
      → stage_model tenant_for fixtures slug dsl now store ≡ (
        done (record {
          generation = tenant.summary.generation + 1;
          version = next_version s;
          staged_at = now;
        }),
        set slug
            (staged_state s dsl (tenant.summary.generation + 1) now)
            (state_for tenant_for fixtures slug store).1,
      )
  unfolding stage_model
  stage_clean slug dsl now store s tenant found known clean =
      rw (stage_model, found, known, clean) refl

  stage_model-Staged :
      (slug dsl now : String) (store store' : Dict ModelState) (r : StageResult)
      → stage_model tenant_for fixtures slug dsl now store ≡ (done r, store')
      → Staged slug dsl now store store' r
  unfolding stage_model
  stage_model-Staged slug dsl now store store' r h =
      let p = state_for tenant_for fixtures slug store in
      elim (Option-cases p.0) [
        | inl missing ↦ ground (arith, missing)
        | inr (s, found) ↦ elim (Option-cases (tenant_for slug)) [
          | inl unknown ↦ ground (arith, found, unknown)
          | inr (tenant, known) ↦ elim (Option-cases (rejected (parse_model dsl).issues)) [
            | inr (failure, bad) ↦ ground (arith, found, known, bad)
            | inl clean ↦
                let e = sym (stage_clean slug dsl now store s tenant found known clean) ∙ h in
                record {
                  before = s;
                  first = p.1;
                  tenant = tenant;
                  found = ap (λ o. (o, p.1)) found;
                  known = known;
                  clean = clean;
                  result = cc (e);
                  after = sym (ap (λ (q : Result StageResult × Dict ModelState). q.1) e);
                }
          ]
        ]
      ]

  state_stored :
      (slug : String) (s : ModelState) (first : Dict ModelState)
      → state_for tenant_for fixtures slug (set slug s first) ≡ (some s, set slug s first)
  unfolding state_for
  state_stored slug s first =
      let stored : get slug (set slug s first) ≡ some s =
        get-set slug slug s first ∙ rw (eq_refl slug) refl in
      rw (state_for, stored) refl

  -- The next read shows a staged draft.
  read_back :
      (slug : String) (s : ModelState) (first : Dict ModelState) (tenant : TenantDetail)
      → tenant_for slug ≡ some tenant
      → get_authorization_model tenant_for fixtures slug (set slug s first) ≡ (
        some (record {
          slug = slug;
          live_version = s.live_version;
          draft_version = s.draft_version;
          live_dsl = s.live_dsl;
          draft_dsl = s.draft_dsl;
          versions = s.versions;
          tuple_count = tenant.tuple_count;
          cached_decisions = s.cached_decisions;
        }),
        set slug s first,
      )
  unfolding get_authorization_model
  read_back slug s first tenant known =
      rw (get_authorization_model, state_stored slug s first, known)
        (cc (state_stored slug s first))

  -- What holds after a draft is staged as a version, from the state before.
  pub record IsStaged (slug dsl : String) (version : ℕ) (before : ModelState)
      (store : Dict ModelState) : Type 0 where
    pub model : AuthorizationModel
    pub read : get_authorization_model tenant_for fixtures slug store ≡ (some model, store)
    pub draft : (model.draft_dsl ≡ dsl) × (model.draft_version ≡ some version)
    pub live : (model.live_dsl ≡ before.live_dsl) × (model.live_version ≡ before.live_version)
    pub listed : has_version version model.versions ≡ true

  -- A draft that is staged parses without an issue, so every name that it mentions is defined. The
  -- next read shows it under its version, which is listed, with the live model as it was; and a
  -- draft staged after it gets the same version.
  pub stage_model-IsStaged :
      (slug dsl now : String) (store store' : Dict ModelState) (r : StageResult)
      → stage_model tenant_for fixtures slug dsl now store ≡ (done r, store')
      → ((parse_model dsl).issues ≡ [])
        × ((type : TypeDef)
            → Memᴰ type (parse_model dsl).types
            → (rel : RelationDef) → Memᴰ rel type.relations
            → IsClosed (parse_model dsl).types type rel)
        × ((before : ModelState)
            → (state_for tenant_for fixtures slug store).0 ≡ some before
            → IsStaged slug dsl r.version before store')
        × ((other later : String) (store'' : Dict ModelState) (r' : StageResult)
            → stage_model tenant_for fixtures slug other later store' ≡ (done r', store'')
            → r'.version ≡ r.version)
  unfolding staged_state
  stage_model-IsStaged slug dsl now store store' r h =
      let w = stage_model-Staged slug dsl now store store' r h in
      let clean = no_issues (parse_model dsl).issues w.clean in
      let s = staged_state w.before dsl (w.tenant.summary.generation + 1) now in
      let version : next_version w.before ≡ r.version =
        ap (λ (q : StageResult). q.version) (sym w.result) in
      (
        clean,
        (parse_model-IsClosed dsl clean).1,
        λ before found.
            let same : w.before ≡ before = cc (w.found, found) in
            record {
              model = record {
                slug = slug;
                live_version = s.live_version;
                draft_version = s.draft_version;
                live_dsl = s.live_dsl;
                draft_dsl = s.draft_dsl;
                versions = s.versions;
                tuple_count = w.tenant.tuple_count;
                cached_decisions = s.cached_decisions;
              };
              read = rw w.after (read_back slug s w.first w.tenant w.known);
              draft = (refl, ap some version);
              live = (
                ap (λ (m : ModelState). m.live_dsl) same,
                ap (λ (m : ModelState). m.live_version) same,
              );
              listed =
                  subst (λ v. has_version v s.versions ≡ true) version
                    (put_version-has _ w.before.versions);
            },
        λ other later store'' r' k.
            let w' = stage_model-Staged slug other later store' store'' r' k in
            let stored : state_for tenant_for fixtures slug store' ≡ (some s, store') =
              rw w.after (state_stored slug s w.first) in
            let same : w'.before ≡ s = cc (w'.found, stored) in
            ap (λ (q : StageResult). q.version) w'.result ∙ ap next_version same ∙ version,
      )
