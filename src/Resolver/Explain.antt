-- ===== src/Resolver/Explain.antt =====
-- `explain`, the sentence that it gives as its reason, and `batchCheck`.
use Prim.Native.Char.{Char, code}
use Prim.Native.String.{[], ◌∷◌}
use authz_plane.Common.{
  ℕ, String, Option, none, some, List, [], ◌∷◌, Bool, true, false, not, eqb, ◌&&◌, ◌||◌,
  if◌then◌else◌, ◌==◌, map, template, or_else, min, show, ends_with, is_some,
}
use authz_plane.Common.Dict.{Dict, get}
use authz_plane.Resolver.Model.{
  AuthorizationModel, StoredTuple, CheckTuple, Consistency, strong, eventual, ResolverOptions,
  direct, ExplainNode, grants, DecisiveTuple, Ctx, depth_cap, type_of, id_of,
}
use authz_plane.Resolver.Evaluate.{evaluate}

abbrev pub verbs : Dict String
verbs =
    ("viewer", "view")
    ∷ ("editor", "edit")
    ∷ ("owner", "own")
    ∷ ("auditor", "audit")
    ∷ ("admin", "administer")
    ∷ ("member", "be a member of")
    ∷ ("parent", "be a parent of")
    ∷ []

unfoldable pub verb_for : String → String
unfolding get
verb_for relation = or_else (get relation verbs) (template ("hold " ∷ relation ∷ " on" ∷ []))

abbrev is_code : Char → ℕ → ℕ → Bool
is_code c lower upper = eqb (code c) lower || eqb (code c) upper

abbrev starts_with_vowel : String → Bool
starts_with_vowel [] = false
starts_with_vowel (c ∷ s) =
    is_code c b'a' b'A'
    || is_code c b'e' b'E'
    || is_code c b'i' b'I'
    || is_code c b'o' b'O'
    || is_code c b'u' b'U'

unfoldable pub article_for : String → String
article_for word = if starts_with_vowel word then "an" else "a"

unfoldable pub plural : String → String
unfolding ends_with
plural word = if ends_with b's' word then word else template (word ∷ "s" ∷ [])

abbrev denial : CheckTuple → String → String → String → String
denial check who verb what = template (
    who ∷ " cannot " ∷ verb ∷ " " ∷ what ∷ ": no tuple grants " ∷ check.relation ∷ " on "
    ∷ check.object ∷ " to " ∷ check.user ∷ ", directly or through a parent." ∷ [])

unfoldable pub reason_for : CheckTuple → Ctx → Bool → String
unfolding type_of id_of verb_for article_for plural show
reason_for check ctx allowed =
    let who = id_of check.user in
    let what = id_of check.object in
    let verb = verb_for check.relation in
    let base = denial check who verb what in
    let rel = ctx.decisive_relation in
    let obj = ctx.decisive_object in
    let can = template (
      who
      ∷ " can "
      ∷ verb
      ∷ " "
      ∷ what
      ∷ " because "
      ∷ who
      ∷ " is "
      ∷ article_for rel
      ∷ " "
      ∷ rel
      ∷ " of "
      ∷ obj
      ∷ []) in
    if not allowed || not (is_some ctx.decisive)
    then if ctx.depth_cap_hit
      then template (base ∷ " Resolution stopped at the depth cap of " ∷ show depth_cap ∷ "." ∷ [])
      else base
    else if obj == check.object && rel == check.relation
    then template (can ∷ " directly." ∷ [])
    else if obj == check.object
    then template (
        can
        ∷ ", and "
        ∷ type_of obj
        ∷ " "
        ∷ plural rel
        ∷ " are also "
        ∷ plural check.relation
        ∷ "."
        ∷ [])
    else template (
        can
        ∷ ", and "
        ∷ type_of check.object
        ∷ " "
        ∷ plural check.relation
        ∷ " inherit from parent "
        ∷ type_of obj
        ∷ " "
        ∷ plural rel
        ∷ "."
        ∷ [])

pub record ExplainStats : Type 0 where
  pub nodes_evaluated : ℕ
  pub max_depth : ℕ
  pub depth_cap : ℕ
  pub depth_cap_hit : Bool
  pub fga_calls : ℕ

pub record ExplainResponse : Type 0 where
  pub allowed : Bool
  pub checked_at : String
  pub duration_ms : ℕ
  pub cached : Bool
  pub consistency : Consistency
  pub model_version : ℕ
  pub tree : ExplainNode
  pub decisive : Option DecisiveTuple
  pub reason : String
  pub stats : ExplainStats

abbrev pub empty_ctx : Ctx
empty_ctx = record {
  nodes = 0;
  max_depth = 0;
  depth_cap_hit = false;
  decisive = none;
  decisive_object = "";
  decisive_relation = "";
}

abbrev pub is_strong : Consistency → Bool
is_strong strong = true
is_strong eventual = false

unfoldable pub explain :
    AuthorizationModel → List StoredTuple → CheckTuple → ResolverOptions → ExplainResponse
unfolding evaluate reason_for
explain model tuples check opts =
    let (tree, ctx) =
      evaluate model tuples (or_else opts.include_provenance true) check.user depth_cap check.object
        check.relation 1 direct empty_ctx in
    let allowed = grants tree in
    record {
      allowed = allowed;
      checked_at = opts.now;
      duration_ms = if is_strong opts.consistency then 7 else 2;
      cached = not (is_strong opts.consistency);
      consistency = opts.consistency;
      model_version = opts.model_version;
      tree = tree;
      decisive = if allowed then ctx.decisive else none;
      reason = reason_for check ctx allowed;
      stats = record {
        nodes_evaluated = ctx.nodes;
        max_depth = min ctx.max_depth depth_cap;
        depth_cap = depth_cap;
        depth_cap_hit = ctx.depth_cap_hit;
        fga_calls = 1;
      };
    }

pub record BatchCheckResult : Type 0 where
  pub check : CheckTuple
  pub allowed : Bool
  pub duration_ms : ℕ

pub record BatchCheckResponse : Type 0 where
  pub checked_at : String
  pub consistency : Consistency
  pub model_version : ℕ
  pub results : List BatchCheckResult

abbrev pub batch_row :
    AuthorizationModel → List StoredTuple → ResolverOptions → CheckTuple → BatchCheckResult
batch_row model tuples opts c =
    let r = explain model tuples c (record opts { include_provenance = some false }) in
    record { check = c; allowed = r.allowed; duration_ms = r.duration_ms }

unfoldable pub batch_check :
    AuthorizationModel → List StoredTuple → List CheckTuple → ResolverOptions → BatchCheckResponse
unfolding explain
batch_check model tuples checks opts = record {
  checked_at = opts.now;
  consistency = opts.consistency;
  model_version = opts.model_version;
  results = map (batch_row model tuples opts) checks;
}
