-- ===== src/Dsl/Parse.antt =====
-- `parseModel`: the lines, the definitions and the check of the references.
use Prim.Native.Char.{code}
use Prim.Native.String.{String, [], ◌∷◌}
use authz_plane.Common.{
  ℕ, ◌+◌, Option, none, some, List, [], ◌∷◌, ◌++◌, Bool, true, false, not, ◌&&◌, ◌||◌, ◌==◌, eqb,
  if◌then◌else◌, any, split_on, template,
}
use authz_plane.Common.Chars.{
  is_space, is_line_end, is_word, is_word_part, all_chars, span, trim, trim_start, runs,
}
use authz_plane.Dsl.Types.{TupleToUserset, RelationDef, TypeDef, ParseIssue}

abbrev pub issue : ℕ → List String → ParseIssue
issue line parts = record { line = line; message = template parts }

-- `raw.replace(/#.*$/, "")`: from the first `#` behind which the line does not break.
unfoldable pub strip_comment : String → String
unfolding all_chars
strip_comment [] = ""
strip_comment (c ∷ s) =
    let rest = strip_comment s in
    if eqb (code c) b'#' && all_chars (λ d. not (is_line_end d)) s then "" else c ∷ rest

-- The text between the brackets: `/^\[(.*)\]$/`.
unfoldable pub until_bracket : String → Option String
until_bracket [] = none
until_bracket (c ∷ []) = if eqb (code c) b']' then some "" else none
until_bracket (c ∷ d ∷ s) = elim (until_bracket (d ∷ s)) [
  | none ↦ none
  | some inner ↦ if is_line_end c then none else some (c ∷ inner)
]

unfoldable pub bracketed : String → Option String
unfolding until_bracket
bracketed [] = none
bracketed (c ∷ s) = if eqb (code c) b'[' then until_bracket s else none

-- `/^([A-Za-z_][\w-]*)\s+from\s+([A-Za-z_][\w-]*)$/`, on the runs of the term
abbrev pub from_runs : List (Bool × String) → Option TupleToUserset
from_runs ((false, a) ∷ (true, _) ∷ (false, word) ∷ (true, _) ∷ (false, b) ∷ []) =
    if word == "from" && is_word a && is_word b
    then some (record { relation = a; via = b })
    else none
from_runs _ = none

-- The names of a bracketed list that are not empty.
abbrev pub names_of : List String → List String
names_of [] = []
names_of (t ∷ ts) = let rest = names_of ts in if trim t == "" then rest else trim t ∷ rest

-- A relation and the issues, with a term read.
abbrev pub Reading : Type 0
Reading = RelationDef × List ParseIssue

unfoldable pub parse_term : String → ℕ → Reading → Reading
unfolding bracketed runs is_word trim split_on
parse_term term line (rel, issues) = elim (bracketed term) [
  | some inner ↦ (record rel { direct = rel.direct ++ names_of (split_on b',' inner) }, issues)
  | none ↦ elim (from_runs (runs term)) [
    | some ttu ↦ (record rel { tuple_to_userset = rel.tuple_to_userset ++ (ttu ∷ []) }, issues)
    | none ↦
        if is_word term then (record rel { computed = rel.computed ++ (term ∷ []) }, issues) else (
          rel,
          issues ++ (issue line ("cannot parse \"" ∷ term ∷ "\" in define " ∷ rel.name ∷ []) ∷ []),
        )
  ]
]

-- `s.split(/\s+(?:or|and|but not)\s+/)`, on the runs of the text; `cur` is the part read so far.
unfoldable pub split_terms : String → List (Bool × String) → List String
split_terms cur [] = cur ∷ []
split_terms cur ((true, sp) ∷ (false, w) ∷ (true, s2) ∷ (false, w2) ∷ (true, s3) ∷ rest) =
    elim (w == "or" || w == "and") [
      | true ↦ cur ∷ split_terms "" ((false, w2) ∷ (true, s3) ∷ rest)
      | false ↦ elim (w == "but" && s2 == " " && w2 == "not") [
        | true ↦ cur ∷ split_terms "" rest
        | false ↦
            split_terms (template (cur ∷ sp ∷ []))
              ((false, w) ∷ (true, s2) ∷ (false, w2) ∷ (true, s3) ∷ rest)
      ]
    ]
split_terms cur ((true, sp) ∷ (false, w) ∷ (true, s2) ∷ rest) = elim (w == "or" || w == "and") [
  | true ↦ cur ∷ split_terms "" rest
  | false ↦ split_terms (template (cur ∷ sp ∷ [])) ((false, w) ∷ (true, s2) ∷ rest)
]
split_terms cur ((space, r) ∷ rest) = split_terms (template (cur ∷ r ∷ [])) rest

-- `/^schema\s+(\S+)$/` and `/^type\s+([A-Za-z_][\w-]*)$/`
abbrev pub argument_of : String → List (Bool × String) → Option String
argument_of keyword ((false, w) ∷ (true, _) ∷ (false, v) ∷ []) =
    if w == keyword then some v else none
argument_of keyword _ = none

abbrev pub type_match : List (Bool × String) → Option String
type_match rs = elim (argument_of "type" rs) [
  | none ↦ none
  | some name ↦ if is_word name then some name else none
]

unfoldable pub strip_prefix : String → String → Option String
strip_prefix [] s = some s
strip_prefix (c ∷ p) [] = none
strip_prefix (c ∷ p) (d ∷ s) =
    let rest = strip_prefix p s in if eqb (code c) (code d) then rest else none

-- `/^define\s+([A-Za-z_][\w-]*)\s*:\s*(.+)$/` on a trimmed line: the name and the terms.
unfoldable pub define_match : String → Option (String × String)
unfolding strip_prefix span is_word trim_start all_chars
define_match line = elim (strip_prefix "define" line) [
  | none ↦ none
  | some s ↦
      let (sp, s1) = span is_space s in
      let (name, s2) = span is_word_part s1 in
      elim (strip_prefix ":" (trim_start s2)) [
        | none ↦ none
        | some s3 ↦
            let terms = trim_start s3 in
            if not (sp == "")
              && is_word name
              && not (terms == "")
              && all_chars (λ d. not (is_line_end d)) terms
            then some (name, terms)
            else none
      ]
]

-- What the loop over the lines holds; the current type is the last one.
pub record ParseState : Type 0 where
  pub schema : Option String
  pub types : List TypeDef
  pub issues : List ParseIssue
  pub saw_model : Bool

abbrev pub add_issue : ℕ → List String → ParseState → ParseState
add_issue n parts st = record st { issues = st.issues ++ (issue n parts ∷ []) }

abbrev pub current : List TypeDef → Option TypeDef
current [] = none
current (t ∷ []) = some t
current (t ∷ u ∷ ts) = current (u ∷ ts)

abbrev pub add_relation : RelationDef → List TypeDef → List TypeDef
add_relation rel [] = []
add_relation rel (t ∷ []) = record t { relations = t.relations ++ (rel ∷ []) } ∷ []
add_relation rel (t ∷ u ∷ ts) = t ∷ add_relation rel (u ∷ ts)

abbrev pub has_type : String → List TypeDef → Bool
has_type name types = any (λ (t : TypeDef). t.name == name) types

abbrev pub has_relation : String → TypeDef → Bool
has_relation name type = any (λ (r : RelationDef). r.name == name) type.relations

unfoldable pub parse_terms : List String → ℕ → Reading → Reading
unfolding parse_term trim
parse_terms [] n reading = reading
parse_terms (t ∷ ts) n reading = parse_terms ts n (parse_term (trim t) n reading)

abbrev pub parse_type : String → ℕ → ParseState → ParseState
parse_type name n st =
    let st' =
      if has_type name st.types
      then add_issue n ("duplicate type \"" ∷ name ∷ "\"" ∷ []) st
      else st in
    record st' { types = st.types ++ (record { name = name; relations = []; line = n } ∷ []) }

-- The issue of a second relation of one name.
abbrev pub duplicate_relation : String → ℕ → TypeDef → List ParseIssue
duplicate_relation name n type =
    if has_relation name type
    then issue n ("duplicate relation \"" ∷ name ∷ "\" on type " ∷ type.name ∷ []) ∷ []
    else []

unfoldable pub parse_define : String → String → ℕ → ParseState → ParseState
unfolding parse_terms split_terms runs
parse_define name terms n st = elim (current st.types) [
  | none ↦ add_issue n ("define " ∷ name ∷ " outside a type" ∷ []) st
  | some type ↦
      let empty : RelationDef = record {
        name = name;
        direct = [];
        computed = [];
        tuple_to_userset = [];
        line = n;
      } in
      let (rel, issues) =
        parse_terms (split_terms "" (runs terms)) n
          (empty, st.issues ++ duplicate_relation name n type) in
      record st { types = add_relation rel st.types; issues = issues }
]

unfoldable pub parse_line : String → ℕ → ParseState → ParseState
unfolding parse_define define_match runs is_word
parse_line text n st =
    if text == ""
    then st
    else if text == "model"
    then record st { saw_model = true }
    else elim (argument_of "schema" (runs text)) [
      | some version ↦ record st { schema = some version }
      | none ↦ elim (type_match (runs text)) [
        | some name ↦ parse_type name n st
        | none ↦
            if text == "relations"
            then elim (current st.types) [
              | none ↦ add_issue n ("relations block outside a type" ∷ []) st
              | some type ↦ st
            ]
            else elim (define_match text) [
              | some (name, terms) ↦ parse_define name terms n st
              | none ↦ add_issue n ("unexpected line \"" ∷ text ∷ "\"" ∷ []) st
            ]
      ]
    ]

unfoldable pub parse_lines : ℕ → List String → ParseState → ParseState
unfolding parse_line strip_comment trim
parse_lines n [] st = st
parse_lines n (raw ∷ lines) st =
    parse_lines (n + 1) lines (parse_line (trim (strip_comment raw)) n st)
