-- ===== src/Dsl/Tests.antt =====
-- A small model, parsed.
use Prim.Native.String.{◌++◌}
use authz_plane.Common.Chars.{all_chars, is_line_end}
use authz_plane.Dsl.Tokens.{Token, tokenize_line}
use authz_plane.Dsl.Joined.{joined, tokenize_line-joined}
use authz_plane.Dsl.Summary.{all_relations, summarize}
use authz_plane.Dsl.Ends.{summarize-total}
use authz_plane.Dsl.Lines.{norm, diff_dsl, new_relations}
use authz_plane.Dsl.Changes.{diff_dsl-same}
use authz_plane.Common.{
  ℕ, not, ◌≢◌, ◌↔◌, String, is_some, some, [], ◌∷◌, true, ◌≡◌, refl, length, map, Memᴰ,
}
use authz_plane.Dsl.Types.{TypeDef, RelationDef, ParseIssue, ParsedModel}
use authz_plane.Dsl.References.{parse_model}
use authz_plane.Dsl.Closed.{IsClosed, parse_model-IsClosed}

abbrev source : String
source =
    "model\n  schema 1.1\r\n\ntype user\ntype folder\n  relations\n    define parent: [folder]\n    define viewer: [user, user:*] or viewer from parent # inherited\n"

parsed_issues : (parse_model source).issues ≡ []
unfolding parse_model
parsed_issues = refl

parse_model-IsClosed_example :
    (is_some (parse_model source).schema ≡ true)
    × ((type : TypeDef)
        → Memᴰ type (parse_model source).types
        → (rel : RelationDef) → Memᴰ rel type.relations
        → IsClosed (parse_model source).types type rel)
parse_model-IsClosed_example = parse_model-IsClosed source parsed_issues

parsed_relations : map (λ (t : TypeDef). length t.relations) (parse_model source).types ≡ 0 ∷ 2 ∷ []
unfolding parse_model
parsed_relations = refl

unknown :
    map
      (λ (i : ParseIssue). i.message)
      (parse_model "model\nschema 1.1\ntype a\ndefine x: y or [b] but not z from q").issues
    ≡ "unknown type \"b\" in a.x" ∷ "unknown relation \"y\" referenced by a.x"
      ∷ "unknown relation \"q\" in \"z from q\" on a" ∷ []
unfolding parse_model
unknown = refl

abbrev line : String
line = "  define viewer: [user] or a from b but  not c # 1.5"

one_line : all_chars (λ d. not (is_line_end d)) line ≡ true
unfolding all_chars
one_line = refl

kinds :
    map (λ (t : Token). t.text) (tokenize_line line 3).tokens
    ≡ "define" ∷ " " ∷ "viewer" ∷ ":" ∷ " " ∷ "[" ∷ "user" ∷ "]" ∷ " " ∷ "or" ∷ " " ∷ "a" ∷ " "
      ∷ "from" ∷ " " ∷ "b" ∷ " " ∷ "but  not" ∷ " " ∷ "c" ∷ " " ∷ "# 1.5" ∷ []
unfolding tokenize_line
kinds = refl

tokenize_line-joined_example :
    (tokenize_line line 3).indent ++ joined (tokenize_line line 3).tokens ≡ line
tokenize_line-joined_example = tokenize_line-joined line 3 one_line

-- Two relations computed from each other, and one behind them.
abbrev cyclic : ParsedModel
cyclic = parse_model "model\nschema 1.1\ntype t\ndefine a: b\ndefine b: a\ndefine c: a"

cyclic_summary : summarize cyclic ≡ some (record { types = 1; relations = 3; depth = 3 })
unfolding summarize parse_model
cyclic_summary = refl

summarize-total_example :
    (depth : ℕ) × (summarize cyclic
      ≡ some (record {
        types = length cyclic.types;
        relations = length (all_relations cyclic.types);
        depth = depth;
      }))
summarize-total_example = summarize-total cyclic

draft_lines : diff_dsl "a\nb\n\n" " b\nc" ≡ record { added = 2 ∷ []; removed = "a" ∷ [] }
unfolding diff_dsl
draft_lines = refl

diff_dsl-same_example :
    (((diff_dsl "a\nb" " b\n\na").added ≡ []) × ((diff_dsl "a\nb" " b\n\na").removed ≡ []))
    ↔ ((l : String) → l ≢ "" → Memᴰ l (norm "a\nb") ↔ Memᴰ l (norm " b\n\na"))
diff_dsl-same_example = diff_dsl-same "a\nb" " b\n\na"

new_in_draft :
    new_relations
      (parse_model "model\nschema 1.1\ntype t\ndefine a: b")
      (parse_model "type t\ndefine a: b\ndefine c: b\ntype u\ndefine d: c")
    ≡ "t#c" ∷ "u#d" ∷ []
unfolding new_relations parse_model
new_in_draft = refl
