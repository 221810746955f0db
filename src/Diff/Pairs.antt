-- ===== src/Diff/Pairs.antt =====
-- `yamlKey`, `pairChanges` and `diffLines`.
use Prim.Native.Char.{Char, code}
use Prim.Native.String.{[], ◌∷◌}
use authz_plane.Common.{
  ℕ, zero, suc, ◌+◌, String, Option, none, some, List, [], ◌∷◌, ◌++◌, Bool, true, false, not, ◌&&◌,
  ◌||◌, eqb, leb, length, if◌then◌else◌, ◌==◌, show, template, includes, append_char, or_else,
}
use authz_plane.Common.Chars.{is_space}
use authz_plane.Diff.Types.{DiffOpKind, equal, added, removed, changed, DiffOp}
use authz_plane.Diff.Align.{align_lines}
use mathlib.Core.Option

-- [A-Za-z_] and [\w.-]
abbrev pub is_letter : Char → Bool
is_letter c =
    leb 65 (code c) && leb (code c) 90 || leb 97 (code c) && leb (code c) 122 || eqb (code c) 95

abbrev pub is_key_char : Char → Bool
is_key_char c =
    is_letter c || leb 48 (code c) && leb (code c) 57 || eqb (code c) 46 || eqb (code c) 45

-- The expression's parts from the right: `\s*:`, then the key, then the dash, then the indent. No
-- part can give back a character that the next one could take, so there is no backtracking.
unfoldable pub colon_next : String → Bool
colon_next [] = false
colon_next (c ∷ s) = let more = colon_next s in if is_space c then more else eqb (code c) 58

-- The key is its first letter and what follows; `got` is the part that is read.
unfoldable pub key_from : String → String → Option String
unfolding colon_next
key_from got [] = none
key_from got (c ∷ s) =
    let more = key_from (append_char got c) s in
    if is_key_char c then more else if colon_next (c ∷ s) then some got else none

unfoldable pub key_at : String → Option String
unfolding key_from
key_at [] = none
key_at (c ∷ s) = if is_letter c then key_from (c ∷ []) s else none

abbrev pub spelled : ℕ → String → Option String → Option String
spelled n dash none = none
spelled n dash (some key) = some (template (show n ∷ ":" ∷ dash ∷ key ∷ []))

-- after the dash: `\s+`, then the key
unfoldable pub dash_key : ℕ → Bool → String → Option String
unfolding key_at
dash_key n spaced [] = none
dash_key n spaced (c ∷ s) =
    let more = dash_key n true s in
    if is_space c then more else if spaced then spelled n "-" (key_at (c ∷ s)) else none

unfoldable pub yaml_key_from : ℕ → String → Option String
unfolding dash_key key_at show
yaml_key_from n [] = none
yaml_key_from n (c ∷ s) =
    let more = yaml_key_from (n + 1) s in
    if is_space c
    then more
    else if eqb (code c) 45
    then dash_key n false s
    else spelled n "" (key_at (c ∷ s))

unfoldable pub yaml_key : String → Option String
unfolding yaml_key_from
yaml_key line = yaml_key_from 0 line

abbrev pub is_kind : DiffOpKind → DiffOpKind → Bool
is_kind equal equal = true
is_kind added added = true
is_kind removed removed = true
is_kind changed changed = true
is_kind _ _ = false

-- `while (i < ops.length && ops[i].kind === kind)`: the run, and what follows it.
unfoldable pub run : DiffOpKind → List DiffOp → List DiffOp
run k [] = []
run k (o ∷ os) = let more : List DiffOp = o ∷ run k os in if is_kind o.kind k then more else []

unfoldable pub rest : DiffOpKind → List DiffOp → List DiffOp
rest k [] = []
rest k (o ∷ os) = let more = rest k os in if is_kind o.kind k then more else o ∷ os

abbrev pub same_key : Option String → Option String → Bool
same_key (some l) (some r) = l == r && not (includes l ":-")
same_key _ _ = false

-- `removed.length === added.length && removed.every(...)`
unfoldable pub pairable : List DiffOp → List DiffOp → Bool
unfolding yaml_key includes
pairable [] [] = true
pairable (r ∷ rs) (a ∷ ls) =
    same_key (yaml_key (or_else r.left "")) (yaml_key (or_else a.right "")) && pairable rs ls
pairable _ _ = false

abbrev pub changed_op : DiffOp → DiffOp → DiffOp
changed_op r a = record {
  kind = changed;
  left = r.left;
  right = a.right;
  left_n = r.left_n;
  right_n = a.right_n;
}

unfoldable pub pair_up : List DiffOp → List DiffOp → List DiffOp
pair_up (r ∷ rs) (a ∷ ls) = changed_op r a ∷ pair_up rs ls
pair_up _ _ = []

-- What one removed run and the added run behind it come to.
unfoldable pub collapse : List DiffOp → List DiffOp → List DiffOp
unfolding pairable pair_up
collapse rs ls = if pairable rs ls then pair_up rs ls else rs ++ ls

-- The loop, on fuel; `none` means that the fuel ran out.
unfoldable pub pair_from : ℕ → List DiffOp → Option (List DiffOp)
unfolding run rest collapse
pair_from fuel [] = some []
pair_from zero (o ∷ os) = none
pair_from (suc fuel) (o ∷ os) =
    let dels = run removed (o ∷ os) in
    let tail = rest removed (o ∷ os) in
    let adds = run added tail in
    let later = pair_from fuel (rest added tail) in
    let next = pair_from fuel os in
    if not (is_kind o.kind removed)
    then Option.map (λ t. o ∷ t) next
    else Option.map (λ t. collapse dels adds ++ t) later

unfoldable pub pair_changes : List DiffOp → Option (List DiffOp)
unfolding pair_from
pair_changes ops = pair_from (length ops) ops

unfoldable pub diff_lines : String → String → Option (List DiffOp)
unfolding pair_changes align_lines
diff_lines a b = pair_changes (align_lines a b)
