-- ===== src/Dsl/Changes.antt =====
-- When a draft shows no changed line.
use authz_plane.Common.{
  ℕ, ◌+◌, String, List, [], ◌∷◌, true, false, ◌==◌, ◌≡◌, ◌≢◌, ◌↔◌, refl, sym, subst, arith, any,
  filter, Memᴰ, mem-cons_cases, inl, inr, Bool-cases, eq_iff, or-true_right,
}
use authz_plane.Dsl.Lines.{norm, is_new, added_from, diff_dsl}

any_mem : (l : String) (ls : List String) → any (λ o. o == l) ls ≡ true → Memᴰ l ls
any_mem l [] h = cc
any_mem l (o ∷ ls) h = elim (Bool-cases (o == l)) [
  | inl same ↦ Memᴰ.head (ground (arith, eq_iff o l))
  | inr other ↦ Memᴰ.tail (any_mem l ls (ground arith))
]

mem_any : (l : String) (ls : List String) → Memᴰ l ls → any (λ o. o == l) ls ≡ true
mem_any l [] m = elim m [ ]
mem_any l (o ∷ ls) m = elim (mem-cons_cases m) [
  | inl e ↦ ground (arith, eq_iff o l, e)
  | inr m' ↦ or-true_right (o == l) _ (mem_any l ls m')
]

-- Every line that is not blank is one of the others.
abbrev Covers : List String → List String → Type 0
Covers others ls = (l : String) → Memᴰ l ls → l ≢ "" → Memᴰ l others

is_new-member :
    (others : List String) (l : String) → is_new others l ≡ false → l ≢ "" → Memᴰ l others
is_new-member others l h n =
    let blank : (l == "") ≡ false = ground (arith, eq_iff l "") in any_mem l others (ground arith)

none_new : (others ls : List String) → filter (is_new others) ls ≡ [] → Covers others ls
none_new others [] h = λ l m n. elim m [ ]
none_new others (x ∷ ls) h = λ l m n. elim (Bool-cases (is_new others x)) [
  | inl new ↦ ground arith
  | inr old ↦ elim (mem-cons_cases m) [
    | inl e ↦ subst (λ y. y ≢ "" → Memᴰ y others) (sym e) (is_new-member others x old) n
    | inr m' ↦ none_new others ls (ground arith) l m' n
  ]
]

all_covered : (others ls : List String) → Covers others ls → filter (is_new others) ls ≡ []
all_covered others [] h = refl
all_covered others (x ∷ ls) h =
    let rest = all_covered others ls (λ l m n. h l (Memᴰ.tail m) n) in
    elim (Bool-cases (x == "")) [
      | inl blank ↦ ground (arith, rest)
      | inr text ↦
          let there = mem_any x others (h x (Memᴰ.head refl) (ground (arith, eq_iff x ""))) in
          ground (arith, rest, there)
    ]

added_from-filter :
    (n : ℕ) (live ls : List String) → (added_from n live ls ≡ []) ↔ (filter (is_new live) ls ≡ [])
added_from-filter n live [] = ground arith
added_from-filter n live (l ∷ ls) = ground (arith, added_from-filter (n + 1) live ls)

-- A draft shows no changed line exactly when each line that is not blank, trimmed, is in both bodies
-- or in none.
pub diff_dsl-same :
    (live draft : String)
    → (((diff_dsl live draft).added ≡ []) × ((diff_dsl live draft).removed ≡ []))
      ↔ ((l : String) → l ≢ "" → Memᴰ l (norm live) ↔ Memᴰ l (norm draft))
unfolding diff_dsl
diff_dsl-same live draft = (
  λ (added, removed) l n. (
    λ m. none_new (norm draft) (norm live) removed l m n,
    λ m.
        none_new (norm live) (norm draft) ((added_from-filter 1 (norm live) (norm draft)).0 added) l
          m n,
  ),
  λ h. (
    (added_from-filter 1 (norm live) (norm draft)).1
        (all_covered (norm live) (norm draft) (λ l m n. (h l n).1 m)),
    all_covered (norm draft) (norm live) (λ l m n. (h l n).0 m),
  ),
)
