-- ===== src/Relations/Paging.antt =====
-- Following the cursors lists every matching tuple once.
use Prim.Native.String
use Prim.Native.String.{[], ◌∷◌}
use Prim.Native.String.append
use authz_plane.Common.{
  ℕ, suc, ◌+◌, ◌<◌, String, Option, none, some, List, [], ◌∷◌, ltb, if◌then◌else◌, take, drop,
  length, show, ◌≡◌, refl, ap, ◌∙◌, sym, arith, Bool-cases, inl, inr, number-show, length-take,
  length-drop,
}
use authz_plane.Common.Paging.{take_all, pages_from, Follows, pages_from-drop}
use authz_plane.Relations.Model.{Tuple, Store}
use authz_plane.Relations.Listing.{RelationsFilter, cursor_number, offset_of, cursor_at, list_store}

right_empty : (s : String) → String.◌++◌ s "" ≡ s
right_empty [] = append.nil ""
right_empty (c ∷ s) = append.cons c s "" ∙ ap (λ t. c ∷ t) (right_empty s)

pub offset_of-cursor_at : (n : ℕ) → offset_of (some (cursor_at n)) ≡ n
unfolding offset_of cursor_number
offset_of-cursor_at n =
    let tail : String.◌++◌ (show n) "" ≡ show n = right_empty (show n) in
    rw (tail, append.cons "c" "" (show n), append.nil (show n), number-show n) refl

-- A page of a list from the offset that a cursor stands for.
abbrev pub offset_page : {A : Type 0} → List A → ℕ → Option String → List A × Option String
offset_page all limit cursor =
    let items = take limit (drop (offset_of cursor) all) in
    let end = offset_of cursor + length items in
    (items, if ltb end (length all) then some (cursor_at end) else none)

pub offset_page-Follows :
    {A : Type 0} (all : List A) (limit : ℕ) (cursor : Option String)
    → Follows all limit offset_of (offset_page all limit) cursor
offset_page-Follows all limit cursor =
    let o = offset_of cursor in
    let l = length-take limit (drop o all) in
    let d = length-drop o all in
    elim (Bool-cases (ltb (o + length (take limit (drop o all))) (length all))) [
      | inl more ↦ (
        λ h. ground arith,
        λ c h.
            let e : some (cursor_at (o + length (take limit (drop o all)))) ≡ some c =
              rw more at h in
            let at : offset_of (some c) ≡ o + limit =
              ap offset_of (sym e)
              ∙ offset_of-cursor_at (o + length (take limit (drop o all)))
              ∙ ground arith in
            (at, ground arith, refl),
      )
      | inr last ↦ (λ h. take_all limit (drop o all) (ground arith), λ c h. ground arith)
    ]

-- All pages of a list.
pub offset_page-pages :
    {A : Type 0} (all : List A) (limit : ℕ)
    → 0 < limit
    → pages_from (suc (length all)) (offset_page all limit) none ≡ all
unfolding offset_of
offset_page-pages all limit l =
    pages_from-drop all limit offset_of (offset_page all limit) (suc (length all)) none l
      (offset_page-Follows all limit) (omega arith)

abbrev pub page_at : Store → RelationsFilter → ℕ → Option String → List Tuple × Option String
page_at store f limit cursor =
    let page = list_store store f cursor limit in (page.items, page.next_cursor)
