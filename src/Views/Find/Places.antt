-- ===== src/Views/Find/Places.antt =====
-- src/lview.c: the line and the column that `l_find` answers, where allocations succeed.
use boggart.Base.{
  ℕ, zero, suc, ◌+◌, ◌-◌, ◌/◌, ◌≤◌, ◌<◌, ◌≡◌, refl, ◌∙◌, sym, ap, subst, List, length,
  length-append, get_elem?, get_elem?-get_or, get_or, ltb, leb, ◌==◌, ◌&&◌, not, Bool, true,
  Bool-cases, some, ◌⊎◌, inl, inr, arith,
}
use boggart.Views.Lines.{starts}
use boggart.Views.State.{View}
use boggart.Views.Index.{all_lines, chunk, index_locked}
use boggart.Views.Index.Indexed.{IsIndexed, IsIndexed-IsBeginning, IsIndexed-next}
use boggart.Views.Index.Calls.{index_locked-IsIndexed}
use boggart.Views.Read.Answers.{starts-le}
use boggart.Views.Find.{find_line, index_to}

-- Start `lo` of the starts of the lines, `s`, is the last one that is not behind `off`.
abbrev pub IsPlace : List ℕ → ℕ → ℕ → ℕ → Type 0
IsPlace base off lo s =
    (get_elem? (starts base) lo ≡ some s)
    × (s ≤ off)
    × ((t : ℕ) → get_elem? (starts base) (suc lo) ≡ some t → off < t)

-- The same in an index
abbrev pub InIndex : List ℕ → ℕ → ℕ → Type 0
InIndex offs off lo =
    (lo < length offs)
    × (get_or offs lo 0 ≤ off)
    × ((suc lo ≡ length offs) ⊎ (off < get_or offs (suc lo) 0))

pub find_line-InIndex :
    (fuel : ℕ) (offs : List ℕ) (off lo hi : ℕ)
    → hi ≤ lo + suc fuel
    → lo < hi
    → hi ≤ length offs
    → get_or offs lo 0 ≤ off
    → ((hi ≡ length offs) ⊎ (off < get_or offs hi 0))
    → InIndex offs off (find_line fuel offs off lo hi)
unfolding find_line
find_line-InIndex zero offs off lo hi f l h a b =
    let same : hi ≡ suc lo = omega arith in
    (omega arith, a, subst (λ i. (i ≡ length offs) ⊎ (off < get_or offs i 0)) same b)
find_line-InIndex (suc fuel) offs off lo hi f l h a b = elim (Bool-cases (ltb 1 (hi - lo))) [
  | inl t ↦ elim (Bool-cases (leb (get_or offs ((lo + hi) / 2) 0) off)) [
    | inl u ↦
        rw (t, u, find_line)
          (find_line-InIndex fuel offs off ((lo + hi) / 2) hi (ground arith) (ground arith) h
            (ground arith) b)
    | inr u ↦
        rw (t, u, find_line)
          (find_line-InIndex fuel offs off lo ((lo + hi) / 2) (ground arith) (ground arith)
            (ground arith) a (inr (ground arith)))
  ]
  | inr t ↦
      let same : hi ≡ suc lo = ground arith in
      rw (t, find_line)
        (omega arith, a, subst (λ i. (i ≡ length offs) ⊎ (off < get_or offs i 0)) same b)
]

-- What an index says of a place that it passed is so of all starts.
pub InIndex-IsPlace :
    (st : View) (off lo : ℕ)
    → IsIndexed st
    → ((st.complete ≡ true) ⊎ (off < st.scanned))
    → InIndex st.offs off lo
    → IsPlace st.base off lo (get_or st.offs lo 0)
InIndex-IsPlace st off lo i c (l, a, b) =
    let (rest, e, none_left, some_left) = IsIndexed-IsBeginning st i in
    (
      ap (λ xs. get_elem? xs lo) e ∙ get_elem?-get_or st.offs rest lo 0 l,
      a,
      λ t q. elim (Bool-cases (suc lo == length st.offs)) [
        | inl u ↦
            let same : suc lo ≡ length st.offs = ground arith in
            IsIndexed-next st off t i c (sym (ap (get_elem? (starts st.base)) same) ∙ q)
        | inr u ↦
            let here =
              sym (
                ap (λ xs. get_elem? xs (suc lo)) e
                ∙ get_elem?-get_or st.offs rest (suc lo) 0 (ground arith))
              ∙ q in
            ground (arith, here)
      ],
    )

pub IsIndexed-full : (st : View) → IsIndexed st → length st.base ≤ st.scanned → st.complete ≡ true
IsIndexed-full st (inl (o, z, c, e)) h = ground arith
IsIndexed-full st (inr (h, f, e)) k = ground arith

module _ (alloc : ℕ → Bool) (enough : (n : ℕ) → alloc n ≡ true) where
  index_to-complete :
      (fuel off : ℕ) (st : View) → st.complete ≡ true → index_to alloc fuel st off ≡ st
  unfolding index_to
  index_to-complete zero off st e = refl
  index_to-complete (suc fuel) off st e = rw (e, index_to) refl

  -- A round of the loop ends it or moves on.
  pub index_locked-further :
      (st : View)
      → IsIndexed st
      → length st.base ≤ all_lines
      → (let r = index_locked alloc all_lines chunk st in
          IsIndexed r × (r.base ≡ st.base) × ((r.complete ≡ true) ⊎ (st.scanned < r.scanned)))
  index_locked-further st i n =
      let r = index_locked alloc all_lines chunk st in
      let (ok, (b, m, w)) = index_locked-IsIndexed alloc enough all_lines chunk st i in
      let (rest, e, none_left, some_left) = IsIndexed-IsBeginning r ok in
      let bound = starts-le r.base in
      let size = ap length b in
      let parts = ap length e ∙ length-append r.offs rest in (ok, b, ground arith)

  pub index_to-reaches :
      (fuel off : ℕ) (st : View)
      → IsIndexed st
      → length st.base ≤ all_lines
      → length st.base ≤ st.scanned + fuel
      → (let z = index_to alloc fuel st off in
          IsIndexed z × (z.base ≡ st.base) × ((z.complete ≡ true) ⊎ (off < z.scanned)))
  unfolding index_to
  index_to-reaches zero off st i n f = (i, refl, inl (IsIndexed-full st i (omega arith)))
  index_to-reaches (suc fuel) off st i n f =
      elim (Bool-cases (not st.complete && leb st.scanned off)) [
        | inl t ↦
            let (ok, b, w) = index_locked-further st i n in
            let next = index_locked alloc all_lines chunk st in
            let room = ap length b in
            let done : IsIndexed (index_to alloc fuel next off)
                × ((index_to alloc fuel next off).base ≡ next.base)
                × (((index_to alloc fuel next off).complete ≡ true)
                    ⊎ (off < (index_to alloc fuel next off).scanned)) =
              elim w [
                | inl d ↦
                    subst
                      (λ z.
                        IsIndexed z
                        × (z.base ≡ next.base)
                        × ((z.complete ≡ true) ⊎ (off < z.scanned)))
                      (sym (index_to-complete fuel off next d)) (ok, refl, inl d)
                | inr d ↦ index_to-reaches fuel off next ok (omega arith) (omega arith)
              ] in
            rw (t, index_to) (done.0, done.1 ∙ b, done.2)
        | inr t ↦ rw (t, index_to) (i, refl, ground arith)
      ]
