-- ===== src/Views/Find.antt =====
-- src/lview.c: `memfind` and `l_find`, the search for a text in a view.
pub mod First
pub mod Places
pub mod Hits
use boggart.Base.{
  ℕ, zero, suc, ◌+◌, ◌-◌, ◌/◌, List, [], ◌∷◌, length, take, drop, get_or, ltb, leb, ◌==◌, ◌&&◌,
  ◌||◌, not, Bool, true, false, Option, none, some, memchr, bytes_eq, if◌then◌else◌,
}
use boggart.Views.State.{View, Stat, shrunk}
use boggart.Views.Index.{all_lines, chunk, index_locked}
use boggart.Views.Read.{guard, line_span}

-- The loop of `memfind`, from `p`, with `last` for the last place that is possible
unfoldable pub find_from : ℕ → List ℕ → List ℕ → ℕ → ℕ → Option ℕ
unfolding memchr bytes_eq
find_from zero h n last p = none
find_from (suc fuel) h n last p = elim (ltb last p) [
  | true ↦ none
  | false ↦ elim (memchr (get_or n 0 0) (take (last - p + 1) (drop p h))) [
    | none ↦ none
    | some k ↦
        let later = find_from fuel h n last (p + k + 1) in
        if bytes_eq (take (length n) (drop (p + k) h)) n then some (p + k) else later
  ]
]

-- Where `n` is in `h` first; each round moves on by a byte at least.
unfoldable pub memfind : List ℕ → List ℕ → Option ℕ
unfolding find_from
memfind h n =
    if length n == 0
    then some 0
    else if ltb (length h) (length n)
    then none
    else find_from (length h) h n (length h - length n) 0

-- The binary search of the line of a place
unfoldable pub find_line : ℕ → List ℕ → ℕ → ℕ → ℕ → ℕ
find_line zero offs off lo hi = lo
find_line (suc fuel) offs off lo hi =
    let mid = (lo + hi) / 2 in
    let up = find_line fuel offs off mid hi in
    let down = find_line fuel offs off lo mid in
    if ltb 1 (hi - lo) then (if leb (get_or offs mid 0) off then up else down) else lo

abbrev pub span_start : Option (ℕ × ℕ) → ℕ
span_start none = 0
span_start (some span) = span.0

module _ (alloc : ℕ → Bool) where
  -- The index is built up to a place; each round moves on by a byte at least.
  unfoldable pub index_to : ℕ → View → ℕ → View
  unfolding index_locked
  index_to zero st off = st
  index_to (suc fuel) st off =
      let further = index_to fuel (index_locked alloc all_lines chunk st) off in
      if not st.complete && leb st.scanned off then further else st

  -- The search begins at the start of line `from`, or at the start of the text.
  unfoldable pub find_start : View → ℕ → View × ℕ
  unfolding line_span
  find_start st from =
      let r = line_span alloc st from in if ltb 1 from then (r.0, span_start r.1) else (st, 0)

  -- Line and column of what was found, from 1 on. The bytes of an empty file are null, and so is what is
  -- found there.
  unfoldable pub locate : View → ℕ → Option ℕ → View × Option (ℕ × ℕ)
  unfolding index_to find_line
  locate st start none = (st, none)
  locate st start (some hit) =
      let off = start + hit in
      let z = index_to (length st.base) st off in
      let lo = find_line (length z.offs) z.offs off 0 (length z.offs) in
      if length st.base == 0 then (st, none) else (z, some (lo + 1, off - get_or z.offs lo 0 + 1))

  unfoldable pub l_find : Option Stat → View → List ℕ → ℕ → Option (View × Option (ℕ × ℕ))
  unfolding guard find_start memfind locate
  l_find now st needle from =
      let r = find_start st from in
      guard now st (locate r.0 r.1 (memfind (drop r.1 st.base) needle))
