-- ===== src/Views/Read.antt =====
-- src/lview.c: what Lua asks of a view, but for its last lines and the search. An error that is raised is
-- `none`; a number below 1 stands as 0.
pub mod Spans
pub mod Answers
use boggart.Base.{
  ℕ, zero, suc, ◌+◌, ◌-◌, List, [], ◌∷◌, length, take, drop, get_or, ltb, leb, ◌==◌, ◌&&◌, ◌||◌,
  not, Bool, true, false, Option, none, some, if◌then◌else◌,
}
use boggart.Views.State.{View, Stat, shrunk}
use boggart.Views.Index.{all_lines, index_locked}

-- `check`, and then `guard`, around what a call does
unfoldable pub guard {ℓ} : {A : Type ℓ} → Option Stat → View → A → Option A
unfolding shrunk
guard now st answer = if shrunk now st then none else some answer

unfoldable pub l_size : View → ℕ
l_size st = length st.base

unfoldable pub l_count : View → ℕ × Bool
l_count st = (length st.offs, st.complete)

-- The end of line `i`, which starts at `a`
unfoldable pub line_end : ℕ → ℕ → View → ℕ
line_end i a st =
    let e = if ltb i (length st.offs) then get_or st.offs i 0 - 1 else length st.base in
    if (i == length st.offs)
      && (ltb a e && ((e == length st.base) && (get_or st.base (e - 1) 0 == b'\n')))
    then e - 1
    else e

-- The bytes of a span
unfoldable pub span_bytes : List ℕ → Option (ℕ × ℕ) → Option (List ℕ)
span_bytes base none = none
span_bytes base (some (a, b)) = some (take (b - a) (drop a base))

-- The loop ends at a line that is not there.
unfoldable pub next_line : Option (List ℕ) → View → View × List (List ℕ) → View × List (List ℕ)
next_line none r behind = (r, [])
next_line (some l) r behind = (behind.0, l ∷ behind.1)

module _ (alloc : ℕ → Bool) where
  unfoldable pub l_wait : Option Stat → View → Option (View × ℕ)
  unfolding guard index_locked
  l_wait now st = let r = index_locked alloc all_lines 0 st in guard now st (r, length r.offs)

  -- The view in which line `i` can be looked for
  unfoldable pub reach : ℕ → View → View
  unfolding index_locked
  reach i st =
      if ltb (length st.offs) i || ((i == length st.offs) && not st.complete)
      then index_locked alloc i 0 st
      else st

  unfoldable pub line_span : View → ℕ → View × Option (ℕ × ℕ)
  unfolding reach line_end
  line_span st i =
      if ltb i 1
      then (st, none)
      else (let r = reach i st in
          if ltb (length r.offs) i
          then (r, none)
          else (let a = get_or r.offs (i - 1) 0 in (r, some (a, line_end i a r))))

  unfoldable pub l_line : Option Stat → View → ℕ → Option (View × Option (List ℕ))
  unfolding guard line_span span_bytes
  l_line now st i = let (r, span) = line_span st i in guard now st (r, span_bytes st.base span)

  -- From line `k`, so many lines
  unfoldable pub read_lines : ℕ → View → ℕ → View × List (List ℕ)
  unfolding line_span span_bytes next_line
  read_lines zero st k = (st, [])
  read_lines (suc n) st k =
      let r = line_span st k in next_line (span_bytes st.base r.1) r.0 (read_lines n r.0 (suc k))

  unfoldable pub l_lines : Option Stat → View → ℕ → ℕ → Option (View × List (List ℕ))
  unfolding guard read_lines
  l_lines now st i j =
      let first = if ltb i 1 then 1 else i in guard now st (read_lines (j + 1 - first) st first)
