-- ===== src/Views/Read/Answers.antt =====
-- src/lview.c: what Lua is told of the lines of a view, where allocations succeed.
use boggart.Base.{
  ℕ, zero, suc, ◌+◌, ◌-◌, ◌≤◌, ◌≡◌, refl, ◌∙◌, sym, ap, subst, List, [], ◌∷◌, ◌++◌, append-nil,
  length, length-append, length-get_elem?, get_elem?, get_or, drop-none, drop-some, take, drop, ltb,
  Bool, true, false, Bool-cases, Option, Option-cases, none, some, inl, inr, if◌then◌else◌, arith,
}
use boggart.Views.Lines.{lines, marks, starts, lines-at}
use boggart.Views.State.{View, Stat}
use boggart.Views.Index.{all_lines, index_locked}
use boggart.Views.Index.Indexed.{IsIndexed, IsIndexed-IsBeginning}
use boggart.Views.Index.Calls.{index_locked-IsIndexed}
use boggart.Views.Read.{
  guard, l_wait, l_line, l_lines, read_lines, reach, line_end, line_span, span_bytes, next_line,
}
use boggart.Views.Read.Spans.{IsBeginning-IsLine, reach-IsIndexed}

marks-le :
    (size at : ℕ) (xs : List ℕ) → size ≡ at + length xs → length (marks size at xs) ≤ length xs - 1
unfolding marks
marks-le size at [] e = omega arith
marks-le size at (x ∷ xs) e = let ih = marks-le size (at + 1) xs (omega arith) in ground arith

pub starts-le : (base : List ℕ) → length (starts base) ≤ length base
unfolding starts
starts-le [] = omega arith
starts-le (c ∷ cs) = omega (arith, marks-le (length (c ∷ cs)) 0 (c ∷ cs) (omega arith))

starts-lines : (base : List ℕ) → length (starts base) ≡ length (lines base)
starts-lines base = length-get_elem? (starts base) (lines base) (λ i. elim (lines-at base i) [
  | inl (a, s, q, h, d) ↦ inr (a, _, s, q)
  | inr (s, q) ↦ inl (s, q)
])

-- A view of the same bytes whose index is right, and an answer
abbrev pub Answers : {A : Type 0} → Option Stat → View → A → Option (View × A) → Type 0
Answers now st a answer =
    (r : View) × IsIndexed r × (r.base ≡ st.base) × (answer ≡ guard now st (r, a))

module _ (alloc : ℕ → Bool) (enough : (n : ℕ) → alloc n ≡ true) where
  pub line_span-past :
      (i : ℕ) (st : View)
      → ltb (length (reach alloc (suc i) st).offs) (suc i) ≡ true
      → line_span alloc st (suc i) ≡ (reach alloc (suc i) st, none)
  unfolding line_span
  line_span-past i st t = let z : ltb (suc i) 1 ≡ false = ground arith in rw (z, t) refl

  pub line_span-within :
      (i : ℕ) (st : View)
      → ltb (length (reach alloc (suc i) st).offs) (suc i) ≡ false
      → (let r = reach alloc (suc i) st in
          line_span alloc st (suc i)
          ≡ (r, some (get_or r.offs i 0, line_end (suc i) (get_or r.offs i 0) r)))
  unfolding line_span
  line_span-within i st t =
      let z : ltb (suc i) 1 ≡ false = ground arith in
      let same : suc i - 1 ≡ i = omega arith in rw (z, t, same) refl

  pub line_span-lines :
      (i : ℕ) (st : View)
      → IsIndexed st
      → (let r = line_span alloc st (suc i) in
          IsIndexed r.0
          × (r.0.base ≡ st.base)
          × (span_bytes st.base r.1 ≡ get_elem? (lines st.base) i))
  unfolding span_bytes
  line_span-lines i st h =
      let r = reach alloc (suc i) st in
      let (ok, b, c) = reach-IsIndexed alloc enough (suc i) st h in
      let l = IsBeginning-IsLine i r c (IsIndexed-IsBeginning r ok) in
      let a = get_or r.offs i 0 in
      let line = some (take (line_end (suc i) a r - a) (drop a r.base)) in
      let q : (x : Bool)
          → ltb (length r.offs) (suc i) ≡ x
          → (if x then none else line) ≡ get_elem? (lines st.base) i =
        λ x t.
          sym (
            ap (λ xs. get_elem? (lines xs) i) (sym b) ∙ l ∙ ap (λ x. if x then none else line) t) in
      elim (Bool-cases (ltb (length r.offs) (suc i))) [
        | inl t ↦
            subst
              (λ p.
                IsIndexed p.0
                × (p.0.base ≡ st.base)
                × (span_bytes st.base p.1 ≡ get_elem? (lines st.base) i))
              (sym (line_span-past i st t)) (ok, b, q true t)
        | inr t ↦
            subst
              (λ p.
                IsIndexed p.0
                × (p.0.base ≡ st.base)
                × (span_bytes st.base p.1 ≡ get_elem? (lines st.base) i))
              (sym (line_span-within i st t))
              (
                ok,
                b,
                ap (λ xs. some (take (line_end (suc i) a r - a) (drop a xs))) (sym b) ∙ q false t,
              )
      ]

  -- A line is the line of the text, if the file did not shrink; the index stays right.
  pub l_line-lines :
      (now : Option Stat) (i : ℕ) (st : View)
      → IsIndexed st
      → Answers now st (get_elem? (lines st.base) i) (l_line alloc now st (suc i))
  unfolding l_line
  l_line-lines now i st h =
      let (ok, b, e) = line_span-lines i st h in
      let r = (line_span alloc st (suc i)).0 in (r, ok, b, ap (λ a. guard now st (r, a)) e)

  read_lines-lines :
      (n k : ℕ) (st : View)
      → IsIndexed st
      → (let r = read_lines alloc n st (suc k) in
          IsIndexed r.0 × (r.0.base ≡ st.base) × (r.1 ≡ take n (drop k (lines st.base))))
  unfolding read_lines next_line
  read_lines-lines zero k st h = (h, refl, refl)
  read_lines-lines (suc n) k st h =
      let (ok, b, e) = line_span-lines k st h in
      let r = (line_span alloc st (suc k)).0 in
      let behind = read_lines alloc n r (suc (suc k)) in
      let (good, same, ls) = read_lines-lines n (suc k) r ok in
      elim (Option-cases (get_elem? (lines st.base) k)) [
        | inl t ↦
            subst
              (λ o.
                let z = next_line o r behind in
                IsIndexed z.0
                × (z.0.base ≡ st.base)
                × (z.1 ≡ take (suc n) (drop k (lines st.base))))
              (sym (e ∙ t)) (ok, b, sym (ap (take (suc n)) (drop-none k (lines st.base) t)))
        | inr (l, t) ↦
            subst
              (λ o.
                let z = next_line o r behind in
                IsIndexed z.0
                × (z.0.base ≡ st.base)
                × (z.1 ≡ take (suc n) (drop k (lines st.base))))
              (sym (e ∙ t))
              (
                good,
                same ∙ b,
                ap (λ x. l ∷ x) (ls ∙ ap (λ x. take n (drop (suc k) (lines x))) b)
                    ∙ sym (ap (take (suc n)) (drop-some k (lines st.base) l t)),
              )
      ]

  -- Where allocations succeed: from any state between the calls, the lines from `suc i` to `j` are those of the
  -- text that are there, and the index stays right; or there is an error if the file shrank.
  pub l_lines-lines :
      (now : Option Stat) (i j : ℕ) (st : View)
      → IsIndexed st
      → Answers now st (take (j - i) (drop i (lines st.base))) (l_lines alloc now st (suc i) j)
  unfolding l_lines
  l_lines-lines now i j st h =
      let (ok, b, e) = read_lines-lines (j - i) i st h in
      let r = (read_lines alloc (j - i) st (suc i)).0 in
      let one : ltb (suc i) 1 ≡ false = ground arith in
      let n : j + 1 - suc i ≡ j - i = omega arith in
      (r, ok, b, rw (one, n) (ap (λ a. guard now st (r, a)) e))

  -- No file has so many lines that the index stops before its end.
  pub index_locked-all :
      (st : View)
      → IsIndexed st
      → length st.base ≤ all_lines
      → (let r = index_locked alloc all_lines 0 st in
          IsIndexed r × (r.base ≡ st.base) × (r.complete ≡ true) × (r.offs ≡ starts st.base))
  index_locked-all st h n =
      let r = index_locked alloc all_lines 0 st in
      let (ok, (b, m, w)) = index_locked-IsIndexed alloc enough all_lines 0 st h in
      let (rest, e, none_left, some_left) = IsIndexed-IsBeginning r ok in
      let bound = starts-le r.base in
      let size = ap length b in
      let parts = ap length e ∙ length-append r.offs rest in
      let done : r.complete ≡ true = ground arith in
      (
        ok,
        b,
        done,
        sym (append-nil r.offs) ∙ sym (e ∙ ap (λ x. r.offs ++ x) (none_left done)) ∙ ap starts b,
      )

  -- Waiting indexes all there is, and answers how many lines there are.
  pub l_wait-lines :
      (now : Option Stat) (st : View)
      → IsIndexed st
      → length st.base ≤ all_lines
      → Answers now st (length (lines st.base)) (l_wait alloc now st)
        × ((index_locked alloc all_lines 0 st).offs ≡ starts st.base)
        × ((index_locked alloc all_lines 0 st).complete ≡ true)
  unfolding l_wait
  l_wait-lines now st h n =
      let r = index_locked alloc all_lines 0 st in
      let (ok, b, done, all) = index_locked-all st h n in
      ((r, ok, b, ap (λ a. guard now st (r, a)) (ap length all ∙ starts-lines st.base)), all, done)
