-- ===== src/Views/Find/Hits.antt =====
-- src/lview.c: what `l_find` answers, where allocations succeed.
use boggart.Base.{
  ℕ, zero, suc, ◌+◌, ◌-◌, ◌≤◌, ◌<◌, ◌≡◌, refl, ◌∙◌, sym, ap, subst, List, [], ◌∷◌, ◌++◌, append-nil,
  length, get_elem?, get_elem?-get_or, get_elem?-past, get_or-some, get_or-none, drop, get_or, ltb,
  ◌==◌, Bool, true, false, Bool-cases, Option, none, some, ◌⊎◌, inl, inr, arith,
}
use boggart.Views.Lines.{starts}
use boggart.Views.State.{View, Stat}
use boggart.Views.Index.{all_lines}
use boggart.Views.Index.Indexed.{IsIndexed, IsIndexed-IsBeginning}
use boggart.Views.Read.{guard, reach, line_span}
use boggart.Views.Read.Spans.{reach-IsIndexed}
use boggart.Views.Read.Answers.{line_span-past, line_span-within}
use boggart.Views.Find.{memfind, find_line, index_to, span_start, find_start, locate, l_find}
use boggart.Views.Find.First.{occurs, FirstFrom, memfind-FirstFrom}
use boggart.Views.Find.Places.{IsPlace, InIndex-IsPlace, find_line-InIndex, index_to-reaches}

-- What is found from `start` on: nothing, where the text is not or the file is empty; or the line and the
-- column of the first place
abbrev pub IsHit : List ℕ → List ℕ → ℕ → Option (ℕ × ℕ) → Type 0
IsHit base needle start none =
    (length base ≡ 0) ⊎ ((j : ℕ) → 0 ≤ j → occurs (drop start base) needle j ≡ false)
IsHit base needle start (some (line, col)) =
    (hit : ℕ) × (lo : ℕ) × (s : ℕ) × FirstFrom (occurs (drop start base) needle) 0 (some hit)
    × IsPlace base (start + hit) lo s
    × (line ≡ lo + 1)
    × (col ≡ start + hit - s + 1)

starts-zero : (base : List ℕ) → get_or (starts base) 0 0 ≡ 0
unfolding starts
starts-zero [] = refl
starts-zero (c ∷ cs) = refl

index-some :
    (st : View) (off : ℕ)
    → IsIndexed st
    → 0 < length st.base
    → ((st.complete ≡ true) ⊎ (off < st.scanned))
    → (0 < length st.offs) × (get_or st.offs 0 0 ≡ 0)
index-some st off (inl (o, z, c, e)) h k = absurd (ground arith)
index-some st off (inr (h, (a, o, g, l, c), e)) t k =
    (omega (arith, ap length o), ap (λ xs. get_or xs 0 0) o)

module _ (alloc : ℕ → Bool) (enough : (n : ℕ) → alloc n ≡ true) where
  line_span-start :
      (i : ℕ) (st : View)
      → IsIndexed st
      → (let r = line_span alloc st (suc i) in
          IsIndexed r.0 × (r.0.base ≡ st.base) × (span_start r.1 ≡ get_or (starts st.base) i 0))
  line_span-start i st h =
      let r = reach alloc (suc i) st in
      let (ok, b, c) = reach-IsIndexed alloc enough (suc i) st h in
      let (rest, e, none_left, some_left) = IsIndexed-IsBeginning r ok in
      elim (Bool-cases (ltb (length r.offs) (suc i))) [
        | inl t ↦
            let done : r.complete ≡ true = ground arith in
            let past =
              ap (λ xs. get_elem? xs i)
                (e ∙ ap (λ x. r.offs ++ x) (none_left done) ∙ append-nil r.offs)
              ∙ get_elem?-past r.offs i (ground arith) in
            subst
              (λ p.
                IsIndexed p.0
                × (p.0.base ≡ st.base)
                × (span_start p.1 ≡ get_or (starts st.base) i 0))
              (sym (line_span-past alloc enough i st t))
              (
                ok,
                b,
                sym (
                    ap (λ xs. get_or (starts xs) i 0) (sym b)
                    ∙ get_or-none (starts r.base) i 0 past),
              )
        | inr t ↦
            let here =
              ap (λ xs. get_elem? xs i) e ∙ get_elem?-get_or r.offs rest i 0 (ground arith) in
            subst
              (λ p.
                IsIndexed p.0
                × (p.0.base ≡ st.base)
                × (span_start p.1 ≡ get_or (starts st.base) i 0))
              (sym (line_span-within alloc enough i st t))
              (
                ok,
                b,
                sym (
                    ap (λ xs. get_or (starts xs) i 0) (sym b)
                    ∙ get_or-some (starts r.base) i _ 0 here),
              )
      ]

  find_start-line :
      (i : ℕ) (st : View)
      → 0 < i
      → (let r = line_span alloc st (suc i) in find_start alloc st (suc i) ≡ (r.0, span_start r.1))
  unfolding find_start
  find_start-line i st h = let t : ltb 1 (suc i) ≡ true = ground arith in rw (t, find_start) refl

  find_start-starts :
      (from : ℕ) (st : View)
      → IsIndexed st
      → (let r = find_start alloc st from in
          IsIndexed r.0 × (r.0.base ≡ st.base) × (r.1 ≡ get_or (starts st.base) (from - 1) 0))
  unfolding find_start
  find_start-starts zero st h = (h, refl, sym (starts-zero st.base))
  find_start-starts (suc zero) st h = (h, refl, sym (starts-zero st.base))
  find_start-starts (suc (suc i)) st h =
      let same : suc i ≡ suc (suc i) - 1 = omega arith in
      let (ok, b, e) = line_span-start (suc i) st h in
      subst
        (λ p.
          IsIndexed p.0
          × (p.0.base ≡ st.base)
          × (p.1 ≡ get_or (starts st.base) (suc (suc i) - 1) 0))
        (sym (find_start-line (suc i) st (omega arith)))
        (ok, b, e ∙ ap (λ k. get_or (starts st.base) k 0) same)

  locate-IsHit :
      (st : View) (needle : List ℕ) (start : ℕ) (o : Option ℕ)
      → IsIndexed st
      → length st.base ≤ all_lines
      → FirstFrom (occurs (drop start st.base) needle) 0 o
      → (let r = locate alloc st start o in
          IsIndexed r.0 × (r.0.base ≡ st.base) × IsHit st.base needle start r.1)
  unfolding locate
  locate-IsHit st needle start none h n f = (h, refl, inr f)
  locate-IsHit st needle start (some hit) h n f = elim (Bool-cases (length st.base == 0)) [
    | inl t ↦ rw (t, locate) (h, refl, inl (ground arith))
    | inr t ↦
        let off = start + hit in
        let z = index_to alloc (length st.base) st off in
        let (ok, b, c) = index_to-reaches alloc enough (length st.base) off st h n (omega arith) in
        let size = ap length b in
        let (some_start, first) = index-some z off ok (ground arith) c in
        let found =
          find_line-InIndex (length z.offs) z.offs off 0 (length z.offs) (omega arith) some_start
            (omega arith) (omega arith) (inl refl) in
        let lo = find_line (length z.offs) z.offs off 0 (length z.offs) in
        let place =
          subst (λ xs. IsPlace xs off lo (get_or z.offs lo 0)) b
            (InIndex-IsPlace z off lo ok c found) in
        rw (t, locate) (ok, b, (hit, lo, get_or z.offs lo 0, f, place, refl, refl))
  ]

  -- Where allocations succeed: from any state between the calls, of a file that a size_t can count, the search
  -- answers the line and the column of the first place of the text at or behind the start of line `from`, or
  -- none if there is none; but if there is no such line then it searches from the start of the file.
  pub l_find-IsHit :
      (now : Option Stat) (st : View) (needle : List ℕ) (from : ℕ)
      → IsIndexed st
      → length st.base ≤ all_lines
      → (r : View) × (o : Option (ℕ × ℕ)) × (l_find alloc now st needle from ≡ guard now st (r, o))
        × IsIndexed r
        × (r.base ≡ st.base)
        × IsHit st.base needle (get_or (starts st.base) (from - 1) 0) o
  unfolding l_find
  l_find-IsHit now st needle from h n =
      let r = find_start alloc st from in
      let (ok, b, e) = find_start-starts from st h in
      let o = memfind (drop r.1 st.base) needle in
      let z = locate alloc r.0 r.1 o in
      let (good, same, hit) =
        locate-IsHit r.0 needle r.1 o ok (subst (λ xs. length xs ≤ all_lines) (sym b) n) (
          subst (λ xs. FirstFrom (occurs (drop r.1 xs) needle) 0 o) (sym b)
            (memfind-FirstFrom (drop r.1 st.base) needle)) in
      (
        z.0,
        z.1,
        refl,
        good,
        same ∙ b,
        subst (λ i. IsHit st.base needle i z.1) e (subst (λ xs. IsHit xs needle r.1 z.1) b hit),
      )
