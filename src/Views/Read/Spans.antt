-- ===== src/Views/Read/Spans.antt =====
-- src/lview.c: the line that `line_span` finds is the line of the text, where allocations succeed.
use boggart.Base.{
  ℕ, zero, suc, ◌+◌, ◌-◌, ◌≤◌, ◌<◌, ◌≡◌, refl, ◌∙◌, sym, ap, List, [], ◌∷◌, ◌++◌, append-nil,
  length, length-drop, get_elem?, get_elem?-get_or, get_elem?-past, get_elem?-drop, get_or,
  get_or-drop, take, drop, ltb, ◌==◌, ◌&&◌, ◌||◌, not, Bool, true, false, Bool-cases, none, some,
  ◌⊎◌, inl, inr, if◌then◌else◌, arith,
}
use boggart.Views.Lines.{lines, first_line, first_line-le, marks, marks-next, starts, lines-at}
use boggart.Views.State.{View}
use boggart.Views.Index.Indexed.{IsIndexed, IsBeginning}
use boggart.Views.Index.Calls.{index_locked-IsIndexed}
use boggart.Views.Read.{reach, line_end}

first_line-take : (xs : List ℕ) → take (length (first_line xs)) xs ≡ first_line xs
unfolding first_line
first_line-take [] = refl
first_line-take (x ∷ xs) = elim (Bool-cases (x == b'\n')) [
  | inl e ↦ rw e refl
  | inr e ↦ rw e (ap (λ z. x ∷ z) (first_line-take xs))
]

-- A first line that takes all but a byte at most ends at a newline or at the end.
abbrev EndsText : ℕ → List ℕ → Type 0
EndsText n xs =
    ((length (first_line xs) ≡ suc n) × ((get_or xs n 0 == b'\n') ≡ false))
    ⊎ ((length (first_line xs) ≡ n) × ((get_or xs n 0 == b'\n') ≡ true))

first_line-EndsText :
    (n : ℕ) (xs : List ℕ) → length xs ≡ suc n → n ≤ length (first_line xs) → EndsText n xs
unfolding first_line
first_line-EndsText n [] h k = absurd (omega arith)
first_line-EndsText zero (x ∷ xs) h k = elim (Bool-cases (x == b'\n')) [
  | inl e ↦ rw e (inr (refl, refl))
  | inr e ↦ rw e (inl (ground (arith, first_line-le xs), refl))
]
first_line-EndsText (suc n) (x ∷ xs) h k = elim (Bool-cases (x == b'\n')) [
  | inl e ↦ absurd (ground arith)
  | inr e ↦ elim (first_line-EndsText n xs (omega arith) (ground arith)) [
    | inl (l, q) ↦ inl (ground arith, q)
    | inr (l, q) ↦ inr (ground arith, q)
  ]
]

-- The start behind the line that starts at `a`
start_behind :
    (i a : ℕ) (base : List ℕ)
    → a < length base
    → drop (suc i) (starts base) ≡ marks (length base) a (drop a base)
    → (let u = length (first_line (drop a base)) in
        get_elem? (starts base) (suc i)
        ≡ (if ltb (a + u + 1) (length base) then some (a + u + 1) else none))
start_behind i a base h d =
    let u = length (first_line (drop a base)) in
    let n = length (drop a base) in
    let size : length base ≡ a + n = omega (arith, length-drop a base) in
    sym (get_elem?-drop (suc i) (starts base))
    ∙ ap (λ xs. get_elem? xs 0) (d ∙ marks-next (length base) a (drop a base) size)
    ∙ head (ltb (u + 1) n) (a + u + 1)
        (marks (length base) (a + u + 1) (drop (suc u) (drop a base)))
    ∙ ap (λ b. if b then some (a + u + 1) else none) same
  where
    head :
        (b : Bool) (x : ℕ) (xs : List ℕ)
        → get_elem? (if b then x ∷ xs else []) 0 ≡ (if b then some x else none)
    head true x xs = refl
    head false x xs = refl

    same :
        ltb (length (first_line (drop a base)) + 1) (length (drop a base))
        ≡ ltb (a + length (first_line (drop a base)) + 1) (length base)
    same = ground (arith, length-drop a base)

-- The end of the line that starts at `a`, when the next start is known or the index is complete
line_end-first_line :
    (i a : ℕ) (st : View)
    → a < length st.base
    → ((st.complete ≡ true) ⊎ (suc i < length st.offs))
    → suc i ≤ length st.offs
    → IsBeginning st
    → drop (suc i) (starts st.base) ≡ marks (length st.base) a (drop a st.base)
    → line_end (suc i) a st ≡ a + length (first_line (drop a st.base))
unfolding line_end
line_end-first_line i a st h c k (rest, e, none_left, some_left) d =
    let u = length (first_line (drop a st.base)) in
    let n = length (drop a st.base) in
    let size : length st.base ≡ a + n = omega (arith, length-drop a st.base) in
    let next = start_behind i a st.base h d in
    elim (Bool-cases (ltb (suc i) (length st.offs))) [
      | inl t ↦
          let s =
            sym (
              ap (λ xs. get_elem? xs (suc i)) e
              ∙ get_elem?-get_or st.offs rest (suc i) 0 (ground arith))
            ∙ next in
          elim (Bool-cases (ltb (a + u + 1) (length st.base))) [
            | inl w ↦
                let v : get_or st.offs (suc i) 0 ≡ a + u + 1 = ground (arith, s, w) in
                let z : (suc i == length st.offs) ≡ false = ground arith in
                rw (z, t, v) (omega arith)
            | inr w ↦ ground (arith, s, w)
          ]
      | inr t ↦
          let done : st.complete ≡ true = ground arith in
          let none_next : get_elem? (starts st.base) (suc i) ≡ none =
            ap (λ xs. get_elem? xs (suc i))
              (e ∙ ap (λ r. st.offs ++ r) (none_left done) ∙ append-nil st.offs)
            ∙ get_elem?-past st.offs (suc i) (ground arith) in
          let w : (ltb (a + u + 1) (length st.base)) ≡ false = ground (arith, next, none_next) in
          let le = first_line-le (drop a st.base) in
          let place : a + (n - 1) ≡ length st.base - 1 = omega arith in
          let byte = get_or-drop a (n - 1) st.base 0 ∙ ap (λ j. get_or st.base j 0) place in
          elim (first_line-EndsText (n - 1) (drop a st.base) (omega arith) (ground arith)) [
            | inl (l, q) ↦
                let p : (get_or st.base (length st.base - 1) 0 == b'\n') ≡ false =
                  ap (λ c. c == b'\n') (sym byte) ∙ q in
                rw t (ground (arith, p))
            | inr (l, q) ↦
                let p : (get_or st.base (length st.base - 1) 0 == b'\n') ≡ true =
                  ap (λ c. c == b'\n') (sym byte) ∙ q in
                rw t (ground (arith, p))
          ]
    ]

-- A line of the text that starts in the index
abbrev pub IsLine : ℕ → View → Type 0
IsLine i st =
    (let a = get_or st.offs i 0 in
      get_elem? (lines st.base) i ≡ (
        if ltb (length st.offs) (suc i)
        then none
        else some (take (line_end (suc i) a st - a) (drop a st.base))))

pub IsBeginning-IsLine :
    (i : ℕ) (st : View)
    → ((st.complete ≡ true) ⊎ (suc i < length st.offs))
    → IsBeginning st
    → IsLine i st
IsBeginning-IsLine i st c (rest, e, none_left, some_left) =
    elim (Bool-cases (ltb (length st.offs) (suc i))) [
      | inl t ↦
          let done : st.complete ≡ true = ground arith in
          let past : get_elem? (starts st.base) i ≡ none =
            ap (λ xs. get_elem? xs i)
              (e ∙ ap (λ r. st.offs ++ r) (none_left done) ∙ append-nil st.offs)
            ∙ get_elem?-past st.offs i (ground arith) in
          rw t (elim (lines-at st.base i) [ inl (a, s, q, h, d) ↦ cc (s, past) | inr (s, q) ↦ q ])
      | inr t ↦
          let here : get_elem? (starts st.base) i ≡ some (get_or st.offs i 0) =
            ap (λ xs. get_elem? xs i) e ∙ get_elem?-get_or st.offs rest i 0 (ground arith) in
          rw t (elim (lines-at st.base i) [
            | inl (a, s, q, h, d) ↦
                let v : a ≡ get_or st.offs i 0 = cc (s, here) in
                let l =
                  line_end-first_line i a st h c (ground arith) (rest, e, none_left, some_left) d in
                let u = length (first_line (drop a st.base)) in
                let z : a + u - a ≡ u = omega arith in
                rw (sym v) (
                  q
                  ∙ ap some (
                      sym (
                        ap (λ k. take (k - a) (drop a st.base)) l
                        ∙ ap (λ k. take k (drop a st.base)) z
                        ∙ first_line-take (drop a st.base))))
            | inr (s, q) ↦ cc (s, here)
          ])
    ]

module _ (alloc : ℕ → Bool) (enough : (n : ℕ) → alloc n ≡ true) where
  pub reach-IsIndexed :
      (i : ℕ) (st : View)
      → IsIndexed st
      → (let r = reach alloc i st in
          IsIndexed r × (r.base ≡ st.base) × ((r.complete ≡ true) ⊎ (i < length r.offs)))
  unfolding reach
  reach-IsIndexed i st h =
      elim (Bool-cases (ltb (length st.offs) i || ((i == length st.offs) && not st.complete))) [
        | inl e ↦
            let (ok, (b, m, g)) = index_locked-IsIndexed alloc enough i 0 st h in
            rw e (ok, b, ground arith)
        | inr e ↦ rw e (h, refl, ground arith)
      ]
