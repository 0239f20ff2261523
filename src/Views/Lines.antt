-- ===== src/Views/Lines.antt =====
-- src/lview.c: the lines of a text, as the comment at its head describes them, and where they start.
use boggart.Base.{
  ℕ, zero, suc, ◌+◌, ◌≤◌, ◌<◌, ◌≡◌, refl, ◌∙◌, sym, ap, List, [], ◌∷◌, ◌++◌, length, length-drop,
  drop, drop-drop, drop-cons, get_or, subst, ltb, ◌==◌, ◌&&◌, get_elem?, none, some, ◌⊎◌,
  if◌then◌else◌, Bool-cases, inl, inr, arith,
}

-- A byte before the first line of the lines
abbrev pub to_first : ℕ → List (List ℕ) → List (List ℕ)
to_first c [] = (c ∷ []) ∷ []
to_first c (l ∷ ls) = (c ∷ l) ∷ ls

-- A newline ends a line; one at the end of the text does not begin another.
unfoldable pub lines : List ℕ → List (List ℕ)
lines [] = []
lines (c ∷ cs) = let rest = lines cs in if c == b'\n' then [] ∷ rest else to_first c rest

-- What comes before the first newline
unfoldable pub first_line : List ℕ → List ℕ
first_line [] = []
first_line (c ∷ cs) = let rest = first_line cs in if c == b'\n' then [] else c ∷ rest

-- The places behind the newlines of a part of a text of `size` bytes that begins at `at`, but for the end
-- of the text
unfoldable pub marks : ℕ → ℕ → List ℕ → List ℕ
marks size at [] = []
marks size at (c ∷ cs) =
    let rest = marks size (at + 1) cs in
    if (c == b'\n') && ltb (at + 1) size then (at + 1) ∷ rest else rest

-- Where the lines start
unfoldable pub starts : List ℕ → List ℕ
unfolding marks
starts [] = []
starts (c ∷ cs) = 0 ∷ marks (length (c ∷ cs)) 0 (c ∷ cs)

pub marks-append :
    (size at : ℕ) (xs ys : List ℕ)
    → marks size at (xs ++ ys) ≡ marks size at xs ++ marks size (at + length xs) ys
unfolding marks
marks-append size at [] ys = ap (λ n. marks size n ys) (omega arith)
marks-append size at (x ∷ xs) ys =
    let ih =
      marks-append size (at + 1) xs ys
      ∙ ap (λ n. marks size (at + 1) xs ++ marks size n ys) (further at (length xs)) in
    elim (Bool-cases ((x == b'\n') && ltb (at + 1) size)) [
      | inl e ↦ rw e (ap (λ z. (at + 1) ∷ z) ih)
      | inr e ↦ rw e ih
    ]
  where
    further : (m n : ℕ) → m + 1 + n ≡ m + suc n
    further m n = omega arith

pub first_line-le : (xs : List ℕ) → length (first_line xs) ≤ length xs
unfolding first_line
first_line-le [] = omega arith
first_line-le (x ∷ xs) = ground (arith, first_line-le xs)

-- The next mark is behind the first newline.
pub marks-next :
    (size at : ℕ) (xs : List ℕ)
    → size ≡ at + length xs
    → (let u = length (first_line xs) in
        marks size at xs ≡ (
          if ltb (u + 1) (length xs)
          then (at + u + 1) ∷ marks size (at + u + 1) (drop (suc u) xs)
          else []))
unfolding marks first_line
marks-next size at [] e = refl
marks-next size at (x ∷ []) e = ground arith
marks-next size at (x ∷ y ∷ ys) e = elim (Bool-cases (x == b'\n')) [
  | inl n ↦ rw n (newline (λ m. marks size m (y ∷ ys)) size at (length ys) (omega arith))
  | inr n ↦ rw n (
      marks-next size (at + 1) (y ∷ ys) (omega arith)
      ∙ further (λ m. marks size m (drop (length (first_line (y ∷ ys))) ys)) at
          (length (first_line (y ∷ ys))) (suc (length ys)))
]
  where
    newline :
        (f : ℕ → List ℕ) (size at n : ℕ)
        → size ≡ at + suc (suc n)
        → (if ltb (at + 1) size then (at + 1) ∷ f (at + 1) else f (at + 1))
          ≡ (if ltb 1 (suc (suc n)) then (at + 0 + 1) ∷ f (at + 0 + 1) else [])
    newline f size at n e = let same : at + 0 + 1 ≡ at + 1 = omega arith in rw same (ground arith)

    further :
        (f : ℕ → List ℕ) (at u n : ℕ)
        → (if ltb (u + 1) n then (at + 1 + u + 1) ∷ f (at + 1 + u + 1) else [])
          ≡ (if ltb (suc u + 1) (suc n) then (at + suc u + 1) ∷ f (at + suc u + 1) else [])
    further f at u n =
        let same : at + 1 + u + 1 ≡ at + suc u + 1 = omega arith in rw same (ground arith)

-- The first line, and the lines behind it
lines-next :
    (x : ℕ) (xs : List ℕ)
    → (let u = length (first_line (x ∷ xs)) in
        lines (x ∷ xs)
        ≡ first_line (x ∷ xs)
          ∷ (if ltb (u + 1) (length (x ∷ xs)) then lines (drop (suc u) (x ∷ xs)) else []))
unfolding lines first_line
lines-next x [] = ground arith
lines-next x (y ∷ ys) = elim (Bool-cases (x == b'\n')) [
  | inl n ↦ rw n (ground arith)
  | inr n ↦ rw n (
      ap (to_first x) (lines-next y ys)
      ∙ further (x ∷ first_line (y ∷ ys)) (lines (drop (length (first_line (y ∷ ys))) ys))
          (length (first_line (y ∷ ys))) (suc (length ys)))
]
  where
    further :
        (l : List ℕ) (ls : List (List ℕ)) (u n : ℕ)
        → (l ∷ (if ltb (u + 1) n then ls else []))
          ≡ (l ∷ (if ltb (suc u + 1) (suc n) then ls else []))
    further l ls u n = ground arith

-- Place `i` of the lines: where it starts, what it is, and which starts are behind it; or there is none.
abbrev pub LineAt : List ℕ → List ℕ → List (List ℕ) → ℕ → Type 0
LineAt base ss ls i =
    ((a : ℕ) × (get_elem? ss i ≡ some a)
      × (get_elem? ls i ≡ some (first_line (drop a base)))
      × (a < length base)
      × (drop (suc i) ss ≡ marks (length base) a (drop a base)))
    ⊎ ((get_elem? ss i ≡ none) × (get_elem? ls i ≡ none))

lines-drop :
    (at : ℕ) (base : List ℕ)
    → at < length base
    → (let u = length (first_line (drop at base)) in
        lines (drop at base)
        ≡ first_line (drop at base)
          ∷ (if ltb (u + 1) (length (drop at base))
              then lines (drop (suc u) (drop at base))
              else []))
lines-drop at base h =
    subst
      (λ xs.
        lines xs
        ≡ first_line xs
          ∷ (if ltb (length (first_line xs) + 1) (length xs)
              then lines (drop (suc (length (first_line xs))) xs)
              else []))
      (sym (drop-cons at base 0 h)) (lines-next (get_or base at 0) (drop (suc at) base))

lines_from :
    (i at : ℕ) (base : List ℕ)
    → at < length base
    → LineAt base (at ∷ marks (length base) at (drop at base)) (lines (drop at base)) i
lines_from zero at base h =
    inl (at, refl, ap (λ ls. get_elem? ls 0) (lines-drop at base h), h, refl)
lines_from (suc i) at base h =
    let u = length (first_line (drop at base)) in
    let n = length (drop at base) in
    let size : length base ≡ at + n = omega (arith, length-drop at base) in
    elim (Bool-cases (ltb (u + 1) n)) [
      | inl e ↦
          let more : at + u + 1 < length base = ground (arith, size) in
          let same : drop (suc u) (drop at base) ≡ drop (at + u + 1) base =
            drop-drop (suc u) at base ∙ ap (λ m. drop m base) (ahead at u) in
          let ms : marks (length base) at (drop at base)
              ≡ (at + u + 1) ∷ marks (length base) (at + u + 1) (drop (at + u + 1) base) =
            marks-next (length base) at (drop at base) size
            ∙ ap
                (λ b.
                  if b
                  then (at + u + 1) ∷ marks (length base) (at + u + 1) (drop (suc u) (drop at base))
                  else [])
                e
            ∙ ap (λ ys. (at + u + 1) ∷ marks (length base) (at + u + 1) ys) same in
          let ls : lines (drop at base)
              ≡ first_line (drop at base) ∷ lines (drop (at + u + 1) base) =
            lines-drop at base h
            ∙ ap
                (λ b.
                  first_line (drop at base)
                  ∷ (if b then lines (drop (suc u) (drop at base)) else []))
                e
            ∙ ap (λ ys. first_line (drop at base) ∷ lines ys) same in
          subst (λ q. LineAt base (at ∷ q) (lines (drop at base)) (suc i)) (sym ms)
            (subst
              (λ q.
                LineAt base
                  (at ∷ (at + u + 1) ∷ marks (length base) (at + u + 1) (drop (at + u + 1) base)) q
                  (suc i))
              (sym ls) (lines_from i (at + u + 1) base more))
      | inr e ↦ inr (
        ap (λ q. get_elem? q i)
            (marks-next (length base) at (drop at base) size
              ∙ ap
                  (λ b.
                    if b
                    then (at + u + 1)
                      ∷ marks (length base) (at + u + 1) (drop (suc u) (drop at base))
                    else [])
                  e),
        ap (λ q. get_elem? q (suc i))
            (lines-drop at base h
              ∙ ap
                  (λ b.
                    first_line (drop at base)
                    ∷ (if b then lines (drop (suc u) (drop at base)) else []))
                  e),
      )
    ]
  where
    ahead : (m n : ℕ) → m + suc n ≡ m + n + 1
    ahead m n = omega arith

-- Every place of the lines of a text begins where `starts` says.
pub lines-at : (base : List ℕ) (i : ℕ) → LineAt base (starts base) (lines base) i
unfolding starts lines
lines-at [] i = inr (refl, refl)
lines-at (c ∷ cs) i = lines_from i 0 (c ∷ cs) (omega arith)
