-- ===== src/Views/Tail/Last.antt =====
-- src/lview.c: what is read backwards are the last lines of the text.
use boggart.Base.{
  ℕ, zero, suc, ◌+◌, ◌-◌, ◌/◌, ◌≤◌, ◌<◌, ◌≡◌, refl, ◌∙◌, sym, ap, List, [], ◌∷◌, ◌++◌, append_assoc,
  length, length-append, length-take, length-drop, take, take-add, take-all, take-suc, drop-all,
  drop, drop-append, get_or, get_or-take, get_or-drop, ltb, ◌==◌, ◌||◌, not, Bool, false,
  Bool-cases, Option, inl, inr, if◌then◌else◌, arith,
}
use boggart.Views.Lines.{lines}
use boggart.Views.State.{View, Stat, shrunk}
use boggart.Views.Tail.{
  line_start, tail_spans, to_table, text_end, l_tail, tail_memory, raised, overruns, table,
}
use boggart.Views.Tail.Parts.{
  line_start-le, line_start-free, line_start-newline, lines-free, lines-append, lines-closed,
}

-- The lines of the text before `e`, the last of which ends there
abbrev closed : List ℕ → ℕ → List (List ℕ)
closed base e = lines (take e base ++ b'\n' ∷ [])

part-line :
    (base : List ℕ) (e : ℕ)
    → e ≤ length base
    → (let s = line_start base e in
        lines (take (e - s) (drop s base) ++ b'\n' ∷ []) ≡ take (e - s) (drop s base) ∷ [])
part-line base e h =
    let s = line_start base e in
    let n = length-take (e - s) (drop s base) in
    let m = length-drop s base in
    lines-free (take (e - s) (drop s base)) (λ j k.
      ap (λ c. c == b'\n')
        (get_or-take (e - s) j (drop s base) 0 (omega arith) ∙ get_or-drop s j base 0)
      ∙ line_start-free base e (s + j) (omega arith) (omega arith))

take-parts :
    (base : List ℕ) (s e : ℕ) → s ≤ e → take e base ≡ take s base ++ take (e - s) (drop s base)
take-parts base s e h = ap (λ k. take k base) (omega arith) ∙ take-add s (e - s) base

-- The line that ends at `e`, alone or behind those before it
closed-first :
    (base : List ℕ) (e : ℕ)
    → e ≤ length base
    → line_start base e ≡ 0
    → closed base e ≡ take (e - line_start base e) (drop (line_start base e) base) ∷ []
closed-first base e h z =
    ap (λ xs. lines (xs ++ b'\n' ∷ []))
      (take-parts base (line_start base e) e (omega arith)
        ∙ ap (λ k. take k base ++ take (e - line_start base e) (drop (line_start base e) base)) z)
    ∙ part-line base e h

closed-behind :
    (base : List ℕ) (e s : ℕ)
    → e ≤ length base
    → line_start base e ≡ suc s
    → closed base e
      ≡ closed base s ++ take (e - line_start base e) (drop (line_start base e) base) ∷ []
closed-behind base e s h z =
    let y = take (e - line_start base e) (drop (line_start base e) base) in
    let le = line_start-le base e in
    let byte : get_or base s 0 ≡ b'\n' = ground (arith, line_start-newline base e s z) in
    let newline = take-suc s base 0 (omega arith) ∙ ap (λ c. take s base ++ c ∷ []) byte in
    ap (λ xs. lines (xs ++ b'\n' ∷ []))
      (take-parts base (line_start base e) e le
        ∙ ap (λ k. take k base ++ y) z
        ∙ ap (λ xs. xs ++ y) newline)
    ∙ ap lines (
        append_assoc (take s base ++ b'\n' ∷ []) y (b'\n' ∷ [])
        ∙ append_assoc (take s base) (b'\n' ∷ []) (y ++ b'\n' ∷ []))
    ∙ lines-append (take s base) (y ++ b'\n' ∷ [])
    ∙ ap (λ q. closed base s ++ q) (part-line base e h)

last_ones :
    (n : ℕ) (ls : List (List ℕ)) (y : List ℕ)
    → drop (length (ls ++ y ∷ []) - suc n) (ls ++ y ∷ []) ≡ drop (length ls - n) ls ++ y ∷ []
last_ones n ls y =
    ap (λ k. drop k (ls ++ y ∷ [])) (omega (arith, length-append ls (y ∷ [])))
    ∙ drop-append (length ls - n) ls (y ∷ []) (omega arith)

lone : (n : ℕ) (y : List ℕ) → y ∷ [] ≡ drop (length (y ∷ []) - suc n) (y ∷ [])
lone n y = ap (λ k. drop k (y ∷ [])) (none_left n)
  where
    none_left : (n : ℕ) → 0 ≡ 1 - suc n
    none_left n = omega arith

tail_spans-closed :
    (base : List ℕ) (n e : ℕ)
    → e ≤ length base
    → to_table base (tail_spans base (suc n) e)
      ≡ drop (length (closed base e) - suc n) (closed base e)
unfolding tail_spans
tail_spans-closed base zero e h =
    let y = take (e - line_start base e) (drop (line_start base e) base) in
    elim (Bool-cases (line_start base e == 0)) [
      | inl t ↦
          let z : line_start base e ≡ 0 = ground arith in
          lone 0 y ∙ sym (ap (λ c. drop (length c - 1) c) (closed-first base e h z))
      | inr t ↦
          let z : line_start base e ≡ suc (line_start base e - 1) = ground arith in
          let ls = closed base (line_start base e - 1) in
          sym (
            ap (λ c. drop (length c - 1) c) (closed-behind base e (line_start base e - 1) h z)
            ∙ last_ones 0 ls y
            ∙ ap (λ c. c ++ y ∷ []) (drop-all (length ls - 0) ls (omega arith)))
    ]
tail_spans-closed base (suc n) e h =
    let y = take (e - line_start base e) (drop (line_start base e) base) in
    let no : (suc n == 0) ≡ false = ground arith in
    elim (Bool-cases (line_start base e == 0)) [
      | inl t ↦
          let z : line_start base e ≡ 0 = ground arith in
          rw (no, t)
            (lone (suc n) y
              ∙ sym (ap (λ c. drop (length c - suc (suc n)) c) (closed-first base e h z)))
      | inr t ↦
          let z : line_start base e ≡ suc (line_start base e - 1) = ground arith in
          let ls = closed base (line_start base e - 1) in
          let le = line_start-le base e in
          let ih = tail_spans-closed base n (line_start base e - 1) (omega arith) in
          rw (no, t)
            (ap (λ q. q ++ y ∷ []) ih
              ∙ sym (
                  ap (λ c. drop (length c - suc (suc n)) c)
                    (closed-behind base e (line_start base e - 1) h z)
                  ∙ last_ones (suc n) ls y))
    ]

text_end-closed : (base : List ℕ) → 0 < length base → closed base (text_end base) ≡ lines base
unfolding text_end
text_end-closed base h = elim (Bool-cases (get_or base (length base - 1) 0 == b'\n')) [
  | inl t ↦
      let byte : get_or base (length base - 1) 0 ≡ b'\n' = ground arith in
      let whole =
        sym (ap (λ c. take (length base - 1) base ++ c ∷ []) byte)
        ∙ sym (take-suc (length base - 1) base 0 (omega arith)) in
      rw t (ap lines (whole ∙ take-all (suc (length base - 1)) base (omega arith)))
  | inr t ↦ rw t (
      ap (λ xs. lines (xs ++ b'\n' ∷ [])) (take-all (length base) base (omega arith))
      ∙ lines-closed base (length base - 1) (omega arith) t)
]

text_end-le : (base : List ℕ) → text_end base ≤ length base
unfolding text_end
text_end-le base = ground arith

length-to_table :
    (base : List ℕ) (spans : List (ℕ × ℕ)) → length (to_table base spans) ≡ length spans
length-to_table base [] = refl
length-to_table base ((s, e) ∷ spans) =
    length-append (to_table base spans) (take (e - s) (drop s base) ∷ [])
    ∙ omega (arith, length-to_table base spans)

-- What is read backwards are the last `n` lines of the text, on every branch: the error of a file that shrank
-- or of no memory, and the arrays that are too small, which are so when the bytes asked for wrap around.
pub l_tail-lines :
    (alloc : ℕ → Bool) (now : Option Stat) (st : View) (n : ℕ)
    → (let last = drop (length (lines st.base) - n) (lines st.base) in
        l_tail alloc now st n ≡ (
          if shrunk now st
          then raised
          else if (n == 0) || (length st.base == 0)
          then table []
          else if not (alloc (tail_memory n))
          then raised
          else if ltb (tail_memory n / 8) (length last)
          then overruns
          else table last))
unfolding l_tail
l_tail-lines alloc now st zero = refl
l_tail-lines alloc now st (suc n) = elim (Bool-cases (length st.base == 0)) [
  | inl t ↦ let z : (suc n == 0) ≡ false = ground arith in rw (z, t) refl
  | inr t ↦
      let c = text_end-closed st.base (ground arith) in
      let e =
        tail_spans-closed st.base n (text_end st.base) (text_end-le st.base)
        ∙ ap (λ ls. drop (length ls - suc n) ls) c in
      let l =
        sym (length-to_table st.base (tail_spans st.base (suc n) (text_end st.base)))
        ∙ ap length e in
      rw (l, e) refl
]
