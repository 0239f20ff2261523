-- ===== src/Views/Index/Indexed.antt =====
-- src/lview.c: what the index of a view holds between the calls, and how far `index_locked` gets, where
-- allocations succeed.
use boggart.Base.{
  ℕ, ◌+◌, ◌-◌, ◌<◌, ◌≡◌, refl, ◌∙◌, sym, ap, List, [], ◌∷◌, ◌++◌, length, get_elem?,
  get_elem?-behind, some, take, take-all, drop, ltb, leb, ◌==◌, ◌&&◌, true, false, Bool-cases, inl,
  inr, ◌⊎◌, if◌then◌else◌, arith,
}
use boggart.Views.Lines.{marks, starts}
use boggart.Views.State.{View}
use boggart.Views.Index.{LineScan}
use boggart.Views.Index.Marks.{IsFound, marks-further}

-- The loop's variables as a view keeps them
abbrev pub scan_of : View → LineScan
scan_of st = record { at = st.scanned; offs = st.offs; cap = st.cap; failed = false }

-- A view that was never indexed, and one that was
abbrev pub IsFresh : View → Type 0
IsFresh st =
    (st.offs ≡ []) × (st.scanned ≡ 0) × (st.cap ≡ 0) × (st.complete ≡ (length st.base == 0))

abbrev pub IsBegun : View → Type 0
IsBegun st =
    (0 < length st.base)
    × IsFound st.base (scan_of st)
    × (st.complete ≡ leb (length st.base) st.scanned)

-- Between the calls
abbrev pub IsIndexed : View → Type 0
IsIndexed st = IsFresh st ⊎ IsBegun st

-- The index is a beginning of the starts of all lines, and all of them when it is complete.
abbrev pub IsBeginning : View → Type 0
IsBeginning st =
    (rest : List ℕ) × (starts st.base ≡ st.offs ++ rest)
    × (st.complete ≡ true → rest ≡ [])
    × (st.complete ≡ false → 0 < length st.base)

starts-marks : (base : List ℕ) → 0 < length base → starts base ≡ 0 ∷ marks (length base) 0 base
unfolding starts
starts-marks [] h = absurd (omega arith)
starts-marks (c ∷ cs) h = refl

starts-empty : (base : List ℕ) → length base ≡ 0 → starts base ≡ []
unfolding starts
starts-empty [] h = refl
starts-empty (c ∷ cs) h = absurd (omega arith)

starts-begun :
    (st : View)
    → 0 < length st.base
    → IsFound st.base (scan_of st)
    → (let n = length st.base in
        starts st.base
        ≡ st.offs ++ marks n st.scanned (take (n - st.scanned) (drop st.scanned st.base)))
starts-begun st h (a, o, g, l, c) =
    let n = length st.base in
    let rest = marks n st.scanned (take (n - st.scanned) (drop st.scanned st.base)) in
    starts-marks st.base h
    ∙ ap (λ xs. 0 ∷ marks n 0 xs)
        (sym (take-all (st.scanned + (n - st.scanned)) st.base (omega arith)))
    ∙ ap (λ xs. 0 ∷ xs) (marks-further st.base st.scanned (n - st.scanned) a)
    ∙ ap (λ xs. xs ++ rest) (sym o)

pub IsIndexed-IsBeginning : (st : View) → IsIndexed st → IsBeginning st
unfolding starts marks
IsIndexed-IsBeginning st (inl (o, z, c, e)) = (
  starts st.base,
  ap (λ xs. xs ++ starts st.base) (sym o),
  λ t. starts-empty st.base (ground (arith, t, e)),
  λ t. ground (arith, t, e),
)
IsIndexed-IsBeginning st (inr (h, f, e)) =
    let n = length st.base in
    let rest = marks n st.scanned (take (n - st.scanned) (drop st.scanned st.base)) in
    (
      rest,
      starts-begun st h f,
      λ t.
          let d : n - st.scanned ≡ 0 = ground (arith, t, e) in
          ap (λ k. marks n st.scanned (take k (drop st.scanned st.base))) d,
      λ t. h,
    )

marks-first : (size at t : ℕ) (xs : List ℕ) → get_elem? (marks size at xs) 0 ≡ some t → at < t
unfolding marks
marks-first size at t [] e = cc (e)
marks-first size at t (x ∷ xs) e =
    let rest = marks size (at + 1) xs in
    elim (Bool-cases ((x == b'\n') && ltb (at + 1) size)) [
      | inl q ↦
          let v : some (at + 1) ≡ some t =
            sym (ap (λ b. get_elem? (if b then (at + 1) ∷ rest else rest) 0) q) ∙ e in
          ground (arith, v)
      | inr q ↦ omega (
        arith,
        marks-first size (at + 1) t xs
            (sym (ap (λ b. get_elem? (if b then (at + 1) ∷ rest else rest) 0) q) ∙ e),
      )
    ]

-- The first start that the index does not have is behind what it passed.
pub IsIndexed-next :
    (st : View) (off t : ℕ)
    → IsIndexed st
    → ((st.complete ≡ true) ⊎ (off < st.scanned))
    → get_elem? (starts st.base) (length st.offs) ≡ some t
    → off < t
IsIndexed-next st off t i c e =
    let (rest, s, none_left, some_left) = IsIndexed-IsBeginning st i in
    elim (Bool-cases st.complete) [
      | inl d ↦
          let gone =
            sym e
            ∙ ap (λ xs. get_elem? xs (length st.offs)) (s ∙ ap (λ r. st.offs ++ r) (none_left d))
            ∙ get_elem?-behind st.offs [] in
          cc (gone)
      | inr d ↦ elim i [
        | inl (o, z, p, q) ↦ absurd (ground arith)
        | inr (h, f, q) ↦
            let n = length st.base in
            let here =
              sym (
                ap (λ xs. get_elem? xs (length st.offs)) (starts-begun st h f)
                ∙ get_elem?-behind st.offs _)
              ∙ e in
            let l =
              marks-first n st.scanned t (take (n - st.scanned) (drop st.scanned st.base)) here in
            ground arith
      ]
    ]
