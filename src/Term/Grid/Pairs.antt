-- ===== src/Term/Grid/Pairs.antt =====
-- `tc_set` of src/termctl.c and the two halves of wide glyphs.
use native.Mathlib.Decide.{ℕ_discrete}
use boggart.Base.{
  ℕ, suc, ◌+◌, ◌-◌, ◌%◌, ◌<◌, ◌≡◌, ◌≢◌, ap, subst, sym, List, ltb, leb, ◌==◌, ◌&&◌, arith,
  if◌then◌else◌,
}
use boggart.Term.Width.{tc_wcwidth, tc_wcwidth-nul, tc_wcwidth-space, tc_wcwidth-le}
use boggart.Term.Grid.{Cell, cell_width}
use boggart.Term.Grid.Paint.{ch_at, IsPaired, painted}

next_column : (w x i : ℕ) → i % w ≡ x → x + 1 < w → (i + 1) % w ≡ x + 1
next_column w x i e h = grind arith

pub mod_pos : (w j : ℕ) → 0 < j % w → 0 < j
mod_pos w j h = grind arith

-- The painted characters, place by place.
pub painted_here :
    (w x i width cp : ℕ) (b : List Cell)
    → painted w x i width cp b i ≡ (if width == 2 && leb w (x + 1) then b' ' else cp)
unfolding painted
painted_here w x i width cp b = ground arith

pub painted_next :
    (w x i width cp : ℕ) (b : List Cell)
    → painted w x i width cp b (i + 1) ≡ (
        if width == 2 && ltb (x + 1) w
        then 0
        else (if ltb (x + 1) w && (ch_at b (i + 1) == 0 && tc_wcwidth (ch_at b i) == 2)
            then b' '
            else ch_at b (i + 1)))
unfolding painted
painted_next w x i width cp b = ground arith

painted_prev :
    (w x i width cp : ℕ) (b : List Cell) (j : ℕ)
    → suc j ≡ i
    → painted w x i width cp b j ≡ (if ch_at b i == 0 && ltb 0 x then b' ' else ch_at b j)
unfolding painted
painted_prev w x i width cp b j e = ground arith

pub painted_far :
    (w x i width cp : ℕ) (b : List Cell) (j : ℕ)
    → j ≢ i
    → j ≢ i + 1
    → suc j ≢ i
    → painted w x i width cp b j ≡ ch_at b j
unfolding painted
painted_far w x i width cp b j p q r = ground arith

-- The two clauses of `IsPaired` after painting, over the characters alone.
module _ (w x i cp : ℕ) (b : List Cell) (here : i % w ≡ x) (inside : x < w) (printable : cp ≢ 0)
    (apart : tc_wcwidth cp ≡ 2 → x + 1 < w → tc_wcwidth (ch_at b (i + 1)) ≢ 2)
    (paired : (k : ℕ) → IsPaired w b k) where
  right_next :
      painted w x i (cell_width cp) cp b (i + 1) ≡ 0
      → (0 < (i + 1) % w) × (tc_wcwidth (painted w x i (cell_width cp) cp b i) ≡ 2)
  right_next e = ground (
    arith,
    painted_here w x i (cell_width cp) cp b,
    painted_next w x i (cell_width cp) cp b,
    (paired i).left_half,
    (paired (i + 1)).right_half,
    tc_wcwidth-le cp,
    next_column w x i here,
  )

  -- Two places to the left of a right half nothing has changed.
  right_from :
      (k : ℕ)
      → k ≢ i
      → tc_wcwidth (ch_at b k) ≡ 2
      → ch_at b (k + 1) ≡ 0
      → painted w x i (cell_width cp) cp b (k + 1) ≡ 0
      → tc_wcwidth (painted w x i (cell_width cp) cp b k) ≡ 2
  right_from k p h e q = elim (ℕ_discrete k (i + 1)) [
    | yes n ↦ ground (
      arith,
      ap (ch_at b) n,
      ap (painted w x i (cell_width cp) cp b) n,
      painted_next w x i (cell_width cp) cp b,
      apart,
      tc_wcwidth-nul,
      tc_wcwidth-le cp,
    )
    | no n ↦ elim (ℕ_discrete (suc k) i) [
      | yes m ↦ ground (
        arith,
        ap (ch_at b) m,
        ap (painted w x i (cell_width cp) cp b) m,
        painted_here w x i (cell_width cp) cp b,
      )
      | no m ↦ rw (painted_far w x i (cell_width cp) cp b k p n m) h
    ]
  ]

  unpainted_zero :
      (j : ℕ) → j ≢ i → j ≢ i + 1 → painted w x i (cell_width cp) cp b j ≡ 0 → ch_at b j ≡ 0
  unpainted_zero j p q e = elim (ℕ_discrete (suc j) i) [
    | yes m ↦ ground (arith, painted_prev w x i (cell_width cp) cp b j m)
    | no m ↦ ground (arith, painted_far w x i (cell_width cp) cp b j p q m)
  ]

  pub right_at :
      (j : ℕ)
      → painted w x i (cell_width cp) cp b j ≡ 0
      → (0 < j % w) × (tc_wcwidth (painted w x i (cell_width cp) cp b (j - 1)) ≡ 2)
  right_at j e = elim (ℕ_discrete j i) [
    | yes p ↦
        ground (
          arith,
          ap (painted w x i (cell_width cp) cp b) p,
          painted_here w x i (cell_width cp) cp b,
        )
    | no p ↦ elim (ℕ_discrete j (i + 1)) [
      | yes q ↦
          let (c, l) = right_next (subst (λ k. painted w x i (cell_width cp) cp b k ≡ 0) q e) in
          let back : i + 1 - 1 ≡ i = omega arith in
          subst (λ k. (0 < k % w) × (tc_wcwidth (painted w x i (cell_width cp) cp b (k - 1)) ≡ 2))
            (sym q) (c, rw back l)
      | no q ↦
          let z = unpainted_zero j p q e in
          let (c, l) = (paired j).right_half z in
          let o : 0 < j = mod_pos w j c in
          let s : j - 1 + 1 ≡ j = omega arith in
          (c, right_from (j - 1) (λ m. q (omega arith)) l (rw s z) (rw s e))
    ]
  ]

  left_at_here :
      tc_wcwidth (painted w x i (cell_width cp) cp b i) ≡ 2
      → (i % w + 1 < w) × (painted w x i (cell_width cp) cp b (i + 1) ≡ 0)
  left_at_here e = ground (
    arith,
    painted_here w x i (cell_width cp) cp b,
    painted_next w x i (cell_width cp) cp b,
    tc_wcwidth-space,
    tc_wcwidth-le cp,
  )

  left_at_next :
      tc_wcwidth (painted w x i (cell_width cp) cp b (i + 1)) ≡ 2
      → ((i + 1) % w + 1 < w) × (painted w x i (cell_width cp) cp b (i + 1 + 1) ≡ 0)
  left_at_next e = ground (
    arith,
    painted_next w x i (cell_width cp) cp b,
    painted_far w x i (cell_width cp) cp b (i + 1 + 1),
    (paired (i + 1)).left_half,
    tc_wcwidth-space,
    tc_wcwidth-nul,
  )

  left_at_prev :
      (j : ℕ)
      → suc j ≡ i
      → tc_wcwidth (painted w x i (cell_width cp) cp b j) ≡ 2
      → (j % w + 1 < w) × (painted w x i (cell_width cp) cp b (j + 1) ≡ 0)
  left_at_prev j m e = ground (
    arith,
    painted_prev w x i (cell_width cp) cp b j m,
    (paired j).left_half,
    (paired i).right_half,
    ap (ch_at b) m,
    tc_wcwidth-space,
  )

  left_at_far :
      (j : ℕ)
      → j ≢ i
      → j ≢ i + 1
      → suc j ≢ i
      → tc_wcwidth (painted w x i (cell_width cp) cp b j) ≡ 2
      → (j % w + 1 < w) × (painted w x i (cell_width cp) cp b (j + 1) ≡ 0)
  left_at_far j p q m e = elim (ℕ_discrete (suc (j + 1)) i) [
    | yes r ↦ ground (
      arith,
      painted_far w x i (cell_width cp) cp b j p q m,
      painted_prev w x i (cell_width cp) cp b (j + 1) r,
      (paired j).left_half,
      (paired i).right_half,
      tc_wcwidth-nul,
      ap (λ (k : ℕ). ch_at b (k - 1)) r,
    )
    | no r ↦ ground (
      arith,
      painted_far w x i (cell_width cp) cp b j p q m,
      painted_far w x i (cell_width cp) cp b (j + 1),
      (paired j).left_half,
    )
  ]

  pub left_at :
      (j : ℕ)
      → tc_wcwidth (painted w x i (cell_width cp) cp b j) ≡ 2
      → (j % w + 1 < w) × (painted w x i (cell_width cp) cp b (j + 1) ≡ 0)
  left_at j e = elim (ℕ_discrete j i) [
    | yes p ↦ subst Goal (sym p) (left_at_here (subst Wide p e))
    | no p ↦ elim (ℕ_discrete j (i + 1)) [
      | yes q ↦ subst Goal (sym q) (left_at_next (subst Wide q e))
      | no q ↦ elim (ℕ_discrete (suc j) i) [
        | yes m ↦ left_at_prev j m e
        | no m ↦ left_at_far j p q m e
      ]
    ]
  ]
    where
      Goal : ℕ → Type 0
      Goal k = (k % w + 1 < w) × (painted w x i (cell_width cp) cp b (k + 1) ≡ 0)

      Wide : ℕ → Type 0
      Wide k = tc_wcwidth (painted w x i (cell_width cp) cp b k) ≡ 2
