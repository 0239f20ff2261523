-- ===== src/Term/Grid/Sound.antt =====
-- The grid of src/termctl.c as `tc_set`, `tc_clear`, `alloc_grid` and `update_size` keep it.
use native.Mathlib.Nat.{mul-add-mod_self_right, mod-eq_of_lt}
use boggart.Base.{
  inl, inr, ℕ, zero, suc, ◌+◌, ◌-◌, ◌*◌, ◌%◌, ◌^◌, ◌<◌, ◌≡◌, ◌≢◌, refl, ◌∙◌, ap, sym, subst, List,
  leb, ◌==◌, ◌&&◌, ◌||◌, length, length-replicate, replicate, arith, get_or, Bool-cases,
}
use boggart.Base.Int.{ℤ, pos}
use boggart.Term.Width.{tc_wcwidth, tc_wcwidth-space}
use boggart.Term.Grid.{
  Cell, Screen, blank_cell, sentinel, paint, cell_width, at_least_one, clamp_colour, is_null,
  tc_set, tc_clear, alloc_grid, update_size,
}
use boggart.Term.Grid.Paint.{ch_at, WideAt, IsPaired, painted, ch_at-paint, length-paint}
use boggart.Term.Grid.Pairs.{right_at, left_at, mod_pos}

pub record IsSound (t : Screen) : Type 0 where
  pub back_size : length t.back ≡ t.w * t.h
  pub front_size : length t.front ≡ t.w * t.h
  pub paired : (k : ℕ) → IsPaired t.w t.back k

pub in_grid : (x y w h : ℕ) → x < w → y < h → y * w + x < w * h
in_grid x y w h p q = grind arith

pub room_right : (x y w h : ℕ) → x + 1 < w → y < h → y * w + x + 1 < w * h
room_right x y w h p q = omega (arith, in_grid (x + 1) y w h p q)

pub column : (x y w : ℕ) → x < w → (y * w + x) % w ≡ x
column x y w h = mul-add-mod_self_right y w x ∙ mod-eq_of_lt h

blanks : (n i : ℕ) → get_or (replicate n blank_cell) i blank_cell ≡ blank_cell
blanks zero i = refl
blanks (suc n) zero = refl
blanks (suc n) (suc i) = blanks n i

blanks-IsPaired : (n w k : ℕ) → IsPaired w (replicate n blank_cell) k
blanks-IsPaired n w k = record {
  right_half = λ e. ground (arith, ap (λ (c : Cell). c.ch) (blanks n k));
  left_half = λ e. ground (arith, ap (λ (c : Cell). c.ch) (blanks n k), tc_wcwidth-space);
}

-- A fresh grid is sound.
pub alloc_grid-IsSound : (w h : ℕ) → IsSound (alloc_grid w h)
unfolding alloc_grid
alloc_grid-IsSound w h = record {
  back_size = length-replicate (at_least_one w * at_least_one h) blank_cell;
  front_size = length-replicate (at_least_one w * at_least_one h) sentinel;
  paired = blanks-IsPaired (at_least_one w * at_least_one h) (at_least_one w);
}

-- A change of size, or none, keeps the grid sound.
pub update_size-IsSound : (w h : ℕ) (t : Screen) → IsSound t → IsSound (update_size w h t)
unfolding update_size
update_size-IsSound w h t s = elim (Bool-cases ((w == t.w) && (h == t.h))) [
  | inl e ↦ rw e s
  | inr e ↦ rw e (alloc_grid-IsSound w h)
]

tc_clear-IsSound : (t : Screen) → IsSound t → IsSound (tc_clear t)
unfolding tc_clear
tc_clear-IsSound t s = elim (Bool-cases (is_null t.back)) [
  | inl e ↦ rw e s
  | inr e ↦ rw e (record {
    back_size = length-replicate (t.w * t.h) blank_cell;
    front_size = s.front_size;
    paired = blanks-IsPaired (t.w * t.h) t.w;
  })
]

paint-IsPaired :
    (w x i : ℕ) (c : Cell) (b : List Cell)
    → i % w ≡ x
    → x < w
    → i < length b
    → (x + 1 < w → i + 1 < length b)
    → c.ch ≢ 0
    → (tc_wcwidth c.ch ≡ 2 → x + 1 < w → tc_wcwidth (ch_at b (i + 1)) ≢ 2)
    → ((k : ℕ) → IsPaired w b k)
    → (k : ℕ) → IsPaired w (paint w x i (cell_width c.ch) c b) k
paint-IsPaired w x i c b here inside h₁ h₂ ne apart paired k = record {
  right_half = λ e.
      let (p, q) = right_at w x i c.ch b here inside ne apart paired k (sym (at k) ∙ e) in
      (p, rw (at (k - 1)) q);
  left_half = λ e.
      let (p, q) = left_at w x i c.ch b here inside ne apart paired k (rw (at k) at e) in
      (p, at (k + 1) ∙ q);
}
  where
    first : 0 < x → 0 < i
    first h = mod_pos w i (subst (λ n. 0 < n) (sym here) h)

    at :
        (j : ℕ)
        → ch_at (paint w x i (cell_width c.ch) c b) j ≡ painted w x i (cell_width c.ch) c.ch b j
    at j = ch_at-paint w x i (cell_width c.ch) c b j h₁ h₂ first

-- The cell to the right of (x, y) is the left half of a wide glyph.
abbrev pub WideRight : ℕ → ℕ → Screen → Type 0
WideRight x y t = (x + 1 < t.w) × WideAt t.back (y * t.w + x + 1)

-- `tc_set` of a code point other than NUL keeps the grid sound, at any column and row from 0 on and
-- with any colours, unless a wide glyph is put on a cell whose right neighbour begins a wide glyph.
pub tc_set-IsSound :
    (x y cp : ℕ) (fg bg : ℤ) (attr : ℕ) (t : Screen)
    → IsSound t
    → cp ≢ 0
    → (tc_wcwidth cp ≡ 2 → ¬ WideRight x y t)
    → IsSound (tc_set (pos x) (pos y) cp fg bg attr t)
unfolding tc_set
tc_set-IsSound x y cp fg bg attr t s ne apart =
    elim (Bool-cases (is_null t.back || (leb t.w x || leb t.h y))) [
      | inl e ↦ rw e s
      | inr e ↦
          let hx : x < t.w = ground arith in
          let hy : y < t.h = ground arith in
          let i : ℕ = y * t.w + x in
          let c : Cell = record {
            ch = cp;
            fg = clamp_colour fg;
            bg = clamp_colour bg;
            attr = attr % 2 ^ 8;
          } in
          rw e (record {
            back_size = length-paint t.w x i (cell_width cp) c t.back ∙ s.back_size;
            front_size = s.front_size;
            paired =
                paint-IsPaired t.w x i c t.back (column x y t.w hx) hx
                  (omega (arith, in_grid x y t.w t.h hx hy, s.back_size))
                  (λ h. omega (arith, room_right x y t.w t.h h hy, s.back_size)) ne
                  (λ h k l. apart h (k, l)) s.paired;
          })
    ]
