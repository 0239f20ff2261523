-- ===== src/Term/Flush/Blank.antt =====
-- src/termctl.c: `tc_flush` can show a fresh grid.
use boggart.Base.{ℕ, zero, suc, ◌*◌, ◌≡◌, ◌≢◌, refl, sym, subst, replicate, arith}
use boggart.Term.Width.{tc_wcwidth}
use boggart.Term.Grid.{Cell, blank_cell, alloc_grid, at_least_one}
use boggart.Term.Grid.Paint.{cell}
use boggart.Term.Grid.Sound.{alloc_grid-IsSound}
use boggart.Term.Utf8.{scalar}
use boggart.Term.Flush.Step.{IsPlain}
use boggart.Term.Flush.Cells.{IsDrawable}

all_blank : (n k : ℕ) → cell (replicate n blank_cell) k ≡ blank_cell
all_blank zero k = refl
all_blank (suc n) zero = refl
all_blank (suc n) (suc k) = all_blank n k

blank_cell-IsPlain : IsPlain blank_cell
unfolding scalar
blank_cell-IsPlain = record {
  fg_eq = refl;
  bg_eq = refl;
  attr_lt = omega arith;
  fg_small = tt;
  bg_small = tt;
  printable = λ n. (omega arith, refl);
}

blank_narrow : tc_wcwidth blank_cell.ch ≢ 2
unfolding tc_wcwidth
blank_narrow e = omega (arith, e)

pub alloc_grid-IsDrawable : (w h : ℕ) → IsDrawable (alloc_grid w h)
unfolding alloc_grid
alloc_grid-IsDrawable w h = record {
  sound = alloc_grid-IsSound w h;
  plain = λ k. subst IsPlain (sym (all_blank n k)) blank_cell-IsPlain;
  halves = λ k wide.
      absurd (blank_narrow (subst (λ (c : Cell). tc_wcwidth c.ch ≡ 2) (all_blank n k) wide));
}
  where
    n : ℕ
    n = at_least_one w * at_least_one h
