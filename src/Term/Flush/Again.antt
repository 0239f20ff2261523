-- ===== src/Term/Flush/Again.antt =====
-- src/termctl.c: from one `tc_flush` to the next the terminal agrees with the front buffer.
use boggart.Base.{
  replicate, ℕ, zero, suc, ◌+◌, ◌*◌, ◌%◌, ◌/◌, ◌<◌, ◌≡◌, refl, ◌∙◌, sym, ap, ap₂, subst, true,
  arith,
}
use boggart.Term.Width.{tc_wcwidth}
use boggart.Term.Grid.{Cell, Screen, alloc_grid, sentinel, cell_eq, at_least_one}
use boggart.Term.Grid.Paint.{cell}
use boggart.Term.Grid.Sound.{room_right}
use boggart.Term.Flush.Reading.{ten_to}
use boggart.Term.Flush.{tc_flush}
use boggart.Term.Flush.Display.{Display, cell_eq-true}
use boggart.Term.Flush.Cells.{IsDrawable, Agrees}
use boggart.Term.Flush.Shown.{received, tc_flush-shows}

next_in_row : (k w h : ℕ) → k < w * h → k % w + 1 < w → k + 1 < w * h
next_in_row k w h p q = grind (arith, room_right (k % w) (k / w) w h)

-- After that, whatever is painted on a grid of the same size, the terminal agrees with it again.
pub tc_flush-Agrees :
    (t t' : Screen) (d₀ : Display)
    → IsDrawable t
    → Agrees t d₀
    → t.w < ten_to 12
    → t.h < ten_to 12
    → IsDrawable t'
    → t'.w ≡ t.w
    → t'.h ≡ t.h
    → t'.front ≡ (tc_flush t).0.front
    → Agrees t' (received t d₀)
tc_flush-Agrees t t' d₀ v a hw hh v' ew eh ef = record {
  agree = λ k h e. (tc_flush-shows t d₀ v a hw hh).0 k (inside k h) ∙ sym (same k e);
  whole = λ k h e wide.
      let left = subst WideCell (same k e) wide in
      (tc_flush-shows t d₀ v a hw hh).0 (k + 1)
        (next_in_row k t.w t.h (inside k h) ((v.sound.paired k).left_half left).0)
      ∙ v.halves k left
      ∙ ap (λ (c : Cell). record c { ch = 0 }) (sym (same k e))
      ∙ sym (v'.halves k wide);
}
  where
    WideCell : Cell → Type 0
    WideCell c = tc_wcwidth c.ch ≡ 2

    inside : (k : ℕ) → k < t'.w * t'.h → k < t.w * t.h
    inside k h = subst (λ n. k < n) (ap₂ ◌*◌ ew eh) h

    same :
        (k : ℕ) → cell_eq (cell t'.back k) (cell t'.front k) ≡ true → cell t'.back k ≡ cell t.back k
    same k e =
        cell_eq-true (cell t'.back k) (cell t'.front k) e
        ∙ ap (λ fs. cell fs k) (ef ∙ (tc_flush-shows t d₀ v a hw hh).1)

-- With a fresh front buffer any terminal agrees.
pub alloc_grid-Agrees :
    (t : Screen) (d : Display) → IsDrawable t → t.front ≡ (alloc_grid t.w t.h).front → Agrees t d
unfolding alloc_grid
alloc_grid-Agrees t d v e = record {
  agree = λ k h c. absurd (differs k h c);
  whole = λ k h c. absurd (differs k h c);
}
  where
    replicated : (n k : ℕ) → k < n → cell (replicate n sentinel) k ≡ sentinel
    replicated zero k h = absurd (omega arith)
    replicated (suc n) zero h = refl
    replicated (suc n) (suc k) h = replicated n k (omega arith)

    differs : (k : ℕ) → k < t.w * t.h → cell_eq (cell t.back k) (cell t.front k) ≡ true → ⊥
    differs k h c =
        let e' : cell t.back k ≡ cell t.front k = cell_eq-true (cell t.back k) (cell t.front k) c in
        let f : cell t.front k ≡ sentinel =
          ap (λ fs. cell fs k) e
          ∙ replicated (at_least_one t.w * at_least_one t.h) k (grind arith) in
        omega (arith, (v.plain k).attr_lt, ap (λ (c : Cell). c.attr) (e' ∙ f))
