-- ===== src/Term/Flush/Shown.antt =====
-- src/termctl.c: after `tc_flush` the terminal shows the back buffer.
use boggart.Base.{
  get_or-ext, ℕ, zero, suc, ◌+◌, ◌*◌, ◌<◌, ◌≡◌, refl, ◌∙◌, sym, ap, subst, ◌==◌, ◌||◌, Bool, true,
  false, List, [], ◌∷◌, Bool-cases, inl, inr, length, arith,
}
use boggart.Term.Grid.{Cell, Screen, blank_cell, cell_eq, is_null}
use boggart.Term.Grid.Paint.{cell, ch_at}
use boggart.Term.Grid.Sound.{in_grid}
use boggart.Term.Flush.Terminal.{plain, feed}
use boggart.Term.Flush.Reading.{ten_to}
use boggart.Term.Flush.Sends.{emit_all-feed, with_reset-shows, flush_all-AllSendable}
use boggart.Term.Flush.{emit_all, Flush, flush_cell, flush_columns, flush_rows, flush_all, tc_flush}
use boggart.Term.Flush.Display.{Display, obey_all}
use boggart.Term.Flush.Step.{drawn}
use boggart.Term.Flush.Cells.{IsDrawable, Agrees, At, step_same, step_half, step_draw}

-- The terminal after the pieces of output of `tc_flush`
abbrev flushed : Screen → Display → Display
flushed t d₀ = obey_all t.w (flush_all t).out d₀

module _ (t : Screen) (d₀ : Display) (drawable : IsDrawable t) (agrees : Agrees t d₀) where
  abbrev Done : ℕ → Flush → Type 0
  Done i s = (d : Display) × At t d₀ drawable agrees i s d

  flush_cell-Done :
      (x y : ℕ) (s : Flush)
      → x < t.w
      → y < t.h
      → Done (y * t.w + x) s
      → Done (y * t.w + x + 1) (flush_cell t x y s)
  unfolding flush_cell
  flush_cell-Done x y s hx hy (d, a) =
      let i : ℕ = y * t.w + x in
      let h : i < t.w * t.h = in_grid x y t.w t.h hx hy in
      elim (Bool-cases (cell_eq (cell t.back i) (cell s.front i))) [
        | inl e ↦ rw e (d, step_same t d₀ drawable agrees i s d h a e)
        | inr e ↦ rw e (elim (Bool-cases (ch_at t.back i == 0)) [
          | inl z ↦ rw z (d, step_half t d₀ drawable agrees i s d h a (ground arith))
          | inr z ↦
              rw z
                (drawn t.w x y (cell t.back i) d, step_draw t d₀ drawable agrees i x y s d refl h a)
        ])
      ]

  flush_columns-Done :
      (n x y : ℕ) (s : Flush)
      → x + n ≡ t.w
      → y < t.h
      → Done (y * t.w + x) s
      → Done (y * t.w + t.w) (flush_columns t n x y s)
  unfolding flush_columns
  flush_columns-Done zero x y s e hy r = subst (λ k. Done (y * t.w + k) s) (omega arith) r
  flush_columns-Done (suc n) x y s e hy r =
      flush_columns-Done n (x + 1) y (flush_cell t x y s) (omega arith) hy (
        subst (λ k. Done k (flush_cell t x y s)) (omega arith)
          (flush_cell-Done x y s (omega arith) hy r))

  flush_rows-Done :
      (n y : ℕ) (s : Flush) → y + n ≡ t.h → Done (y * t.w) s → Done (t.h * t.w) (flush_rows t n y s)
  unfolding flush_rows
  flush_rows-Done zero y s e r = subst (λ k. Done (k * t.w) s) (omega arith) r
  flush_rows-Done (suc n) y s e r =
      let r' =
        flush_columns-Done t.w 0 y s (omega arith) (omega arith)
          (subst (λ k. Done k s) (omega arith) r) in
      flush_rows-Done n (y + 1) (flush_columns t t.w 0 y s) (omega arith)
        (subst (λ k. Done k (flush_columns t t.w 0 y s)) (grind arith) r')

  flush_all-Done : Done (t.h * t.w) (flush_all t)
  unfolding flush_all obey_all
  flush_all-Done = flush_rows-Done t.h 0 _ (omega arith) (
    d₀,
    record {
      ran = refl;
      place = tt;
      style = tt;
      size = drawable.sound.front_size;
      shown = λ j h. absurd (omega arith);
      copied = λ j h. absurd (omega arith);
      ahead = λ j h. refl;
      later = λ j h. refl;
      covered = λ j e k. absurd (omega arith);
      open_place = λ n. refl;
    },
  )

  shown_all : (k : ℕ) → k < t.w * t.h → (flushed t d₀).shows k ≡ cell t.back k
  shown_all k h =
      let (d, a) = flush_all-Done in
      subst (λ (e : Display). e.shows k ≡ cell t.back k) (sym a.ran) (a.shown k (grind arith))

  front_all : (flush_all t).front ≡ t.back
  front_all =
      let (d, a) = flush_all-Done in
      get_or-ext blank_cell (flush_all t).front t.back (a.size ∙ sym drawable.sound.back_size)
        (λ k h. a.copied k (grind (arith, a.size)))

-- The terminal after the bytes that `tc_flush` writes
abbrev pub received : Screen → Display → Display
received t d₀ = (feed t.w (tc_flush t).1 (plain, d₀)).1

is_null-length : (b : List Cell) → is_null b ≡ true → length b ≡ 0
is_null-length [] e = refl
is_null-length (c ∷ b) e = cc (e)

received-shows :
    (t : Screen) (d₀ : Display)
    → IsDrawable t
    → t.w < ten_to 12
    → t.h < ten_to 12
    → (k : ℕ) → k < t.w * t.h
    → (received t d₀).shows k ≡ (flushed t d₀).shows k
unfolding tc_flush
received-shows t d₀ v hw hh k h = elim (Bool-cases (is_null t.back || is_null t.front)) [
  | inl e ↦ absurd (no_cells v (is_null t.back) (is_null t.front) refl refl e h)
  | inr e ↦
      rw (e, received, tc_flush)
        (ap (λ (f : ℕ → Cell). f k)
          (with_reset-shows t.w (emit_all (flush_all t).out) d₀ (flushed t d₀)
            (emit_all-feed t.w (flush_all t).out d₀ (flush_all-AllSendable t v.plain hw hh))))
]
  where
    no_cells :
        IsDrawable t
        → (a b : Bool) → is_null t.back ≡ a
        → is_null t.front ≡ b
        → (a || b) ≡ true
        → k < t.w * t.h
        → ⊥
    no_cells v true b p q e h = omega (arith, h, v.sound.back_size, is_null-length t.back p)
    no_cells v false true p q e h = omega (arith, h, v.sound.front_size, is_null-length t.front q)
    no_cells v false false p q e h = cc (e)

pub tc_flush-shows :
    (t : Screen) (d₀ : Display)
    → IsDrawable t
    → Agrees t d₀
    → t.w < ten_to 12
    → t.h < ten_to 12
    → ((k : ℕ) → k < t.w * t.h → (received t d₀).shows k ≡ cell t.back k)
      × ((tc_flush t).0.front ≡ t.back)
unfolding tc_flush
tc_flush-shows t d₀ drawable agrees hw hh = (
  λ k h. received-shows t d₀ drawable hw hh k h ∙ shown_all t d₀ drawable agrees k h,
  elim (Bool-cases (is_null t.back || is_null t.front)) [
    | inl e ↦ rw e (both_null t drawable e)
    | inr e ↦ rw e (front_all t d₀ drawable agrees)
  ],
)
  where
    empty : (b f : List Cell) → length b ≡ length f → (is_null b || is_null f) ≡ true → f ≡ b
    empty [] [] l e = refl
    empty (c ∷ b) [] l e = absurd (omega arith)
    empty [] (c ∷ f) l e = absurd (omega arith)
    empty (c ∷ b) (c' ∷ f) l e = cc (e)

    both_null :
        (t : Screen) → IsDrawable t → (is_null t.back || is_null t.front) ≡ true → t.front ≡ t.back
    both_null t v e = empty t.back t.front (v.sound.back_size ∙ sym v.sound.front_size) e
