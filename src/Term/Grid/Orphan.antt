-- ===== src/Term/Grid/Orphan.antt =====
-- Where `tc_set` of src/termctl.c parts the two halves of a wide glyph.
use boggart.Base.{
  ℕ, ◌+◌, ◌*◌, ◌%◌, ◌^◌, ◌<◌, ◌≡◌, ◌≢◌, ◌∙◌, ap, sym, subst, List, leb, ◌||◌, true, length, arith,
  Bool-cases, inl, inr,
}
use boggart.Base.Int.{ℤ, pos}
use boggart.Term.Width.{tc_wcwidth, tc_wcwidth-nul}
use boggart.Term.Grid.{Cell, Screen, paint, cell_width, clamp_colour, is_null, tc_set}
use boggart.Term.Grid.Paint.{ch_at, WideAt, IsPaired, painted, ch_at-paint}
use boggart.Term.Grid.Pairs.{painted_here, painted_next, painted_far, mod_pos}
use boggart.Term.Grid.Sound.{IsSound, WideRight, column, in_grid, room_right}

-- Cell `i` has the glyph, and both cells behind it are right halves.
abbrev pub LeavesHalf : ℕ → List Cell → ℕ → Type 0
LeavesHalf cp b i = (ch_at b i ≡ cp) × (ch_at b (i + 1) ≡ 0) × (ch_at b (i + 2) ≡ 0)

no_width : (n : ℕ) → n ≡ 0 → tc_wcwidth n ≢ 2
no_width n e k = ground (arith, tc_wcwidth-nul)

half_alone : (w cp i : ℕ) (b : List Cell) → LeavesHalf cp b i → ¬ ((k : ℕ) → IsPaired w b k)
half_alone w cp i b h q =
    no_width _ (ap (ch_at b) (omega arith) ∙ h.1) ((q (i + 2)).right_half h.2).1

paint_orphan :
    (w x i : ℕ) (c : Cell) (b : List Cell)
    → i % w ≡ x
    → x + 1 < w
    → i + 1 < length b
    → tc_wcwidth c.ch ≡ 2
    → WideAt b (i + 1)
    → IsPaired w b (i + 1)
    → LeavesHalf c.ch (paint w x i (cell_width c.ch) c b) i
paint_orphan w x i c b here inside h wide other p =
    let p₀ = painted_here w x i (cell_width c.ch) c.ch b in
    let p₁ = painted_next w x i (cell_width c.ch) c.ch b in
    let p₂ =
      painted_far w x i (cell_width c.ch) c.ch b (i + 2) (omega arith) (omega arith)
        (omega arith) in
    let half : ch_at b (i + 2) ≡ 0 = ap (ch_at b) (omega arith) ∙ (p.left_half other).1 in
    (at i ∙ ground (arith, p₀), at (i + 1) ∙ ground (arith, p₁), at (i + 2) ∙ p₂ ∙ half)
  where
    first : 0 < x → 0 < i
    first h = mod_pos w i (subst (λ n. 0 < n) (sym here) h)

    at :
        (j : ℕ)
        → ch_at (paint w x i (cell_width c.ch) c b) j ≡ painted w x i (cell_width c.ch) c.ch b j
    at j = ch_at-paint w x i (cell_width c.ch) c b j (omega arith) (λ k. h) first

-- On a sound grid, a wide glyph put on a cell whose right neighbour begins a wide glyph is written with its
-- right half over that neighbour, and the right half of the neighbour's glyph stays behind it: the grid is
-- not sound any more.
pub tc_set-orphan :
    (x y cp : ℕ) (fg bg : ℤ) (attr : ℕ) (t : Screen)
    → IsSound t
    → y < t.h
    → tc_wcwidth cp ≡ 2
    → WideRight x y t
    → LeavesHalf cp (tc_set (pos x) (pos y) cp fg bg attr t).back (y * t.w + x)
      × (¬ IsSound (tc_set (pos x) (pos y) cp fg bg attr t))
unfolding tc_set
tc_set-orphan x y cp fg bg attr t s hy wide (hx, other) =
    elim (Bool-cases (is_null t.back || (leb t.w x || leb t.h y))) [
      | inl e ↦ absurd (no_room t s x y hx hy e)
      | inr e ↦
          let c : Cell = record {
            ch = cp;
            fg = clamp_colour fg;
            bg = clamp_colour bg;
            attr = attr % 2 ^ 8;
          } in
          let l : LeavesHalf cp (paint t.w x (y * t.w + x) (cell_width cp) c t.back) (y * t.w + x) =
            paint_orphan t.w x (y * t.w + x) c t.back (column x y t.w (omega arith)) hx
              (omega (arith, room_right x y t.w t.h hx hy, s.back_size)) wide other (s.paired _) in
          rw e (
            l,
            λ k.
                half_alone t.w cp (y * t.w + x) (paint t.w x (y * t.w + x) (cell_width cp) c t.back)
                  l k.paired,
          )
    ]
  where
    no_room :
        (t : Screen)
        → IsSound t
        → (x y : ℕ) → x + 1 < t.w
        → y < t.h
        → (is_null t.back || (leb t.w x || leb t.h y)) ≡ true
        → ⊥
    no_room t s x y hx hy e = ground (arith, in_grid x y t.w t.h, s.back_size)
