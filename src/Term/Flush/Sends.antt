-- ===== src/Term/Flush/Sends.antt =====
-- src/termctl.c: what `tc_flush` puts into the output buffer is read as it is meant.
use boggart.Base.{
  ℕ, zero, suc, ◌+◌, ◌*◌, ◌≤◌, ◌<◌, ◌≡◌, refl, ◌∙◌, ap, ◌==◌, ◌&&◌, List, [], ◌∷◌, ◌++◌, Option,
  none, some, Bool-cases, inl, inr, arith,
}
use boggart.Base.Int.{ℤ, eqb_ℤ}
use boggart.Term.Utf8.{scalar}
use boggart.Term.Grid.{Cell, Screen, cell_eq}
use boggart.Term.Grid.Paint.{cell, ch_at}
use boggart.Term.Flush.{
  Out, cup, sgr, glyph, emit, emit_all, Flush, place_ops, style_ops, draw_cell, flush_cell,
  flush_columns, flush_rows, flush_all, reset_bytes, with_reset,
}
use boggart.Term.Flush.Display.{Display, obey, obey_all}
use boggart.Term.Flush.Terminal.{Mode, plain, feed, feed_byte, finish, dye_all, dye}
use boggart.Term.Flush.Reading.{feed-append, ten_to, ob_cup-feed, glyph-feed}
use boggart.Term.Flush.Rendition.{Small, ob_sgr-feed}
use boggart.Term.Flush.Step.{IsPlain}

abbrev pub Sendable : Out → Type 0
Sendable (cup x y) = (x + 1 < ten_to 12) × (y + 1 < ten_to 12)
Sendable (sgr fg bg attr) = (attr < 16) × Small fg × Small bg
Sendable (glyph cp) = (0x20 ≤ cp) × (scalar cp ≡ cp)

abbrev pub AllSendable : List Out → Type 0
AllSendable [] = Unit {0}
AllSendable (o ∷ os) = Sendable o × AllSendable os

AllSendable-append : (os ps : List Out) → AllSendable os → AllSendable ps → AllSendable (os ++ ps)
AllSendable-append [] ps h k = k
AllSendable-append (o ∷ os) ps h k = (h.0, AllSendable-append os ps h.1 k)

emit-feed :
    (w : ℕ) (o : Out) (d : Display) → Sendable o → feed w (emit o) (plain, d) ≡ (plain, obey w o d)
unfolding emit obey
emit-feed w (cup x y) d h = ob_cup-feed w x y d h.0 h.1
emit-feed w (sgr fg bg attr) d (h, k, l) =
    ob_sgr-feed w fg bg attr d h k l ∙ ap (λ (a : ℕ). (plain, recoloured a)) (omega arith)
  where
    recoloured : ℕ → Display
    recoloured a = record (obey w (sgr fg bg attr) d) { attr = a }
emit-feed w (glyph cp) d h = glyph-feed w cp d h.0 h.1

pub emit_all-feed :
    (w : ℕ) (os : List Out) (d : Display)
    → AllSendable os
    → feed w (emit_all os) (plain, d) ≡ (plain, obey_all w os d)
unfolding emit_all obey_all feed
emit_all-feed w [] d h = refl
emit_all-feed w (o ∷ os) d h =
    feed-append w (emit o) (emit_all os) (plain, d)
    ∙ ap (feed w (emit_all os)) (emit-feed w o d h.0)
    ∙ emit_all-feed w os (obey w o d) h.1

-- The reset at the end changes nothing that is shown.
pub with_reset-shows :
    (w : ℕ) (u : List ℕ) (d e : Display)
    → feed w u (plain, d) ≡ (plain, e)
    → (feed w (with_reset u) (plain, d)).1.shows ≡ e.shows
unfolding feed feed_byte finish dye_all dye
with_reset-shows w [] d e h = ap (λ (s : Mode × Display). s.1.shows) h
with_reset-shows w (c ∷ u) d e h =
    ap (λ (s : Mode × Display). s.1.shows)
      (feed-append w (c ∷ u) reset_bytes (plain, d) ∙ ap (feed w reset_bytes) h)

place_ops-AllSendable :
    (p : Option (ℕ × ℕ)) (x y : ℕ)
    → x + 1 < ten_to 12
    → y + 1 < ten_to 12
    → AllSendable (place_ops p x y)
unfolding place_ops
place_ops-AllSendable none x y h k = ((h, k), tt)
place_ops-AllSendable (some (cx, cy)) x y h k = elim (Bool-cases ((cx == x) && (cy == y))) [
  | inl e ↦ rw e tt
  | inr e ↦ rw e ((h, k), tt)
]

style_ops-AllSendable :
    (s : Option (ℤ × (ℤ × ℕ))) (b : Cell) → IsPlain b → AllSendable (style_ops s b)
unfolding style_ops
style_ops-AllSendable none b p = ((p.attr_lt, p.fg_small, p.bg_small), tt)
style_ops-AllSendable (some (fg, (bg, attr))) b p =
    elim (Bool-cases (eqb_ℤ b.fg fg && (eqb_ℤ b.bg bg && b.attr == attr))) [
      | inl e ↦ rw e tt
      | inr e ↦ rw e ((p.attr_lt, p.fg_small, p.bg_small), tt)
    ]

module _ (t : Screen) (plains : (k : ℕ) → IsPlain (cell t.back k)) (hw : t.w < ten_to 12)
    (hh : t.h < ten_to 12) where
  flush_cell-AllSendable :
      (x y : ℕ) (s : Flush)
      → x < t.w
      → y < t.h
      → AllSendable s.out
      → AllSendable (flush_cell t x y s).out
  unfolding flush_cell draw_cell
  flush_cell-AllSendable x y s hx hy h =
      let i : ℕ = y * t.w + x in
      let p = plains i in
      elim (Bool-cases (cell_eq (cell t.back i) (cell s.front i))) [
        | inl e ↦ rw e h
        | inr e ↦ rw e (elim (Bool-cases (ch_at t.back i == 0)) [
          | inl z ↦ rw z h
          | inr z ↦ rw z (
              AllSendable-append s.out _ h (
                AllSendable-append (place_ops s.place x y) _
                  (place_ops-AllSendable s.place x y (omega arith) (omega arith))
                  (AllSendable-append (style_ops s.style (cell t.back i)) _
                    (style_ops-AllSendable s.style (cell t.back i) p)
                    (p.printable (ground arith), tt))))
        ])
      ]

  flush_columns-AllSendable :
      (n x y : ℕ) (s : Flush)
      → x + n ≡ t.w
      → y < t.h
      → AllSendable s.out
      → AllSendable (flush_columns t n x y s).out
  unfolding flush_columns
  flush_columns-AllSendable zero x y s e hy h = h
  flush_columns-AllSendable (suc n) x y s e hy h =
      flush_columns-AllSendable n (x + 1) y (flush_cell t x y s) (omega arith) hy
        (flush_cell-AllSendable x y s (omega arith) hy h)

  flush_rows-AllSendable :
      (n y : ℕ) (s : Flush) → y + n ≡ t.h → AllSendable s.out → AllSendable (flush_rows t n y s).out
  unfolding flush_rows
  flush_rows-AllSendable zero y s e h = h
  flush_rows-AllSendable (suc n) y s e h =
      flush_rows-AllSendable n (y + 1) (flush_columns t t.w 0 y s) (omega arith)
        (flush_columns-AllSendable t.w 0 y s (omega arith) (omega arith) h)

  pub flush_all-AllSendable : AllSendable (flush_all t).out
  unfolding flush_all
  flush_all-AllSendable = flush_rows-AllSendable t.h 0 _ (omega arith) tt
