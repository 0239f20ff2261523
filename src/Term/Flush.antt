-- ===== src/Term/Flush.antt =====
-- src/termctl.c: `tc_flush` and the output buffer. Output is never dropped (allocations succeed); what
-- `raw_write` writes is the list of bytes.
pub mod Display
pub mod Step
pub mod Cells
pub mod Terminal
pub mod Reading
pub mod Rendition
pub mod Sends
pub mod Shown
pub mod Again
pub mod Blank
use boggart.Base.{
  ℕ, zero, suc, ◌+◌, ◌-◌, ◌*◌, ◌/◌, ◌%◌, ltb, leb, ◌==◌, ◌&&◌, ◌||◌, bit_and, Bool, true, false,
  List, [], ◌∷◌, ◌++◌, get_or, set, Option, none, some, if◌then◌else◌,
}
use boggart.Base.Int.{ℤ, pos, negsuc, eqb_ℤ}
use boggart.Term.Utf8.{utf8_encode}
use boggart.Term.Grid.{Cell, Screen, blank_cell, cell_eq, is_null, cell_width}

-- One piece of output: `ob_cup`, `ob_sgr`, or the bytes of a character.
pub data Out : Type 0 where
  cup : ℕ → ℕ → Out
  sgr : ℤ → ℤ → ℕ → Out
  glyph : ℕ → Out

-- The digits of `ob_uint`; an `unsigned` has at most ten.
unfoldable pub uint_digits : ℕ → ℕ → List ℕ
uint_digits zero v = []
uint_digits (suc fuel) v =
    let more = uint_digits fuel (v / 10) in
    (if v / 10 == 0 then [] else more) ++ ((b'0' + v % 10) ∷ [])

unfoldable pub ob_uint : ℕ → List ℕ
unfolding uint_digits
ob_uint v = uint_digits 12 v

abbrev pub ob_flag : ℕ → ℕ → ℕ → List ℕ
ob_flag attr bit digit = if bit_and attr bit == 0 then [] else b';' ∷ digit ∷ []

-- A colour, after `3` or `4`
unfoldable pub ob_colour : ℕ → ℤ → List ℕ
unfolding ob_uint
ob_colour ground (pos c) = b';' ∷ ground ∷ b'8' ∷ b';' ∷ b'5' ∷ b';' ∷ ob_uint c
ob_colour ground (negsuc c) = b';' ∷ ground ∷ b'9' ∷ []

unfoldable pub ob_sgr : ℤ → ℤ → ℕ → List ℕ
unfolding ob_colour
ob_sgr fg bg attr =
    0x1b
    ∷ b'['
    ∷ b'0'
    ∷ (ob_flag attr 1 b'1'
        ++ (ob_flag attr 2 b'2'
            ++ (ob_flag attr 4 b'4'
                ++ (ob_flag attr 8 b'7'
                    ++ (ob_colour b'3' fg ++ (ob_colour b'4' bg ++ (b'm' ∷ [])))))))

unfoldable pub ob_cup : ℕ → ℕ → List ℕ
unfolding ob_uint
ob_cup x y = 0x1b ∷ b'[' ∷ (ob_uint (y + 1) ++ (b';' ∷ (ob_uint (x + 1) ++ (b'H' ∷ []))))

unfoldable pub emit : Out → List ℕ
unfolding ob_cup ob_sgr
emit (cup x y) = ob_cup x y
emit (sgr fg bg attr) = ob_sgr fg bg attr
emit (glyph cp) = utf8_encode cp

unfoldable pub emit_all : List Out → List ℕ
unfolding emit
emit_all [] = []
emit_all (o ∷ os) = emit o ++ emit_all os

-- The locals of `tc_flush`, the front buffer, and what is in the output buffer. `cx` and `cy` are
-- unknown at first, and so is the style.
pub record Flush : Type 0 where
  pub place : Option (ℕ × ℕ)
  pub style : Option (ℤ × (ℤ × ℕ))
  pub front : List Cell
  pub out : List Out

-- `if (cx != x || cy != y)`
unfoldable pub place_ops : Option (ℕ × ℕ) → ℕ → ℕ → List Out
place_ops none x y = cup x y ∷ []
place_ops (some (cx, cy)) x y = if (cx == x) && (cy == y) then [] else cup x y ∷ []

-- `if (!have_style || ...)`
unfoldable pub style_ops : Option (ℤ × (ℤ × ℕ)) → Cell → List Out
style_ops none b = sgr b.fg b.bg b.attr ∷ []
style_ops (some (fg, (bg, attr))) b =
    if eqb_ℤ b.fg fg && (eqb_ℤ b.bg bg && b.attr == attr) then [] else sgr b.fg b.bg b.attr ∷ []

-- A cell is drawn.
unfoldable pub draw_cell : ℕ → ℕ → ℕ → Cell → Flush → Flush
unfolding place_ops style_ops
draw_cell idx x y b s = record {
  place = some (x + cell_width b.ch, y);
  style = some (b.fg, (b.bg, b.attr));
  front = set s.front idx b;
  out = s.out ++ (place_ops s.place x y ++ (style_ops s.style b ++ (glyph b.ch ∷ [])));
}

-- The body of the loops
unfoldable pub flush_cell : Screen → ℕ → ℕ → Flush → Flush
unfolding draw_cell
flush_cell t x y s =
    let idx = y * t.w + x in
    let b = get_or t.back idx blank_cell in
    if cell_eq b (get_or s.front idx blank_cell)
    then s
    else if b.ch == 0
    then record s { front = set s.front idx b }
    else draw_cell idx x y b s

-- The `n` columns from `x` on, and the `n` rows from `y` on
unfoldable pub flush_columns : Screen → ℕ → ℕ → ℕ → Flush → Flush
unfolding flush_cell
flush_columns t zero x y s = s
flush_columns t (suc n) x y s = flush_columns t n (x + 1) y (flush_cell t x y s)

unfoldable pub flush_rows : Screen → ℕ → ℕ → Flush → Flush
unfolding flush_columns
flush_rows t zero y s = s
flush_rows t (suc n) y s = flush_rows t n (y + 1) (flush_columns t t.w 0 y s)

unfoldable pub flush_all : Screen → Flush
unfolding flush_rows
flush_all t = flush_rows t t.h 0 (record { place = none; style = none; front = t.front; out = [] })

-- SEQ_SGR_RST
abbrev pub reset_bytes : List ℕ
reset_bytes = 0x1b ∷ b'[' ∷ b'0' ∷ b'm' ∷ []

abbrev pub with_reset : List ℕ → List ℕ
with_reset [] = []
with_reset (c ∷ s) = (c ∷ s) ++ reset_bytes

-- `tc_flush`; the value is the screen and what is written.
unfoldable pub tc_flush : Screen → Screen × List ℕ
unfolding flush_all emit_all
tc_flush t =
    if is_null t.back || is_null t.front
    then (t, [])
    else let s = flush_all t in (record t { front = s.front }, with_reset (emit_all s.out))
