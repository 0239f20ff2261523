-- ===== src/Term/Grid.antt =====
-- src/termctl.c: the cells, the double-buffered grid and painting on the back buffer.
-- A null buffer is the empty list; `alloc_grid` never makes an empty one. Allocations succeed.
pub mod Paint
pub mod Pairs
pub mod Sound
pub mod Orphan
use boggart.Base.{
  ℕ, zero, suc, ◌+◌, ◌-◌, ◌*◌, ◌%◌, ◌^◌, ltb, leb, ◌==◌, ◌&&◌, ◌||◌, Bool, true, false, List, [],
  ◌∷◌, ◌++◌, get_or, set, replicate, length, if◌then◌else◌,
}
use boggart.Base.Int.{ℤ, pos, negsuc, ltb_ℤ, eqb_ℤ}
use boggart.Term.Utf8.{utf8_len, utf8_decode, utf8_encode}
use boggart.Term.Width.{tc_wcwidth}

-- `tc_cell`
pub record Cell : Type 0 where
  pub ch : ℕ
  pub fg : ℤ
  pub bg : ℤ
  pub attr : ℕ

-- `cell_eq`
unfoldable pub cell_eq : Cell → Cell → Bool
cell_eq a b = a.ch == b.ch && (eqb_ℤ a.fg b.fg && (eqb_ℤ a.bg b.bg && a.attr == b.attr))

-- The fields of `T` that painting reads and writes.
pub record Screen : Type 0 where
  pub w : ℕ
  pub h : ℕ
  pub front : List Cell
  pub back : List Cell

-- `blank_cell`
abbrev pub blank_cell : Cell
blank_cell = record { ch = b' '; fg = negsuc 0; bg = negsuc 0; attr = 0 }

-- What `alloc_grid` fills the front buffer with.
abbrev pub sentinel : Cell
sentinel = record { ch = 0xFFFFFFFF; fg = negsuc 1; bg = negsuc 1; attr = 0xFF }

abbrev pub at_least_one : ℕ → ℕ
at_least_one n = if ltb n 1 then 1 else n

-- `alloc_grid`, on the sizes that `query_size` gives (never negative).
unfoldable pub alloc_grid : ℕ → ℕ → Screen
alloc_grid w h =
    let w₁ = at_least_one w in
    let h₁ = at_least_one h in
    record {
      w = w₁;
      h = h₁;
      front = replicate (w₁ * h₁) sentinel;
      back = replicate (w₁ * h₁) blank_cell;
    }

-- `update_size`, with the size of the terminal
unfoldable pub update_size : ℕ → ℕ → Screen → Screen
unfolding alloc_grid
update_size w h t = if (w == t.w) && (h == t.h) then t else alloc_grid w h

abbrev pub is_null : List Cell → Bool
is_null [] = true
is_null (c ∷ cs) = false

-- `tc_clear`
unfoldable pub tc_clear : Screen → Screen
tc_clear t = if is_null t.back then t else record t { back = replicate (t.w * t.h) blank_cell }

-- Colours outside -1..255 are the default.
unfoldable pub clamp_colour : ℤ → ℤ
clamp_colour c = if ltb_ℤ c (negsuc 0) || ltb_ℤ (pos 255) c then negsuc 0 else c

-- The stores of `tc_set` at index `idx` in column `x` of a row of `w` cells. First the left half of
-- a glyph whose right half is overwritten is blanked,
unfoldable pub clear_left : ℕ → ℕ → List Cell → List Cell
clear_left x idx back =
    if (get_or back idx blank_cell).ch == 0 && ltb 0 x then set back (idx - 1) blank_cell else back

-- then the right half of a glyph whose left half is overwritten,
unfoldable pub clear_right : ℕ → ℕ → ℕ → List Cell → List Cell
clear_right w x idx back =
    if ltb (x + 1) w
      && ((get_or back (idx + 1) blank_cell).ch == 0
          && tc_wcwidth (get_or back idx blank_cell).ch == 2)
    then set back (idx + 1) blank_cell
    else back

-- and the cell is stored, with its right half if it has one and there is room.
unfoldable pub place : ℕ → ℕ → ℕ → ℕ → Cell → List Cell → List Cell
place w x idx width c back =
    let b = set back idx c in
    if width == 2
    then (if ltb (x + 1) w
        then set b (idx + 1) (record c { ch = 0 })
        else set b idx (record c { ch = b' ' }))
    else b

unfoldable pub paint : ℕ → ℕ → ℕ → ℕ → Cell → List Cell → List Cell
unfolding clear_left clear_right place
paint w x idx width c back = place w x idx width c (clear_right w x idx (clear_left x idx back))

-- `if (w < 1) w = 1;`
abbrev pub cell_width : ℕ → ℕ
cell_width cp = at_least_one (tc_wcwidth cp)

-- `tc_set`. `attr` is the bit pattern of the `int`.
unfoldable pub tc_set : ℤ → ℤ → ℕ → ℤ → ℤ → ℕ → Screen → Screen
unfolding clamp_colour paint
tc_set (negsuc x) y cp fg bg attr t = t
tc_set (pos x) (negsuc y) cp fg bg attr t = t
tc_set (pos x) (pos y) cp fg bg attr t =
    if is_null t.back || (leb t.w x || leb t.h y)
    then t
    else let c : Cell = record {
      ch = cp;
      fg = clamp_colour fg;
      bg = clamp_colour bg;
      attr = attr % 2 ^ 8;
    } in
      record t { back = paint t.w x (y * t.w + x) (cell_width cp) c t.back }
