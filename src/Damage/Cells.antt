-- ===== src/Damage/Cells.antt =====
-- studio/src/rencache.c: the grid of hashes. `unsigned` has 32 bits, and its bytes are in memory from
-- the lowest on.
pub mod Touched
use boggart.Base.{
  ℕ, zero, suc, ◌+◌, ◌-◌, ◌*◌, ◌/◌, ◌%◌, ◌^◌, bit_xor, List, [], ◌∷◌, get_or, set, ltb, leb, ◌==◌,
  if◌then◌else◌,
}
use boggart.Base.Int.{ℤ, pos, negsuc, pos_part, add_ℤ, sub_ℕ}
use boggart.Damage.Rects.{Rect}

-- CELLS_X, CELLS_Y and CELL_SIZE
abbrev pub cells_x : ℕ
cells_x = 80

abbrev pub cells_y : ℕ
cells_y = 50

abbrev pub cell_size : ℕ
cell_size = 96

-- HASH_INITIAL
abbrev pub hash_initial : ℕ
hash_initial = 2166136261

unfoldable pub hash : ℕ → List ℕ → ℕ
hash h [] = h
hash h (b ∷ bs) = hash (bit_xor h b * 16777619 % 2 ^ 32) bs

abbrev pub word_bytes : ℕ → List ℕ
word_bytes h = h % 256 ∷ h / 2 ^ 8 % 256 ∷ h / 2 ^ 16 % 256 ∷ h / 2 ^ 24 % 256 ∷ []

abbrev pub cell_idx : ℕ → ℕ → ℕ
cell_idx x y = x + y * cells_x

-- Division of an `int` by CELL_SIZE rounds towards 0.
unfoldable pub cell_of : ℤ → ℤ
cell_of (pos n) = pos (n / cell_size)
cell_of (negsuc n) = sub_ℕ 0 (suc n / cell_size)

-- The rounds of `for (i = first; i <= last; i++)`, with `last` cut off at `bound - 1`
abbrev pub rounds : ℕ → ℤ → ℕ → ℕ
rounds first (pos last) bound = (if ltb (bound - 1) last then bound - 1 else last) + 1 - first
rounds first (negsuc last) bound = 0

module _ (h : ℕ) where
  -- `hash(&cells[idx], &h, sizeof(h))` along a row
  unfoldable pub touch_columns : ℕ → ℕ → ℕ → List ℕ → List ℕ
  unfolding hash
  touch_columns zero x y cells = cells
  touch_columns (suc n) x y cells =
      touch_columns n (x + 1) y
        (set cells (cell_idx x y) (hash (get_or cells (cell_idx x y) 0) (word_bytes h)))

  unfoldable pub touch_rows : ℕ → ℕ → ℕ → ℕ → List ℕ → List ℕ
  unfolding touch_columns
  touch_rows zero cols x y cells = cells
  touch_rows (suc n) cols x y cells = touch_rows n cols x (y + 1) (touch_columns cols x y cells)

-- `update_overlapping_cells`
unfoldable pub update_overlapping_cells : Rect → ℕ → List ℕ → List ℕ
unfolding touch_rows cell_of
update_overlapping_cells r h cells =
    let x₁ = pos_part (cell_of r.x) in
    let y₁ = pos_part (cell_of r.y) in
    let nx = rounds x₁ (cell_of (add_ℤ r.x r.width)) cells_x in
    let ny = rounds y₁ (cell_of (add_ℤ r.y r.height)) cells_y in touch_rows h ny nx x₁ y₁ cells
