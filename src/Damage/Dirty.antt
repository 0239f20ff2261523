-- ===== src/Damage/Dirty.antt =====
-- studio/src/rencache.c: the dirty rectangles of a frame. `rect_buf` is the list of its rectangles, the
-- last one first, as `push_rect` looks through it.
pub mod Covered
pub mod Few
pub mod Same
use boggart.Base.{
  ℕ, zero, suc, ◌+◌, ◌*◌, ◌/◌, List, [], ◌∷◌, get_or, set, ltb, ◌==◌, Bool, Option, none, some,
  if◌then◌else◌,
}
use boggart.Base.Int.{ℤ, pos, negsuc, pos_part, sub_ℕ}
use boggart.Damage.Rects.{Rect, rects_overlap, merge_rects, intersect_rects}
use boggart.Damage.Cells.{cells_x, cells_y, cell_size, hash_initial, cell_idx}

-- The loop of `push_rect`: the first rectangle that overlaps takes `r` in.
unfoldable pub merge_first : Rect → List Rect → Option (List Rect)
merge_first r [] = none
merge_first r (a ∷ rs) =
    let later = merge_first r rs in
    if rects_overlap a r
    then some (merge_rects a r ∷ rs)
    else elim later [ none ↦ none | some qs ↦ some (a ∷ qs) ]

unfoldable pub push_rect : Rect → List Rect → List Rect
unfolding merge_first
push_rect r rs = elim (merge_first r rs) [ none ↦ r ∷ rs | some qs ↦ qs ]

-- `(RenRect) { x, y, 1, 1 }`
abbrev pub unit_rect : ℕ → ℕ → Rect
unit_rect x y = record { x = pos x; y = pos y; width = pos 1; height = pos 1 }

-- What the scan of the grid changes.
pub record Scan : Type 0 where
  pub rects : List Rect
  pub prev : List ℕ

-- The body of the loops
unfoldable pub scan_cell : List ℕ → ℕ → ℕ → Scan → Scan
unfolding push_rect
scan_cell cells x y s =
    let idx = cell_idx x y in
    record {
      rects =
          if get_or cells idx 0 == get_or s.prev idx 0
          then s.rects
          else push_rect (unit_rect x y) s.rects;
      prev = set s.prev idx hash_initial;
    }

unfoldable pub scan_columns : List ℕ → ℕ → ℕ → ℕ → Scan → Scan
unfolding scan_cell
scan_columns cells zero x y s = s
scan_columns cells (suc n) x y s = scan_columns cells n (x + 1) y (scan_cell cells x y s)

unfoldable pub scan_rows : List ℕ → ℕ → ℕ → ℕ → Scan → Scan
unfolding scan_columns
scan_rows cells zero cols y s = s
scan_rows cells (suc n) cols y s = scan_rows cells n cols (y + 1) (scan_columns cells cols 0 y s)

-- `max_x` and `max_y`; the size of the screen is never negative.
abbrev pub cells_along : ℤ → ℕ → ℕ
cells_along size bound = let n = pos_part size / cell_size + 1 in if ltb bound n then bound else n

unfoldable pub scan_cells : Rect → List ℕ → List ℕ → Scan
unfolding scan_rows
scan_cells screen cells prev =
    scan_rows cells (cells_along screen.height cells_y) (cells_along screen.width cells_x) 0
      (record { rects = []; prev = prev })

-- `r->x *= CELL_SIZE`
unfoldable pub scale : ℤ → ℤ
scale (pos n) = pos (n * cell_size)
scale (negsuc n) = sub_ℕ 0 (suc n * cell_size)

-- A rectangle of cells as pixels, cut to the screen
unfoldable pub to_pixels : Rect → Rect → Rect
unfolding scale
to_pixels screen r =
    intersect_rects
      (record { x = scale r.x; y = scale r.y; width = scale r.width; height = scale r.height })
      screen
