-- ===== src/Damage/Dirty/Few.antt =====
-- studio/src/rencache.c: how many dirty rectangles a frame can have. Of two neighbours in a row of
-- cells at most one starts a rectangle.
use boggart.Base.{
  ℕ, zero, suc, ◌+◌, ◌*◌, ◌/◌, ◌≤◌, ◌≡◌, ◌≢◌, refl, sym, subst, ◌⊎◌, inl, inr, List, [], ◌∷◌,
  length, true, none, some, Option-cases, arith,
}
use boggart.Base.Int.{pos, add_ℤ-parts}
use boggart.Damage.Rects.{Rect, rects_overlap, Has}
use boggart.Damage.Cells.{cells_x, cells_y}
use boggart.Damage.Dirty.{
  merge_first, push_rect, unit_rect, Scan, scan_cell, scan_columns, scan_rows, cells_along,
  scan_cells,
}
use boggart.Damage.Dirty.Covered.{Covered, unit_rect-Has, cells_along-le}

-- A rectangle that has the cell to the left overlaps.
overlap_next :
    (a : Rect) (x y : ℕ) → Has a (pos x) (pos y) → rects_overlap a (unit_rect (x + 1) y) ≡ true
unfolding rects_overlap
overlap_next a x y h =
    ground (arith, add_ℤ-parts (pos (x + 1)) (pos 1), add_ℤ-parts (pos y) (pos 1))

merge_first-next :
    (x y : ℕ) (rs : List Rect)
    → Covered rs (pos x) (pos y)
    → merge_first (unit_rect (x + 1) y) rs ≢ none
unfolding merge_first
merge_first-next x y [] c e = elim c [ ]
merge_first-next x y (a ∷ rs) c e = ground (arith, overlap_next a x y, merge_first-next x y rs)

length-merge_first :
    (r : Rect) (rs qs : List Rect) → merge_first r rs ≡ some qs → length qs ≡ length rs
unfolding merge_first
length-merge_first r [] qs e = cc (e)
length-merge_first r (a ∷ rs) qs e = elim (Option-cases (merge_first r rs)) [
  | inl h ↦ ground (arith)
  | inr (ps, h) ↦ ground (arith, length-merge_first r rs ps h)
]

-- After the first `x` cells of row `y`, with `c` rectangles before the row
abbrev Spaced : ℕ → ℕ → ℕ → List Rect → Type 0
Spaced c x y rs =
    (length rs * 2 ≤ c * 2 + x)
    ⊎ ((length rs * 2 ≤ c * 2 + x + 1) × ((i : ℕ) × (i + 1 ≡ x) × Covered rs (pos i) (pos y)))

push_rect-Spaced :
    (c x y : ℕ) (rs : List Rect)
    → Spaced c x y rs
    → Spaced c (x + 1) y (push_rect (unit_rect x y) rs)
unfolding push_rect
push_rect-Spaced c x y rs s = elim (Option-cases (merge_first (unit_rect x y) rs)) [
  | inr (qs, h) ↦
      rw (h, push_rect) (inl (ground (arith, s, length-merge_first (unit_rect x y) rs qs h)))
  | inl h ↦ rw (h, push_rect) (inr (fresh h s, (x, refl, inl (unit_rect-Has x y))))
]
  where
    fresh :
        merge_first (unit_rect x y) rs ≡ none
        → Spaced c x y rs
        → suc (length rs) * 2 ≤ c * 2 + (x + 1) + 1
    fresh h (inl k) = omega arith
    fresh h (inr (k, (i, e, cov))) =
        absurd (
          merge_first-next i y rs cov
            (subst (λ z. merge_first (unit_rect z y) rs ≡ none) (sym e) h))

module _ (cells : List ℕ) where
  scan_cell-Spaced :
      (c x y : ℕ) (s : Scan)
      → Spaced c x y s.rects
      → Spaced c (x + 1) y (scan_cell cells x y s).rects
  unfolding scan_cell
  scan_cell-Spaced c x y s h = ground (arith, push_rect-Spaced c x y s.rects)

  scan_columns-Spaced :
      (c n x y : ℕ) (s : Scan)
      → Spaced c x y s.rects
      → length (scan_columns cells n x y s).rects * 2 ≤ c * 2 + x + n + 1
  unfolding scan_columns
  scan_columns-Spaced c zero x y s h = ground arith
  scan_columns-Spaced c (suc n) x y s h = omega (
    arith,
    scan_columns-Spaced c n (x + 1) y (scan_cell cells x y s) (scan_cell-Spaced c x y s h),
  )

  scan_rows-few :
      (n cols y : ℕ) (s : Scan)
      → cols ≤ cells_x
      → length (scan_rows cells n cols y s).rects ≤ length s.rects + n * (cells_x / 2)
  unfolding scan_rows
  scan_rows-few zero cols y s h = omega arith
  scan_rows-few (suc n) cols y s h = omega (
    arith,
    scan_rows-few n cols (y + 1) (scan_columns cells cols 0 y s) h,
    scan_columns-Spaced (length s.rects) cols 0 y s (inl (omega arith)),
  )

-- The dirty rectangles of a frame fit in `rect_buf`, which has room for half as many as there are
-- cells.
pub scan_cells-few :
    (screen : Rect) (cells prev : List ℕ)
    → length (scan_cells screen cells prev).rects ≤ cells_x * cells_y / 2
unfolding scan_cells
scan_cells-few screen cells prev = omega (
  arith,
  scan_rows-few cells (cells_along screen.height cells_y) (cells_along screen.width cells_x) 0
      (record { rects = []; prev = prev }) (cells_along-le screen.width cells_x),
  cells_along-le screen.height cells_y,
)
