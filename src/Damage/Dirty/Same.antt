-- ===== src/Damage/Dirty/Same.antt =====
-- studio/src/rencache.c: a scan resets what it reads, and finds nothing where nothing changed.
use native.Mathlib.Decide.{ℕ_discrete}
use boggart.Base.{
  ℕ, zero, suc, ◌+◌, ◌*◌, ◌≤◌, ◌<◌, ◌≡◌, refl, ◌∙◌, sym, subst, inl, List, [], length, length-set,
  get_or-set_self, arith,
}
use boggart.Damage.Rects.{Rect}
use boggart.Damage.Cells.{cells_x, cells_y, cell_idx, hash_initial}
use boggart.Damage.Cells.Touched.{hash_at}
use boggart.Damage.Dirty.{Scan, scan_cell, scan_columns, scan_rows, cells_along, scan_cells}
use boggart.Damage.Dirty.Covered.{scan_cell-prev, scan_columns-prev, cells_along-le}

module _ (cells : List ℕ) where
  length-scan_cell : (x y : ℕ) (s : Scan) → length (scan_cell cells x y s).prev ≡ length s.prev
  unfolding scan_cell
  length-scan_cell x y s = length-set s.prev (cell_idx x y) hash_initial

  length-scan_columns :
      (n x y : ℕ) (s : Scan) → length (scan_columns cells n x y s).prev ≡ length s.prev
  unfolding scan_columns
  length-scan_columns zero x y s = refl
  length-scan_columns (suc n) x y s =
      length-scan_columns n (x + 1) y (scan_cell cells x y s) ∙ length-scan_cell x y s

  length-scan_rows :
      (n cols y : ℕ) (s : Scan) → length (scan_rows cells n cols y s).prev ≡ length s.prev
  unfolding scan_rows
  length-scan_rows zero cols y s = refl
  length-scan_rows (suc n) cols y s =
      length-scan_rows n cols (y + 1) (scan_columns cells cols 0 y s)
      ∙ length-scan_columns cols 0 y s

  scan_cell-resets :
      (x y : ℕ) (s : Scan)
      → cell_idx x y < length s.prev
      → hash_at (scan_cell cells x y s).prev x y ≡ hash_initial
  unfolding scan_cell
  scan_cell-resets x y s h = get_or-set_self s.prev (cell_idx x y) hash_initial 0 h

  -- What is behind the scan stays.
  scan_columns-behind :
      (n x y px : ℕ) (s : Scan)
      → x + n ≤ cells_x
      → px < x
      → hash_at (scan_columns cells n x y s).prev px y ≡ hash_at s.prev px y
  unfolding scan_columns
  scan_columns-behind zero x y px s h k = refl
  scan_columns-behind (suc n) x y px s h k =
      scan_columns-behind n (x + 1) y px (scan_cell cells x y s) (omega arith) (omega arith)
      ∙ scan_cell-prev cells x y px y s (omega arith) (omega arith) (inl (omega arith))

  scan_rows-behind :
      (n cols y px py : ℕ) (s : Scan)
      → cols ≤ cells_x
      → px < cells_x
      → py < y
      → hash_at (scan_rows cells n cols y s).prev px py ≡ hash_at s.prev px py
  unfolding scan_rows
  scan_rows-behind zero cols y px py s h k l = refl
  scan_rows-behind (suc n) cols y px py s h k l =
      scan_rows-behind n cols (y + 1) px py (scan_columns cells cols 0 y s) h k (omega arith)
      ∙ scan_columns-prev cells cols 0 y px py s (omega arith) k (omega arith)

  scan_columns-resets :
      (n x y px : ℕ) (s : Scan)
      → x + n ≤ cells_x
      → x ≤ px
      → px < x + n
      → cells_x * y + cells_x ≤ length s.prev
      → hash_at (scan_columns cells n x y s).prev px y ≡ hash_initial
  unfolding scan_columns
  scan_columns-resets zero x y px s h k l m = absurd (omega arith)
  scan_columns-resets (suc n) x y px s h k l m = elim (ℕ_discrete px x) [
    | yes e ↦
        scan_columns-behind n (x + 1) y px (scan_cell cells x y s) (omega arith) (omega arith)
        ∙ subst (λ i. hash_at (scan_cell cells x y s).prev i y ≡ hash_initial) (sym e)
            (scan_cell-resets x y s (omega arith))
    | no ne ↦
        scan_columns-resets n (x + 1) y px (scan_cell cells x y s) (omega arith) (omega arith)
          (omega arith) (omega (arith, length-scan_cell x y s))
  ]

  scan_rows-resets :
      (n cols y px py : ℕ) (s : Scan)
      → cols ≤ cells_x
      → px < cols
      → y ≤ py
      → py < y + n
      → cells_x * (y + n) ≤ length s.prev
      → hash_at (scan_rows cells n cols y s).prev px py ≡ hash_initial
  unfolding scan_rows
  scan_rows-resets zero cols y px py s h k l m o = absurd (omega arith)
  scan_rows-resets (suc n) cols y px py s h k l m o = elim (ℕ_discrete py y) [
    | yes e ↦
        scan_rows-behind n cols (y + 1) px py (scan_columns cells cols 0 y s) h (omega arith)
          (omega arith)
        ∙ subst (λ i. hash_at (scan_columns cells cols 0 y s).prev px i ≡ hash_initial) (sym e)
            (scan_columns-resets cols 0 y px s (omega arith) (omega arith) (omega arith)
              (omega arith))
    | no ne ↦
        scan_rows-resets n cols (y + 1) px py (scan_columns cells cols 0 y s) h k (omega arith)
          (omega arith) (omega (arith, length-scan_columns cols 0 y s))
  ]

  scan_cell-same :
      (x y : ℕ) (s : Scan)
      → hash_at cells x y ≡ hash_at s.prev x y
      → (scan_cell cells x y s).rects ≡ s.rects
  unfolding scan_cell
  scan_cell-same x y s e = ground arith

  scan_columns-same :
      (n x y : ℕ) (s : Scan)
      → x + n ≤ cells_x
      → ((px : ℕ) → x ≤ px → px < x + n → hash_at cells px y ≡ hash_at s.prev px y)
      → (scan_columns cells n x y s).rects ≡ s.rects
  unfolding scan_columns
  scan_columns-same zero x y s h e = refl
  scan_columns-same (suc n) x y s h e =
      scan_columns-same n (x + 1) y (scan_cell cells x y s) (omega arith) (λ px k l.
        e px (omega arith) (omega arith)
        ∙ sym (scan_cell-prev cells x y px y s (omega arith) (omega arith) (inl (omega arith))))
      ∙ scan_cell-same x y s (e x (omega arith) (omega arith))

  scan_rows-same :
      (n cols y : ℕ) (s : Scan)
      → cols ≤ cells_x
      → ((px py : ℕ) → px < cols → y ≤ py → py < y + n → hash_at cells px py ≡ hash_at s.prev px py)
      → (scan_rows cells n cols y s).rects ≡ s.rects
  unfolding scan_rows
  scan_rows-same zero cols y s h e = refl
  scan_rows-same (suc n) cols y s h e =
      scan_rows-same n cols (y + 1) (scan_columns cells cols 0 y s) h (λ px py k l m.
        e px py k (omega arith) (omega arith)
        ∙ sym (scan_columns-prev cells cols 0 y px py s (omega arith) (omega arith) (omega arith)))
      ∙ scan_columns-same cols 0 y s (omega arith)
          (λ px k l. e px y (omega arith) (omega arith) (omega arith))

module _ (screen : Rect) (cells prev : List ℕ) where
  pub length-scan_cells : length (scan_cells screen cells prev).prev ≡ length prev
  unfolding scan_cells
  length-scan_cells =
      length-scan_rows cells (cells_along screen.height cells_y) (cells_along screen.width cells_x)
        0 (record { rects = []; prev = prev })

  pub scan_cells-resets :
      (px py : ℕ)
      → length prev ≡ cells_x * cells_y
      → px < cells_along screen.width cells_x
      → py < cells_along screen.height cells_y
      → hash_at (scan_cells screen cells prev).prev px py ≡ hash_initial
  unfolding scan_cells
  scan_cells-resets px py l h k =
      let rows = cells_along screen.height cells_y in
      let few = cells_along-le screen.height cells_y in
      scan_rows-resets cells rows (cells_along screen.width cells_x) 0 px py
        (record { rects = []; prev = prev }) (cells_along-le screen.width cells_x) h (omega arith)
        (omega (arith, k)) (omega (arith, few, l))

  pub scan_cells-same :
      ((px py : ℕ)
        → px < cells_along screen.width cells_x
        → py < cells_along screen.height cells_y
        → hash_at cells px py ≡ hash_at prev px py)
      → (scan_cells screen cells prev).rects ≡ []
  unfolding scan_cells
  scan_cells-same e =
      scan_rows-same cells (cells_along screen.height cells_y) (cells_along screen.width cells_x) 0
        (record { rects = []; prev = prev }) (cells_along-le screen.width cells_x)
        (λ px py k l m. e px py k (omega (arith, m)))
