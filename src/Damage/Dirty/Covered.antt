-- ===== src/Damage/Dirty/Covered.antt =====
-- studio/src/rencache.c: every cell that changed is in a dirty rectangle.
use native.Mathlib.Decide.{ℕ_discrete}
use boggart.Base.{
  ℕ, zero, suc, ◌+◌, ◌≤◌, ◌<◌, ◌≡◌, ◌≢◌, refl, ◌∙◌, sym, subst, ◌⊎◌, inl, inr, List, [], ◌∷◌,
  get_or-set_ne, some, Option-cases, arith,
}
use boggart.Base.Int.{ℤ, pos, add_ℤ}
use boggart.Damage.Rects.{Rect, Has, merge_rects-left, merge_rects-right}
use boggart.Damage.Cells.{cells_x, cells_y, cell_idx, hash_initial}
use boggart.Damage.Cells.Touched.{hash_at}
use boggart.Damage.Dirty.{
  merge_first, push_rect, unit_rect, Scan, scan_cell, scan_columns, scan_rows, cells_along,
  scan_cells,
}

-- Some rectangle has the place.
abbrev pub Covered : List Rect → ℤ → ℤ → Type 0
Covered [] p q = ⊥
Covered (r ∷ rs) p q = Has r p q ⊎ Covered rs p q

pub unit_rect-Has : (x y : ℕ) → Has (unit_rect x y) (pos x) (pos y)
unfolding add_ℤ
unit_rect-Has x y = (ground arith, ground arith)

merge_first-Covered :
    (r : Rect) (rs qs : List Rect) (p q : ℤ)
    → merge_first r rs ≡ some qs
    → Has r p q ⊎ Covered rs p q
    → Covered qs p q
unfolding merge_first
merge_first-Covered r [] qs p q e c = cc (e)
merge_first-Covered r (a ∷ rs) qs p q e c = ground (
  arith,
  merge_rects-left a r p q,
  merge_rects-right a r p q,
  merge_first-Covered r rs (tail qs) p q,
)
  where
    tail : List Rect → List Rect
    tail [] = []
    tail (x ∷ xs) = xs

pub push_rect-Covered :
    (r : Rect) (rs : List Rect) (p q : ℤ)
    → Has r p q ⊎ Covered rs p q
    → Covered (push_rect r rs) p q
unfolding push_rect
push_rect-Covered r rs p q c = elim (Option-cases (merge_first r rs)) [
  | inl e ↦ rw (e, push_rect) c
  | inr (qs, e) ↦ rw (e, push_rect) (merge_first-Covered r rs qs p q e c)
]

module _ (cells : List ℕ) where
  scan_cell-keeps :
      (x y : ℕ) (s : Scan) (p q : ℤ)
      → Covered s.rects p q
      → Covered (scan_cell cells x y s).rects p q
  unfolding scan_cell
  scan_cell-keeps x y s p q c = ground (arith, push_rect-Covered (unit_rect x y) s.rects p q)

  scan_columns-keeps :
      (n x y : ℕ) (s : Scan) (p q : ℤ)
      → Covered s.rects p q
      → Covered (scan_columns cells n x y s).rects p q
  unfolding scan_columns
  scan_columns-keeps zero x y s p q c = c
  scan_columns-keeps (suc n) x y s p q c =
      scan_columns-keeps n (x + 1) y (scan_cell cells x y s) p q (scan_cell-keeps x y s p q c)

  scan_rows-keeps :
      (n cols y : ℕ) (s : Scan) (p q : ℤ)
      → Covered s.rects p q
      → Covered (scan_rows cells n cols y s).rects p q
  unfolding scan_rows
  scan_rows-keeps zero cols y s p q c = c
  scan_rows-keeps (suc n) cols y s p q c =
      scan_rows-keeps n cols (y + 1) (scan_columns cells cols 0 y s) p q
        (scan_columns-keeps cols 0 y s p q c)

  -- A cell changes its own entry of the previous grid only.
  pub scan_cell-prev :
      (x y px py : ℕ) (s : Scan)
      → x < cells_x
      → px < cells_x
      → (px ≢ x) ⊎ (py ≢ y)
      → hash_at (scan_cell cells x y s).prev px py ≡ hash_at s.prev px py
  unfolding scan_cell
  scan_cell-prev x y px py s h k ne =
      ground (arith, get_or-set_ne s.prev (cell_idx x y) (cell_idx px py) hash_initial 0)

  pub scan_columns-prev :
      (n x y px py : ℕ) (s : Scan)
      → x + n ≤ cells_x
      → px < cells_x
      → py ≢ y
      → hash_at (scan_columns cells n x y s).prev px py ≡ hash_at s.prev px py
  unfolding scan_columns
  scan_columns-prev zero x y px py s h k ne = refl
  scan_columns-prev (suc n) x y px py s h k ne =
      scan_columns-prev n (x + 1) y px py (scan_cell cells x y s) (omega arith) k ne
      ∙ scan_cell-prev x y px py s (omega arith) k (inr ne)

  pub scan_cell-covers :
      (x y : ℕ) (s : Scan)
      → hash_at cells x y ≢ hash_at s.prev x y
      → Covered (scan_cell cells x y s).rects (pos x) (pos y)
  unfolding scan_cell
  scan_cell-covers x y s ne =
      let c = push_rect-Covered (unit_rect x y) s.rects (pos x) (pos y) (inl (unit_rect-Has x y)) in
      ground arith

  scan_columns-covers :
      (n x y px : ℕ) (s : Scan)
      → x + n ≤ cells_x
      → x ≤ px
      → px < x + n
      → hash_at cells px y ≢ hash_at s.prev px y
      → Covered (scan_columns cells n x y s).rects (pos px) (pos y)
  unfolding scan_columns
  scan_columns-covers zero x y px s h k l ne = absurd (omega arith)
  scan_columns-covers (suc n) x y px s h k l ne = elim (ℕ_discrete px x) [
    | yes e ↦ scan_columns-keeps n (x + 1) y (scan_cell cells x y s) (pos px) (pos y) (
        subst (λ i. Covered (scan_cell cells x y s).rects (pos i) (pos y)) (sym e)
          (scan_cell-covers x y s (subst (λ i. hash_at cells i y ≢ hash_at s.prev i y) e ne)))
    | no ne' ↦
        scan_columns-covers n (x + 1) y px (scan_cell cells x y s) (omega arith) (omega arith)
          (omega arith)
          (λ z. ne (z ∙ scan_cell-prev x y px y s (omega arith) (omega arith) (inl ne')))
  ]

  scan_rows-covers :
      (n cols y px py : ℕ) (s : Scan)
      → cols ≤ cells_x
      → px < cols
      → y ≤ py
      → py < y + n
      → hash_at cells px py ≢ hash_at s.prev px py
      → Covered (scan_rows cells n cols y s).rects (pos px) (pos py)
  unfolding scan_rows
  scan_rows-covers zero cols y px py s h k l m ne = absurd (omega arith)
  scan_rows-covers (suc n) cols y px py s h k l m ne = elim (ℕ_discrete py y) [
    | yes e ↦ scan_rows-keeps n cols (y + 1) (scan_columns cells cols 0 y s) (pos px) (pos py) (
        subst (λ i. Covered (scan_columns cells cols 0 y s).rects (pos px) (pos i)) (sym e)
          (scan_columns-covers cols 0 y px s (omega arith) (omega arith) (omega arith)
            (subst (λ i. hash_at cells px i ≢ hash_at s.prev px i) e ne)))
    | no ne' ↦
        scan_rows-covers n cols (y + 1) px py (scan_columns cells cols 0 y s) h k (omega arith)
          (omega arith)
          (λ z. ne (z ∙ scan_columns-prev cols 0 y px py s (omega arith) (omega arith) ne'))
  ]

pub cells_along-le : (size : ℤ) (bound : ℕ) → cells_along size bound ≤ bound
cells_along-le size bound = ground arith

-- Every cell of the grid that is on the screen and whose hash is not the one of the previous frame is
-- in one of the dirty rectangles that the scan collects.
pub scan_cells-covers :
    (screen : Rect) (cells prev : List ℕ) (px py : ℕ)
    → px < cells_along screen.width cells_x
    → py < cells_along screen.height cells_y
    → hash_at cells px py ≢ hash_at prev px py
    → Covered (scan_cells screen cells prev).rects (pos px) (pos py)
unfolding scan_cells
scan_cells-covers screen cells prev px py h k ne =
    scan_rows-covers cells (cells_along screen.height cells_y) (cells_along screen.width cells_x) 0
      px py (record { rects = []; prev = prev }) (cells_along-le screen.width cells_x) h
      (omega arith) (omega arith) ne
