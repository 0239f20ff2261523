-- ===== src/Damage/Cells/Touched.antt =====
-- studio/src/rencache.c: which cells `update_overlapping_cells` touches.
use boggart.Base.{
  ℕ, zero, suc, ◌+◌, ◌*◌, ◌/◌, ◌≤◌, ◌<◌, ◌≡◌, ◌≢◌, refl, ◌∙◌, sym, ap, List, get_or, set, length,
  length-set, get_or-set_self, get_or-set_ne, ltb, leb, ◌==◌, ◌&&◌, if◌then◌else◌, arith,
}
use boggart.Base.Int.{ℤ, pos, negsuc, pos_part, add_ℤ, Le, Lt}
use boggart.Damage.Rects.{Rect, Has}
use boggart.Damage.Cells.{
  cells_x, cells_y, cell_size, hash, word_bytes, cell_idx, cell_of, rounds, touch_columns,
  touch_rows, update_overlapping_cells,
}

abbrev pub hash_at : List ℕ → ℕ → ℕ → ℕ
hash_at cells x y = get_or cells (cell_idx x y) 0

module _ (h : ℕ) where
  length-touch_columns :
      (n x y : ℕ) (cells : List ℕ) → length (touch_columns h n x y cells) ≡ length cells
  unfolding touch_columns
  length-touch_columns zero x y cells = refl
  length-touch_columns (suc n) x y cells =
      length-touch_columns n (x + 1) y _ ∙ length-set cells (cell_idx x y) _

  touch_columns-at :
      (n x y : ℕ) (cells : List ℕ) (px py : ℕ)
      → length cells ≡ cells_x * cells_y
      → (n ≢ 0 → x + n ≤ cells_x)
      → y < cells_y
      → px < cells_x
      → hash_at (touch_columns h n x y cells) px py ≡ (
          if (py == y) && (leb x px && ltb px (x + n))
          then hash (hash_at cells px py) (word_bytes h)
          else hash_at cells px py)
  unfolding touch_columns
  touch_columns-at zero x y cells px py l hx hy hp = ground arith
  touch_columns-at (suc n) x y cells px py l hx hy hp =
      let v = hash (hash_at cells x y) (word_bytes h) in
      touch_columns-at n (x + 1) y (set cells (cell_idx x y) v) px py
        (length-set cells (cell_idx x y) v ∙ l) (λ z. omega (arith, hx)) hy hp
      ∙ ground (
        arith,
        get_or-set_self cells (cell_idx x y) v 0,
        get_or-set_ne cells (cell_idx x y) (cell_idx px py) v 0,
      )

  length-touch_rows :
      (n cols x y : ℕ) (cells : List ℕ) → length (touch_rows h n cols x y cells) ≡ length cells
  unfolding touch_rows
  length-touch_rows zero cols x y cells = refl
  length-touch_rows (suc n) cols x y cells =
      length-touch_rows n cols x (y + 1) _ ∙ length-touch_columns cols x y cells

  touch_rows-at :
      (n cols x y : ℕ) (cells : List ℕ) (px py : ℕ)
      → length cells ≡ cells_x * cells_y
      → (cols ≢ 0 → x + cols ≤ cells_x)
      → (n ≢ 0 → y + n ≤ cells_y)
      → px < cells_x
      → hash_at (touch_rows h n cols x y cells) px py ≡ (
          if (leb y py && ltb py (y + n)) && (leb x px && ltb px (x + cols))
          then hash (hash_at cells px py) (word_bytes h)
          else hash_at cells px py)
  unfolding touch_rows
  touch_rows-at zero cols x y cells px py l hx hy hp = ground arith
  touch_rows-at (suc n) cols x y cells px py l hx hy hp =
      touch_rows-at n cols x (y + 1) (touch_columns h cols x y cells) px py
        (length-touch_columns cols x y cells ∙ l) hx (λ z. omega (arith, hy)) hp
      ∙ ground (arith, touch_columns-at cols x y cells px py l hx)

-- Along one side: the rounds reach the cell of a pixel, and stay in the grid.
rounds_reach :
    (a e : ℤ) (p bound : ℕ)
    → Le a (pos p)
    → Lt (pos p) e
    → p / cell_size < bound
    → (pos_part (cell_of a) ≤ p / cell_size)
      × (p / cell_size < pos_part (cell_of a) + rounds (pos_part (cell_of a)) (cell_of e) bound)
unfolding cell_of
rounds_reach (pos a) (pos e) p bound h k l = ground arith
rounds_reach (negsuc a) (pos e) p bound h k l = ground arith
rounds_reach (pos a) (negsuc e) p bound h k l = absurd (omega arith)
rounds_reach (negsuc a) (negsuc e) p bound h k l = absurd (omega arith)

rounds_inside :
    (first : ℕ) (last : ℤ) (bound : ℕ)
    → 0 < bound
    → rounds first last bound ≢ 0
    → first + rounds first last bound ≤ bound
rounds_inside first (pos last) bound h k = ground arith
rounds_inside first (negsuc last) bound h k = ground arith

module _ (r : Rect) (h : ℕ) where
  pub length-update_overlapping_cells :
      (cells : List ℕ) → length (update_overlapping_cells r h cells) ≡ length cells
  unfolding update_overlapping_cells
  length-update_overlapping_cells cells = search length-touch_rows

  -- What a cell becomes depends on that cell only.
  pub update_overlapping_cells-agree :
      (cells others : List ℕ) (px py : ℕ)
      → length cells ≡ cells_x * cells_y
      → length others ≡ cells_x * cells_y
      → px < cells_x
      → hash_at cells px py ≡ hash_at others px py
      → hash_at (update_overlapping_cells r h cells) px py
        ≡ hash_at (update_overlapping_cells r h others) px py
  unfolding update_overlapping_cells
  update_overlapping_cells-agree cells others px py l k hp e =
      let x₁ = pos_part (cell_of r.x) in
      let y₁ = pos_part (cell_of r.y) in
      let nx = rounds x₁ (cell_of (add_ℤ r.x r.width)) cells_x in
      let ny = rounds y₁ (cell_of (add_ℤ r.y r.height)) cells_y in
      let inx = rounds_inside x₁ (cell_of (add_ℤ r.x r.width)) cells_x (omega arith) in
      let iny = rounds_inside y₁ (cell_of (add_ℤ r.y r.height)) cells_y (omega arith) in
      touch_rows-at h ny nx x₁ y₁ cells px py l inx iny hp
      ∙ ap
          (λ z.
            if (leb y₁ py && ltb py (y₁ + ny)) && (leb x₁ px && ltb px (x₁ + nx))
            then hash z (word_bytes h)
            else z)
          e
      ∙ sym (touch_rows-at h ny nx x₁ y₁ others px py k inx iny hp)

-- The cell of every pixel of the rectangle, as far as the grid goes, takes the hash in.
pub update_overlapping_cells-touches :
    (r : Rect) (h : ℕ) (cells : List ℕ) (px py : ℕ)
    → length cells ≡ cells_x * cells_y
    → px / cell_size < cells_x
    → py / cell_size < cells_y
    → Has r (pos px) (pos py)
    → hash_at (update_overlapping_cells r h cells) (px / cell_size) (py / cell_size)
      ≡ hash (hash_at cells (px / cell_size) (py / cell_size)) (word_bytes h)
unfolding update_overlapping_cells
update_overlapping_cells-touches r h cells px py l hx hy (inx, iny) =
    let x₁ = pos_part (cell_of r.x) in
    let y₁ = pos_part (cell_of r.y) in
    let nx = rounds x₁ (cell_of (add_ℤ r.x r.width)) cells_x in
    let ny = rounds y₁ (cell_of (add_ℤ r.y r.height)) cells_y in
    let (a, b) = rounds_reach r.x (add_ℤ r.x r.width) px cells_x inx.0 inx.1 hx in
    let (c, d) = rounds_reach r.y (add_ℤ r.y r.height) py cells_y iny.0 iny.1 hy in
    touch_rows-at h ny nx x₁ y₁ cells (px / cell_size) (py / cell_size) l
      (rounds_inside x₁ (cell_of (add_ℤ r.x r.width)) cells_x (omega arith))
      (rounds_inside y₁ (cell_of (add_ℤ r.y r.height)) cells_y (omega arith)) hx
    ∙ inside (px / cell_size) (py / cell_size) x₁ y₁ nx ny _ _ a b c d
  where
    inside :
        (i j x y n m s t : ℕ)
        → x ≤ i
        → i < x + n
        → y ≤ j
        → j < y + m
        → (if (leb y j && ltb j (y + m)) && (leb x i && ltb i (x + n)) then s else t) ≡ s
    inside i j x y n m s t a b c d = ground arith
