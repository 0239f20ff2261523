-- ===== src/Damage/Frame/Quiet.antt =====
-- studio/src/rencache.c: a frame with the commands of the frame before.
use boggart.Base.{
  ℕ, ◌*◌, ◌<◌, ◌≡◌, refl, ◌∙◌, sym, List, [], ◌∷◌, length, Bool-cases, inl, inr, if◌then◌else◌,
  arith,
}
use boggart.Damage.Rects.{Rect, intersect_rects}
use boggart.Damage.Cells.{cells_x, cells_y, hash_initial, hash, update_overlapping_cells}
use boggart.Damage.Cells.Touched.{
  hash_at, length-update_overlapping_cells, update_overlapping_cells-agree,
}
use boggart.Damage.Dirty.{cells_along, scan_cells}
use boggart.Damage.Dirty.Covered.{cells_along-le}
use boggart.Damage.Dirty.Same.{length-scan_cells, scan_cells-resets, scan_cells-same}
use boggart.Damage.Commands.{Color, Command, Cache, commands}
use boggart.Damage.Frame.{
  clip_after, is_empty, hash_commands, redraw_rects, free_fonts, dirty_rects, rencache_end_frame,
}

module _ (bytes : Command → List ℕ) where
  length-hash_commands :
      (cs : List Command) (cr : Rect) (cells : List ℕ)
      → length (hash_commands bytes cs cr cells) ≡ length cells
  unfolding hash_commands
  length-hash_commands [] cr cells = refl
  length-hash_commands (c ∷ cs) cr cells =
      let r = intersect_rects c.rect (clip_after c cr) in
      let h = hash hash_initial (bytes c) in
      length-hash_commands cs (clip_after c cr)
        (if is_empty r then cells else update_overlapping_cells r h cells)
      ∙ kept r h
    where
      kept :
          (r : Rect) (h : ℕ)
          → length (if is_empty r then cells else update_overlapping_cells r h cells) ≡ length cells
      kept r h = elim (Bool-cases (is_empty r)) [
        | inl e ↦ rw e refl
        | inr e ↦ rw e (length-update_overlapping_cells r h cells)
      ]

  hash_commands-agree :
      (cs : List Command) (cr : Rect) (cells others : List ℕ) (px py : ℕ)
      → length cells ≡ cells_x * cells_y
      → length others ≡ cells_x * cells_y
      → px < cells_x
      → hash_at cells px py ≡ hash_at others px py
      → hash_at (hash_commands bytes cs cr cells) px py
        ≡ hash_at (hash_commands bytes cs cr others) px py
  unfolding hash_commands
  hash_commands-agree [] cr cells others px py l k h e = e
  hash_commands-agree (c ∷ cs) cr cells others px py l k h e =
      let r = intersect_rects c.rect (clip_after c cr) in
      let v = hash hash_initial (bytes c) in
      elim (Bool-cases (is_empty r)) [
        | inl z ↦ rw z (hash_commands-agree cs (clip_after c cr) cells others px py l k h e)
        | inr z ↦ rw z (
            hash_commands-agree cs (clip_after c cr) (update_overlapping_cells r v cells)
              (update_overlapping_cells r v others) px py
              (length-update_overlapping_cells r v cells ∙ l)
              (length-update_overlapping_cells r v others ∙ k) h
              (update_overlapping_cells-agree r v cells others px py l k h e))
      ]

-- The cells that the screen needs are as a frame leaves them.
abbrev pub IsReset : Cache → Type 0
IsReset f =
    (length f.cells ≡ cells_x * cells_y)
    × (length f.cells_prev ≡ cells_x * cells_y)
    × ((px py : ℕ)
        → px < cells_along f.screen_rect.width cells_x
        → py < cells_along f.screen_rect.height cells_y
        → hash_at f.cells px py ≡ hash_initial)

-- A frame leaves the grids as the next frame needs them.
pub rencache_end_frame-IsReset :
    (bytes : Command → List ℕ) (random : ℕ → Color) (f : Cache)
    → IsReset f
    → IsReset (rencache_end_frame bytes random f).0
unfolding rencache_end_frame
rencache_end_frame-IsReset bytes random f (l, k, e) =
    let cells = hash_commands bytes (commands f) f.screen_rect f.cells in
    (
      length-scan_cells f.screen_rect cells f.cells_prev ∙ k,
      length-hash_commands bytes (commands f) f.screen_rect f.cells ∙ l,
      λ px py. scan_cells-resets f.screen_rect cells f.cells_prev px py k,
    )

module _ (bytes : Command → List ℕ) (cs : List Command) (screen : Rect) (cells prev : List ℕ) where
  scan-still :
      length cells ≡ cells_x * cells_y
      → length prev ≡ cells_x * cells_y
      → ((px py : ℕ)
          → px < cells_along screen.width cells_x
          → py < cells_along screen.height cells_y
          → hash_at cells px py ≡ hash_initial)
      → (let hashed = hash_commands bytes cs screen cells in
          (scan_cells screen
            (hash_commands bytes cs screen (scan_cells screen hashed prev).prev)
            hashed).rects
          ≡ [])
  scan-still l k e =
      let hashed = hash_commands bytes cs screen cells in
      let left = (scan_cells screen hashed prev).prev in
      scan_cells-same screen (hash_commands bytes cs screen left) hashed (λ px py h m.
        hash_commands-agree bytes cs screen left cells px py
          (length-scan_cells screen hashed prev ∙ k) l
          (omega (arith, cells_along-le screen.width cells_x, h))
          (scan_cells-resets screen hashed prev px py k h m ∙ sym (e px py h m)))

-- A frame with the commands, the screen and the cells of the frame before draws nothing: it frees the fonts
-- that its commands free and asks nothing else of the renderer. The frame before began with the initial hash
-- in every cell of the screen, as each frame leaves them for a screen of that size or less: not so the first
-- frame of the program, nor one whose screen has grown.
pub rencache_end_frame-quiet :
    (bytes : Command → List ℕ) (random : ℕ → Color) (f g : Cache)
    → IsReset f
    → g.cells ≡ (rencache_end_frame bytes random f).0.cells
    → g.cells_prev ≡ (rencache_end_frame bytes random f).0.cells_prev
    → g.screen_rect ≡ f.screen_rect
    → commands g ≡ commands f
    → (rencache_end_frame bytes random g).1 ≡ free_fonts (commands g)
unfolding rencache_end_frame redraw_rects dirty_rects
rencache_end_frame-quiet bytes random f g (l, k, e) ec ep es eq = rw none_dirty refl
  where
    none_dirty : dirty_rects bytes g ≡ []
    none_dirty =
        rw (eq, ec, ep, es, scan-still bytes (commands f) f.screen_rect f.cells f.cells_prev l k e)
          refl
