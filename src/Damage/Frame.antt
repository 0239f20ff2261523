-- ===== src/Damage/Frame.antt =====
-- studio/src/rencache.c: a frame from `rencache_begin_frame` to `rencache_end_frame`. The calls of the
-- renderer are a list. The parameters are the bytes of a command in memory and the colours that
-- `rand` gives.
pub mod Redrawn
pub mod Freed
pub mod Quiet
use boggart.Base.{
  ℕ, zero, suc, ◌+◌, ◌*◌, ◌==◌, List, [], ◌∷◌, ◌++◌, map, replicate, Bool, true, false, ◌||◌, not,
  if◌then◌else◌,
}
use boggart.Base.Int.{ℤ, pos, eqb_ℤ}
use mathlib.Core.List.{reverse}
use boggart.Damage.Rects.{Rect, intersect_rects}
use boggart.Damage.Cells.{cells_x, cells_y, hash_initial, hash, update_overlapping_cells}
use boggart.Damage.Dirty.{Scan, scan_cells, to_pixels}
use boggart.Damage.Commands.{
  CommandType, free_font, set_clip, draw_text, draw_rect, draw_line, draw_image, Color, Command,
  Cache, commands,
}

-- What the frame asks of the renderer
pub data RenCall : Type 0 where
  ren_set_clip_rect : Rect → RenCall
  ren_draw_rect : Rect → Color → RenCall
  ren_draw_line : ℕ → ℕ → ℕ → ℕ → ℕ → Color → RenCall
  ren_set_font_tab_width : ℕ → ℕ → RenCall
  ren_draw_text : ℕ → List ℕ → ℤ → ℤ → Color → RenCall
  ren_draw_image : ℕ → Rect → Rect → Color → RenCall
  ren_update_rects : List Rect → RenCall
  ren_free_font : ℕ → RenCall

-- `memset(cells_prev, 0xff, ...)`
unfoldable pub rencache_invalidate : Cache → Cache
rencache_invalidate f = record f { cells_prev = replicate (cells_x * cells_y) 4294967295 }

-- `w` and `h` are what `ren_get_size` says.
unfoldable pub rencache_begin_frame : ℤ → ℤ → Cache → Cache
unfolding rencache_invalidate
rencache_begin_frame w h f =
    if not (eqb_ℤ f.screen_rect.width w) || not (eqb_ℤ h f.screen_rect.height)
    then rencache_invalidate
        (record f { screen_rect = record f.screen_rect { width = w; height = h } })
    else f

-- `cr` after a command
abbrev pub clip_after : Command → Rect → Rect
clip_after c cr = elim c.kind [
  | free_font ↦ cr
  | set_clip ↦ c.rect
  | draw_text ↦ cr
  | draw_rect ↦ cr
  | draw_line ↦ cr
  | draw_image ↦ cr
]

abbrev pub is_empty : Rect → Bool
is_empty r = eqb_ℤ r.width (pos 0) || eqb_ℤ r.height (pos 0)

-- One command, drawn
unfoldable pub redraw_command : Rect → Command → List RenCall
redraw_command r c = elim c.kind [
  | free_font ↦ []
  | set_clip ↦ ren_set_clip_rect (intersect_rects c.rect r) ∷ []
  | draw_rect ↦ ren_draw_rect c.rect c.color ∷ []
  | draw_line ↦ ren_draw_line c.x₀ c.y₀ c.x₁ c.y₁ c.thickness c.color ∷ []
  | draw_text ↦
      ren_set_font_tab_width c.font c.tab_width
      ∷ ren_draw_text c.font c.text c.rect.x c.rect.y c.color
      ∷ []
  | draw_image ↦ ren_draw_image c.image c.sub c.rect c.color ∷ []
]

unfoldable pub redraw_commands : Rect → List Command → List RenCall
unfolding redraw_command
redraw_commands r [] = []
redraw_commands r (c ∷ cs) = redraw_command r c ++ redraw_commands r cs

unfoldable pub free_fonts : List Command → List RenCall
free_fonts [] = []
free_fonts (c ∷ cs) =
    let rest = free_fonts cs in
    elim c.kind [
      | free_font ↦ ren_free_font c.font ∷ rest
      | set_clip ↦ rest
      | draw_text ↦ rest
      | draw_rect ↦ rest
      | draw_line ↦ rest
      | draw_image ↦ rest
    ]

module _ (bytes : Command → List ℕ) where
  -- The first loop of `rencache_end_frame`
  unfoldable pub hash_commands : List Command → Rect → List ℕ → List ℕ
  unfolding hash update_overlapping_cells intersect_rects
  hash_commands [] cr cells = cells
  hash_commands (c ∷ cs) cr cells =
      let cr₁ = clip_after c cr in
      let r = intersect_rects c.rect cr₁ in
      hash_commands cs cr₁ (
        if is_empty r
        then cells
        else update_overlapping_cells r (hash hash_initial (bytes c)) cells)

module _ (random : ℕ → Color) (show_debug : Bool) (cs : List Command) where
  -- One dirty rectangle, the `i`-th
  abbrev pub redraw_rect : ℕ → Rect → List RenCall
  redraw_rect i r =
      ren_set_clip_rect r
      ∷ (redraw_commands r cs
          ++ (if show_debug then ren_draw_rect r (record (random i) { a = 50 }) ∷ [] else []))

  unfoldable pub redraw_rects : ℕ → List Rect → List RenCall
  unfolding redraw_commands
  redraw_rects i [] = []
  redraw_rects i (r ∷ rs) = redraw_rect i r ++ redraw_rects (i + 1) rs

abbrev pub update_rects : List Rect → List RenCall
update_rects [] = []
update_rects (r ∷ rs) = ren_update_rects (r ∷ rs) ∷ []

-- `rect_buf`, in the order of its indices, after the rectangles are expanded
unfoldable pub dirty_rects : (Command → List ℕ) → Cache → List Rect
unfolding hash_commands scan_cells to_pixels commands
dirty_rects bytes f = map (to_pixels f.screen_rect) (
    reverse
      (scan_cells f.screen_rect (hash_commands bytes (commands f) f.screen_rect f.cells)
        f.cells_prev).rects)

unfoldable pub rencache_end_frame : (Command → List ℕ) → (ℕ → Color) → Cache → Cache × List RenCall
unfolding dirty_rects redraw_rects free_fonts hash_commands scan_cells commands
rencache_end_frame bytes random f =
    let cs = commands f in
    let cells = hash_commands bytes cs f.screen_rect f.cells in
    let rects = dirty_rects bytes f in
    (
      record f {
        cells = (scan_cells f.screen_rect cells f.cells_prev).prev;
        cells_prev = cells;
        command_buf_idx = 0;
      },
      redraw_rects random f.show_debug cs 0 rects ++ (update_rects rects ++ free_fonts cs),
    )
