-- ===== src/Tests/Damages.antt =====
-- Runs of studio/src/rencache.c.
use boggart.Base.{
  ℕ, ◌+◌, ◌*◌, ◌/◌, ◌≤◌, ◌≡◌, ◌≢◌, refl, List, [], ◌∷◌, ◌++◌, length, length-replicate, replicate,
  get_or-replicate, ltb, ◌-◌, none, true, false, arith,
}
use boggart.Base.Int.{ℤ, pos, add_ℤ, subtract_ℤ}
use boggart.Damage.Rects.{Rect, Has, rects_overlap, intersect_rects}
use boggart.Damage.Cells.{cells_x, cells_y, hash_initial}
use boggart.Damage.Cells.Touched.{hash_at}
use boggart.Damage.Dirty.{scan_cells}
use boggart.Damage.Dirty.Few.{scan_cells-few}
use boggart.Damage.Commands.{Float, draw_rect, Color, Command, Cache, issue, commands}
use boggart.Damage.Commands.Pushed.{IsSound, pushed, issue-commands}
use boggart.Damage.Commands.Drawing.{
  Drawing, frees, clips, draws_rect, draws_text, draws_line, issue_drawings, all_wanted,
}
use boggart.Damage.Commands.Drawn.{AllFit, issue_drawings-IsSound, issue_drawings-commands}
use boggart.Damage.Frame.{free_fonts, hash_commands, rencache_end_frame}
use boggart.Damage.Frame.Freed.{to_free}
use boggart.Damage.Frame.Redrawn.{IsRedrawn, rencache_end_frame-redraws}
use boggart.Damage.Frame.Quiet.{IsReset, rencache_end_frame-quiet}

abbrev box : ℕ → ℕ → ℕ → ℕ → Rect
box x y w h = record { x = pos x; y = pos y; width = pos w; height = pos h }

abbrev red : Color
red = record { b = 0; g = 0; r = 255; a = 255 }

abbrev grid : List ℕ
grid = replicate (cells_x * cells_y) hash_initial

-- The cache before the first frame, with grids
abbrev first_cache : Cache
first_cache = record {
  cells_prev = grid;
  cells = grid;
  command_buf = λ i. none;
  command_buf_size = 0;
  command_buf_idx = 0;
  screen_rect = box 0 0 200 100;
  show_debug = false;
}

first_cache-IsSound : IsSound first_cache
first_cache-IsSound = (omega arith, refl, ([], refl))

inside_box : Has (box 90 90 20 20) (pos 100) (pos 105)
unfolding add_ℤ
inside_box = ((omega arith, omega arith), (omega arith, omega arith))

scan_cells-few_example :
    length (scan_cells (box 0 0 200 100) (1 ∷ 2 ∷ 3 ∷ []) (1 ∷ 7 ∷ 8 ∷ [])).rects
    ≤ cells_x * cells_y / 2
scan_cells-few_example = scan_cells-few (box 0 0 200 100) (1 ∷ 2 ∷ 3 ∷ []) (1 ∷ 7 ∷ 8 ∷ [])

issue-commands_example :
    commands (issue (λ n. false) draw_rect 96 (λ c. record c { color = red }) first_cache)
    ≡ commands first_cache
      ++ pushed (λ n. false) draw_rect 96 (λ c. record c { color = red }) first_cache
issue-commands_example =
    issue-commands (λ n. false) draw_rect 96 (λ c. record c { color = red }) first_cache
      (omega arith) refl first_cache-IsSound

-- A frame's calls: one is off the screen.
abbrev drawings : List Drawing
drawings =
    clips (box 0 0 100 100)
    ∷ draws_rect (box 10 10 20 20) red
    ∷ draws_rect (box 900 10 20 20) red
    ∷ draws_text 4 (104 ∷ 105 ∷ []) (pos 3) (pos 5) red
    ∷ draws_line 5 5 40 60 2 red
    ∷ frees 4
    ∷ []

-- Whole numbers in place of `float`
abbrev numbers : Float
numbers = record { less = ltb; minus = λ x y. x - y; one = 1; to_int = pos }

abbrev text_width : ℕ → List ℕ → ℤ
text_width font text = pos (8 * length text)

abbrev frame : Cache
frame =
    issue_drawings (λ n. true) 96 text_width (λ font. pos 16) (λ font. 4) numbers drawings
      first_cache

abbrev starved : Cache
starved =
    issue_drawings (λ n. false) 96 text_width (λ font. pos 16) (λ font. 4) numbers drawings
      first_cache

issue_drawings-IsSound_example : IsSound starved × AllFit 96 (commands starved)
unfolding commands
issue_drawings-IsSound_example =
    issue_drawings-IsSound (λ n. false) 96 text_width (λ font. pos 16) (λ font. 4) numbers
      (omega arith) drawings first_cache first_cache-IsSound tt

issue_drawings-commands_example :
    commands frame
    ≡ commands first_cache
      ++ all_wanted
          (λ n. true)
          96
          text_width
          (λ font. pos 16)
          (λ font. 4)
          numbers
          first_cache.screen_rect
          drawings
issue_drawings-commands_example =
    issue_drawings-commands (λ n. true) 96 text_width (λ font. pos 16) (λ font. 4) numbers
      (omega arith) (λ n. refl) drawings first_cache first_cache-IsSound

-- A stand-in for the bytes of a command
abbrev bytes : Command → List ℕ
bytes c = c.color.r ∷ c.font ∷ c.text

abbrev colours : ℕ → Color
colours i = red

fonts_freed : to_free (commands frame) ≡ 4 ∷ []
unfolding to_free commands issue_drawings rects_overlap add_ℤ
fonts_freed = refl

-- The same frame over short grids
abbrev changed : Cache
changed = record frame { cells = hash_initial ∷ []; cells_prev = 6 ∷ [] }

on_screen : Has (box 0 0 200 100) (pos 15) (pos 20)
unfolding add_ℤ
on_screen = ((omega arith, omega arith), (omega arith, omega arith))

other_hash :
    hash_at (hash_commands bytes (commands changed) changed.screen_rect changed.cells) 0 0
    ≢ hash_at changed.cells_prev 0 0
unfolding hash_commands commands issue_drawings rects_overlap intersect_rects add_ℤ subtract_ℤ
other_hash e = omega (arith, e)

rencache_end_frame-redraws_example :
    IsRedrawn colours changed.show_debug
      (commands changed)
      (rencache_end_frame bytes colours changed).1
      (pos 15)
      (pos 20)
unfolding issue_drawings rects_overlap add_ℤ
rencache_end_frame-redraws_example =
    rencache_end_frame-redraws bytes colours changed 15 20 refl refl (omega arith) (omega arith)
      on_screen other_hash

frame-IsReset : IsReset frame
unfolding issue_drawings rects_overlap add_ℤ
frame-IsReset = (
  length-replicate (cells_x * cells_y) hash_initial,
  length-replicate (cells_x * cells_y) hash_initial,
  λ px py h k.
      get_or-replicate (cells_x * cells_y) (px + py * cells_x) hash_initial 0 (omega (arith, h, k)),
)

-- The frame after it, with the same calls
abbrev again : Cache
again = record (rencache_end_frame bytes colours frame).0 {
  command_buf_idx = frame.command_buf_idx;
}

same_commands : commands again ≡ commands frame
unfolding rencache_end_frame commands issue_drawings rects_overlap add_ℤ
same_commands = refl

rencache_end_frame-quiet_example :
    (rencache_end_frame bytes colours again).1 ≡ free_fonts (commands again)
unfolding rencache_end_frame
rencache_end_frame-quiet_example =
    rencache_end_frame-quiet bytes colours frame again frame-IsReset refl refl refl same_commands
