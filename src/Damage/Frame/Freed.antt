-- ===== src/Damage/Frame/Freed.antt =====
-- studio/src/rencache.c: the fonts that a frame frees.
use boggart.Base.{ℕ, ◌+◌, ◌≡◌, refl, ap, List, [], ◌∷◌, ◌++◌, Bool, if◌then◌else◌, arith}
use boggart.Damage.Rects.{Rect}
use boggart.Damage.Commands.{
  free_font, set_clip, draw_text, draw_rect, draw_line, draw_image, Color, Command, Cache, commands,
}
use boggart.Damage.Frame.{
  RenCall, ren_set_clip_rect, ren_draw_rect, ren_draw_line, ren_set_font_tab_width, ren_draw_text,
  ren_draw_image, ren_update_rects, ren_free_font, redraw_command, redraw_commands, free_fonts,
  redraw_rects, update_rects, dirty_rects, rencache_end_frame,
}

-- The fonts among the calls of the renderer
abbrev pub freed : List RenCall → List ℕ
freed [] = []
freed (ren_set_clip_rect r ∷ cs) = freed cs
freed (ren_draw_rect r c ∷ cs) = freed cs
freed (ren_draw_line x₀ y₀ x₁ y₁ t c ∷ cs) = freed cs
freed (ren_set_font_tab_width f t ∷ cs) = freed cs
freed (ren_draw_text f t x y c ∷ cs) = freed cs
freed (ren_draw_image i s d c ∷ cs) = freed cs
freed (ren_update_rects rs ∷ cs) = freed cs
freed (ren_free_font f ∷ cs) = f ∷ freed cs

-- The fonts of the commands that free one
unfoldable pub to_free : List Command → List ℕ
to_free [] = []
to_free (c ∷ cs) =
    let rest = to_free cs in
    elim c.kind [
      | free_font ↦ c.font ∷ rest
      | set_clip ↦ rest
      | draw_text ↦ rest
      | draw_rect ↦ rest
      | draw_line ↦ rest
      | draw_image ↦ rest
    ]

freed-append : (ps qs : List RenCall) → freed (ps ++ qs) ≡ freed ps ++ freed qs
freed-append [] qs = refl
freed-append (ren_set_clip_rect r ∷ ps) qs = freed-append ps qs
freed-append (ren_draw_rect r c ∷ ps) qs = freed-append ps qs
freed-append (ren_draw_line x₀ y₀ x₁ y₁ t c ∷ ps) qs = freed-append ps qs
freed-append (ren_set_font_tab_width f t ∷ ps) qs = freed-append ps qs
freed-append (ren_draw_text f t x y c ∷ ps) qs = freed-append ps qs
freed-append (ren_draw_image i s d c ∷ ps) qs = freed-append ps qs
freed-append (ren_update_rects rs ∷ ps) qs = freed-append ps qs
freed-append (ren_free_font f ∷ ps) qs = ap (λ z. f ∷ z) (freed-append ps qs)

freed-redraw_command : (r : Rect) (c : Command) → freed (redraw_command r c) ≡ []
unfolding redraw_command
freed-redraw_command r c = ground arith

freed-redraw_commands : (r : Rect) (cs : List Command) → freed (redraw_commands r cs) ≡ []
unfolding redraw_commands
freed-redraw_commands r [] = refl
freed-redraw_commands r (c ∷ cs) =
    rw
      (
        freed-append (redraw_command r c) (redraw_commands r cs),
        freed-redraw_command r c,
        freed-redraw_commands r cs,
      )
      refl

freed-free_fonts : (cs : List Command) → freed (free_fonts cs) ≡ to_free cs
unfolding free_fonts to_free
freed-free_fonts [] = refl
freed-free_fonts (c ∷ cs) = ground (arith, freed-free_fonts cs)

freed-redraw_rects :
    (random : ℕ → Color) (debug : Bool) (cs : List Command) (i : ℕ) (rs : List Rect)
    → freed (redraw_rects random debug cs i rs) ≡ []
unfolding redraw_rects
freed-redraw_rects random debug cs i [] = refl
freed-redraw_rects random debug cs i (r ∷ rs) =
    let debugged = if debug then ren_draw_rect r (record (random i) { a = 50 }) ∷ [] else [] in
    rw
      (
        freed-append (redraw_commands r cs ++ debugged) (redraw_rects random debug cs (i + 1) rs),
        freed-append (redraw_commands r cs) debugged,
        freed-redraw_commands r cs,
        freed-redraw_rects random debug cs (i + 1) rs,
      )
      (ground arith)

freed-update_rects : (rs : List Rect) → freed (update_rects rs) ≡ []
freed-update_rects [] = refl
freed-update_rects (r ∷ rs) = refl

-- At the end of a frame each font that a command of the frame frees is freed, once for each such
-- command and in their order, and no other, whatever is redrawn; and no command is left for the next
-- frame.
pub rencache_end_frame-frees :
    (bytes : Command → List ℕ) (random : ℕ → Color) (f : Cache)
    → (freed (rencache_end_frame bytes random f).1 ≡ to_free (commands f))
      × (commands (rencache_end_frame bytes random f).0 ≡ [])
unfolding rencache_end_frame commands
rencache_end_frame-frees bytes random f =
    let rs = dirty_rects bytes f in
    let cs = commands f in
    (
      rw
          (
            freed-append (redraw_rects random f.show_debug cs 0 rs)
                (update_rects rs ++ free_fonts cs),
            freed-redraw_rects random f.show_debug cs 0 rs,
            freed-append (update_rects rs) (free_fonts cs),
            freed-update_rects rs,
          )
          (freed-free_fonts cs),
      refl,
    )
