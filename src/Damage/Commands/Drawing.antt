-- ===== src/Damage/Commands/Drawing.antt =====
-- studio/src/rencache.c: the calls that draw, as data, and the commands that they are to leave.
use boggart.Base.{ℕ, ◌+◌, ◌==◌, List, [], ◌∷◌, ◌++◌, length, Bool, if◌then◌else◌}
use boggart.Base.Int.{ℤ}
use boggart.Damage.Rects.{Rect, rects_overlap, intersect_rects}
use boggart.Damage.Commands.{
  free_font, set_clip, draw_text, draw_rect, draw_line, draw_image, Color, Command, Cache, fresh,
  rounded, rencache_free_font, rencache_set_clip_rect, rencache_draw_rect, rencache_draw_image,
  rencache_draw_text, rencache_draw_line, line_rect, Float,
}

-- A call of the cache between the begin and the end of a frame
pub data Drawing : Type 0 where
  frees : ℕ → Drawing
  clips : Rect → Drawing
  draws_rect : Rect → Color → Drawing
  draws_image : ℕ → Rect → Rect → Color → Drawing
  draws_text : ℕ → List ℕ → ℤ → ℤ → Color → Drawing
  draws_line : ℕ → ℕ → ℕ → ℕ → ℕ → Color → Drawing

module _ (realloc : ℕ → Bool) (header : ℕ) (font_width : ℕ → List ℕ → ℤ) (font_height : ℕ → ℤ)
    (tabs : ℕ → ℕ) (float : Float) where
  unfoldable pub issue_drawing : Drawing → Cache → Cache
  unfolding rencache_free_font rencache_set_clip_rect rencache_draw_rect rencache_draw_image
      rencache_draw_text rencache_draw_line
  issue_drawing (frees font) f = rencache_free_font realloc header font f
  issue_drawing (clips r) f = rencache_set_clip_rect realloc header r f
  issue_drawing (draws_rect r c) f = rencache_draw_rect realloc header r c f
  issue_drawing (draws_image i sub dst c) f = rencache_draw_image realloc header i sub dst c f
  issue_drawing (draws_text font text x y c) f =
      (rencache_draw_text realloc header font_width font_height tabs font text x y c f).0
  issue_drawing (draws_line x₀ y₀ x₁ y₁ t c) f =
      rencache_draw_line realloc header float x₀ y₀ x₁ y₁ t c f

  unfoldable pub issue_drawings : List Drawing → Cache → Cache
  unfolding issue_drawing
  issue_drawings [] f = f
  issue_drawings (d ∷ ds) f = issue_drawings ds (issue_drawing d f)

  -- The command that a call is to leave: none for what is off the screen.
  unfoldable pub wanted : Rect → Drawing → List Command
  wanted screen (frees font) = record (fresh free_font (rounded header)) { font = font } ∷ []
  wanted screen (clips r) =
      record (fresh set_clip (rounded header)) { rect = intersect_rects r screen } ∷ []
  wanted screen (draws_rect r c) =
      if rects_overlap screen r
      then record (fresh draw_rect (rounded header)) { rect = r; color = c } ∷ []
      else []
  wanted screen (draws_image i sub dst c) =
      if i == 0
      then []
      else if rects_overlap screen dst
      then record (fresh draw_image (rounded header)) {
        rect = dst;
        sub = sub;
        image = i;
        color = c;
      }
        ∷ []
      else []
  wanted screen (draws_text font text x y c) =
      let r : Rect = record {
        x = x;
        y = y;
        width = font_width font text;
        height = font_height font;
      } in
      if rects_overlap screen r
      then record (fresh draw_text (rounded (header + (length text + 1)))) {
        text = text;
        color = c;
        font = font;
        rect = r;
        tab_width = tabs font;
      }
        ∷ []
      else []
  wanted screen (draws_line x₀ y₀ x₁ y₁ t c) =
      let r = line_rect float x₀ y₀ x₁ y₁ t in
      if rects_overlap screen r
      then record (fresh draw_line (rounded header)) {
        rect = r;
        color = c;
        x₀ = x₀;
        y₀ = y₀;
        x₁ = x₁;
        y₁ = y₁;
        thickness = t;
      }
        ∷ []
      else []

  unfoldable pub all_wanted : Rect → List Drawing → List Command
  unfolding wanted
  all_wanted screen [] = []
  all_wanted screen (d ∷ ds) = wanted screen d ++ all_wanted screen ds
