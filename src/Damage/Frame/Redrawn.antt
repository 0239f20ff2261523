-- ===== src/Damage/Frame/Redrawn.antt =====
-- studio/src/rencache.c: what changed is drawn again. A pixel is in a cell, and the dirty rectangle that
-- has the cell has the pixel once it is expanded.
use boggart.Base.{
  ℕ, suc, ◌+◌, ◌*◌, ◌/◌, ◌<◌, ◌≡◌, ◌≢◌, ◌∙◌, sym, ap, ◌⊎◌, inl, inr, List, [], ◌∷◌, ◌++◌,
  append_assoc, map, Bool, arith,
}
use mathlib.Core.List.{reverse_aux}
use boggart.Base.Int.{
  ℤ, pos, negsuc, pos_part, neg_part, add_ℤ, add_ℤ-parts, sub_ℕ-parts, subtract_ℤ-parts,
  add-subtract, Le, Lt, max_ℤ, min_ℤ, subtract_ℤ,
}
use boggart.Damage.Rects.{Rect, intersect_rects, Within, Has}
use boggart.Damage.Cells.{cells_x, cells_y, cell_size}
use boggart.Damage.Cells.Touched.{hash_at}
use boggart.Damage.Dirty.{scale, to_pixels, cells_along}
use boggart.Damage.Dirty.Covered.{Covered, scan_cells-covers}
use boggart.Damage.Commands.{Color, Command, Cache, commands}
use boggart.Damage.Frame.{
  RenCall, redraw_rects, redraw_rect, update_rects, free_fonts, hash_commands, dirty_rects,
  rencache_end_frame,
}

scale-parts :
    (a : ℤ)
    → pos_part (scale a) + neg_part a * cell_size ≡ pos_part a * cell_size + neg_part (scale a)
unfolding scale
scale-parts (pos n) = omega arith
scale-parts (negsuc n) = omega (arith, sub_ℕ-parts 0 (suc n * cell_size))

scale-Within :
    (a n : ℤ) (p : ℕ) → Within a n (pos (p / cell_size)) → Within (scale a) (scale n) (pos p)
scale-Within a n p (h, k) = (
  omega (arith, scale-parts a),
  omega (arith, scale-parts a, scale-parts n, add_ℤ-parts a n, add_ℤ-parts (scale a) (scale n)),
)

nonnegative : (w : ℤ) → Le (pos 0) w → max_ℤ (pos 0) w ≡ w
nonnegative w h = ground arith

intersect-Within :
    (a m b n p : ℤ)
    → Within a m p
    → Within b n p
    → Within (max_ℤ a b) (max_ℤ (pos 0) (subtract_ℤ (min_ℤ (add_ℤ a m) (add_ℤ b n)) (max_ℤ a b))) p
intersect-Within a m b n p (h, k) (h', k') =
    let low = max_ℤ a b in
    let end = min_ℤ (add_ℤ a m) (add_ℤ b n) in
    let after_low : Le low p = ground arith in
    let before_end : Lt p end = ground arith in
    (
      after_low,
      rw
          (
            nonnegative (subtract_ℤ end low) (omega (arith, subtract_ℤ-parts end low)),
            add-subtract low end,
          )
          before_end,
    )

to_pixels-Has :
    (screen r : Rect) (px py : ℕ)
    → Has screen (pos px) (pos py)
    → Has r (pos (px / cell_size)) (pos (py / cell_size))
    → Has (to_pixels screen r) (pos px) (pos py)
unfolding to_pixels intersect_rects
to_pixels-Has screen r px py (hx, hy) (kx, ky) = (
  intersect-Within (scale r.x) (scale r.width) screen.x screen.width (pos px)
      (scale-Within r.x r.width px kx) hx,
  intersect-Within (scale r.y) (scale r.height) screen.y screen.height (pos py)
      (scale-Within r.y r.height py ky) hy,
)

map-Covered :
    (screen : Rect) (rs : List Rect) (px py : ℕ)
    → Has screen (pos px) (pos py)
    → Covered rs (pos (px / cell_size)) (pos (py / cell_size))
    → Covered (map (to_pixels screen) rs) (pos px) (pos py)
map-Covered screen [] px py h c = c
map-Covered screen (r ∷ rs) px py h (inl c) = inl (to_pixels-Has screen r px py h c)
map-Covered screen (r ∷ rs) px py h (inr c) = inr (map-Covered screen rs px py h c)

reverse_aux-Covered :
    (rs done : List Rect) (p q : ℤ)
    → Covered rs p q ⊎ Covered done p q
    → Covered (reverse_aux rs done) p q
reverse_aux-Covered [] done p q (inl c) = elim c [ ]
reverse_aux-Covered [] done p q (inr c) = c
reverse_aux-Covered (r ∷ rs) done p q (inl (inl c)) =
    reverse_aux-Covered rs (r ∷ done) p q (inr (inl c))
reverse_aux-Covered (r ∷ rs) done p q (inl (inr c)) = reverse_aux-Covered rs (r ∷ done) p q (inl c)
reverse_aux-Covered (r ∷ rs) done p q (inr c) = reverse_aux-Covered rs (r ∷ done) p q (inr (inr c))

-- The cells across and down that the scan reads have all of the screen, as far as the grid goes.
along_reach :
    (size : ℤ) (p bound : ℕ)
    → p < pos_part size
    → p / cell_size < bound
    → p / cell_size < cells_along size bound
along_reach size p bound h k = ground arith

inside_length : (a n : ℤ) (p : ℕ) → a ≡ pos 0 → Within a n (pos p) → p < pos_part n
inside_length a n p e (h, k) = omega (arith, add_ℤ-parts a n, ap pos_part e, ap neg_part e)

module _ (random : ℕ → Color) (debug : Bool) (cs : List Command) where
  -- Among the calls are all those of the redrawing of a rectangle that has the place.
  abbrev pub IsRedrawn : List RenCall → ℤ → ℤ → Type 0
  IsRedrawn calls p q =
      (i : ℕ) × (r : Rect) × (before : List RenCall) × (after : List RenCall) × Has r p q
      × (calls ≡ before ++ (redraw_rect random debug cs i r ++ after))

  redraw_rects-IsRedrawn :
      (i : ℕ) (rs : List Rect) (more : List RenCall) (p q : ℤ)
      → Covered rs p q
      → IsRedrawn (redraw_rects random debug cs i rs ++ more) p q
  unfolding redraw_rects
  redraw_rects-IsRedrawn i [] more p q c = elim c [ ]
  redraw_rects-IsRedrawn i (r ∷ rs) more p q (inl c) = (
    i,
    r,
    [],
    redraw_rects random debug cs (i + 1) rs ++ more,
    c,
    append_assoc (redraw_rect random debug cs i r) _ _,
  )
  redraw_rects-IsRedrawn i (r ∷ rs) more p q (inr c) =
      let (j, s, before, after, h, e) = redraw_rects-IsRedrawn (i + 1) rs more p q c in
      (
        j,
        s,
        redraw_rect random debug cs i r ++ before,
        after,
        h,
        append_assoc (redraw_rect random debug cs i r) _ _
            ∙ ap (λ z. redraw_rect random debug cs i r ++ z) e
            ∙ sym (append_assoc (redraw_rect random debug cs i r) before _),
      )

-- Where a pixel of the screen, as far as the grid of cells goes, is in a cell whose hash after the
-- frame's commands is not the one of the frame before, the frame sets the clip to a rectangle that has
-- the pixel and there draws every command again.
pub rencache_end_frame-redraws :
    (bytes : Command → List ℕ) (random : ℕ → Color) (f : Cache) (px py : ℕ)
    → f.screen_rect.x ≡ pos 0
    → f.screen_rect.y ≡ pos 0
    → px / cell_size < cells_x
    → py / cell_size < cells_y
    → Has f.screen_rect (pos px) (pos py)
    → hash_at
        (hash_commands bytes (commands f) f.screen_rect f.cells)
        (px / cell_size)
        (py / cell_size)
      ≢ hash_at f.cells_prev (px / cell_size) (py / cell_size)
    → IsRedrawn random f.show_debug
        (commands f)
        (rencache_end_frame bytes random f).1
        (pos px)
        (pos py)
unfolding rencache_end_frame dirty_rects
rencache_end_frame-redraws bytes random f px py ex ey hx hy on ne =
    redraw_rects-IsRedrawn random f.show_debug (commands f) 0 (dirty_rects bytes f)
      (update_rects (dirty_rects bytes f) ++ free_fonts (commands f)) (pos px) (pos py)
      (map-Covered f.screen_rect _ px py on (
        reverse_aux-Covered _ [] _ _ (
          inl (
            scan_cells-covers f.screen_rect _ f.cells_prev (px / cell_size) (py / cell_size)
              (along_reach f.screen_rect.width px cells_x
                (inside_length f.screen_rect.x f.screen_rect.width px ex on.0) hx)
              (along_reach f.screen_rect.height py cells_y
                (inside_length f.screen_rect.y f.screen_rect.height py ey on.1) hy)
              ne))))
