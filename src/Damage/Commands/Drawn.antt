-- ===== src/Damage/Commands/Drawn.antt =====
-- studio/src/rencache.c: a frame's calls, and the commands that they leave in the buffer.
use boggart.Base.{
  ℕ, ◌+◌, ◌==◌, ◌≤◌, ◌<◌, ◌≡◌, refl, ◌∙◌, sym, ap, subst, List, [], ◌∷◌, ◌++◌, append-nil,
  append_assoc, length, Bool, true, false, not, ◌||◌, if◌then◌else◌, arith,
}
use boggart.Base.Int.{ℤ}
use boggart.Damage.Rects.{Rect, rects_overlap, intersect_rects}
use boggart.Damage.Commands.{
  CommandType, free_font, set_clip, draw_text, draw_rect, draw_line, draw_image, Command, Cache,
  fresh, rounded, issue, line_rect, Float, commands,
}
use boggart.Damage.Commands.Pushed.{
  IsSound, issue-IsSound, issue-commands, issue-screen, issue-cases, pushed, pushed-all,
}
use boggart.Damage.Commands.Drawing.{
  Drawing, frees, clips, draws_rect, draws_image, draws_text, draws_line, issue_drawing,
  issue_drawings, wanted, all_wanted,
}

guarded {ℓ} :
    (P : Cache → List Command → Type ℓ) (f : Cache)
    → P f []
    → (b : Bool) (g : Cache) (c : Command) → P g (c ∷ [])
    → P (if b then g else f) (if b then c ∷ [] else [])
guarded P f p true g c q = q
guarded P f p false g c q = p

guarded_image {ℓ} :
    (P : Cache → List Command → Type ℓ) (f : Cache)
    → P f []
    → (b o : Bool) (g : Cache) (c : Command) → P g (c ∷ [])
    → P (if b || not o then f else g) (if b then [] else if o then c ∷ [] else [])
guarded_image P f p true o g c q = p
guarded_image P f p false true g c q = q
guarded_image P f p false false g c q = p

-- A command of this size holds its fields and, if it has one, its text with the zero behind it.
abbrev pub Fits : ℕ → Command → Type 0
Fits header c = (header ≤ c.size) × (c.kind ≡ draw_text → header + (length c.text + 1) ≤ c.size)

abbrev pub AllFit : ℕ → List Command → Type 0
AllFit header [] = Unit {0}
AllFit header (c ∷ cs) = Fits header c × AllFit header cs

AllFit-snoc :
    (header : ℕ) (cs : List Command) (c : Command)
    → AllFit header cs
    → Fits header c
    → AllFit header (cs ++ c ∷ [])
AllFit-snoc header [] c h f = (f, tt)
AllFit-snoc header (d ∷ cs) c h f = (h.0, AllFit-snoc header cs c h.1 f)

pushed-AllFit :
    (realloc : ℕ → Bool) (k : CommandType) (size : ℕ) (fill : Command → Command) (f : Cache)
    (header : ℕ)
    → Fits header (fill (fresh k (rounded size)))
    → AllFit header (commands f)
    → AllFit header (commands f ++ pushed realloc k size fill f)
pushed-AllFit realloc k size fill f header i a =
    issue-cases realloc k size fill f (λ g ps. AllFit header (commands f ++ ps))
      (subst (AllFit header) (sym (append-nil (commands f))) a)
      (λ have n. AllFit-snoc header (commands f) (fill (fresh k (rounded size))) a i)

module _ (realloc : ℕ → Bool) (header : ℕ) (font_width : ℕ → List ℕ → ℤ) (font_height : ℕ → ℤ)
    (tabs : ℕ → ℕ) (float : Float) where
  -- What holds of a cache and the commands it gains, along every way a call can go
  issue_drawing-cases {ℓ} :
      (P : Cache → List Command → Type ℓ) (f : Cache)
      → P f []
      → ((k : CommandType) (size : ℕ) (fill : Command → Command)
          → header ≤ size
          → (fill (fresh k (rounded size))).size ≡ rounded size
          → Fits header (fill (fresh k (rounded size)))
          → P (issue realloc k size fill f) (fill (fresh k (rounded size)) ∷ []))
      → (d : Drawing)
      → P
          (issue_drawing realloc header font_width font_height tabs float d f)
          (wanted realloc header font_width font_height tabs float f.screen_rect d)
  unfolding issue_drawing wanted
  issue_drawing-cases P f p q (frees font) =
      q free_font header (λ c. record c { font = font }) (omega arith) refl (omega arith, cc)
  issue_drawing-cases P f p q (clips r) =
      q set_clip header (λ c. record c { rect = intersect_rects r f.screen_rect }) (omega arith)
        refl (omega arith, cc)
  issue_drawing-cases P f p q (draws_rect r c) = guarded P f p (rects_overlap f.screen_rect r) _ _ (
      q draw_rect header (λ d. record d { rect = r; color = c }) (omega arith) refl
        (omega arith, cc))
  issue_drawing-cases P f p q (draws_image i sub dst c) =
      guarded_image P f p (i == 0) (rects_overlap f.screen_rect dst) _ _ (
        q draw_image header (λ d. record d { rect = dst; sub = sub; image = i; color = c })
          (omega arith) refl (omega arith, cc))
  issue_drawing-cases P f p q (draws_line x₀ y₀ x₁ y₁ t c) =
      let r = line_rect float x₀ y₀ x₁ y₁ t in
      guarded P f p (rects_overlap f.screen_rect r) _ _ (
        q draw_line header
          (λ d. record d { rect = r; color = c; x₀ = x₀; y₀ = y₀; x₁ = x₁; y₁ = y₁; thickness = t })
          (omega arith) refl (omega arith, cc))
  issue_drawing-cases P f p q (draws_text font text x y c) =
      let r : Rect = record {
        x = x;
        y = y;
        width = font_width font text;
        height = font_height font;
      } in
      guarded P f p (rects_overlap f.screen_rect r) _ _ (
        q draw_text (header + (length text + 1))
          (λ d. record d { text = text; color = c; font = font; rect = r; tab_width = tabs font })
          (omega arith) refl (omega arith, λ z. omega arith))

  issue_drawing-screen :
      (d : Drawing) (f : Cache)
      → (issue_drawing realloc header font_width font_height tabs float d f).screen_rect
        ≡ f.screen_rect
  issue_drawing-screen d f =
      issue_drawing-cases (λ g cs. g.screen_rect ≡ f.screen_rect) f refl
        (λ k size fill h e i. issue-screen realloc k size fill f) d

  issue_drawing-IsSound :
      0 < header
      → (d : Drawing) (f : Cache) → IsSound f
      → IsSound (issue_drawing realloc header font_width font_height tabs float d f)
  issue_drawing-IsSound z d f s =
      issue_drawing-cases (λ g cs. IsSound g) f s
        (λ k size fill h e i. issue-IsSound realloc k size fill f (omega arith) e s) d

  issue_drawing-AllFit :
      0 < header
      → (d : Drawing) (f : Cache) → IsSound f
      → AllFit header (commands f)
      → AllFit header
          (commands (issue_drawing realloc header font_width font_height tabs float d f))
  issue_drawing-AllFit z d f s a =
      issue_drawing-cases (λ g cs. AllFit header (commands g)) f a
        (λ k size fill h e i.
          subst (AllFit header) (sym (issue-commands realloc k size fill f (omega arith) e s))
            (pushed-AllFit realloc k size fill f header i a))
        d

  -- From a buffer where it is so already, as an empty one: whatever is drawn, and wherever the memory runs
  -- out, every command in the buffer starts at a multiple of 8 and ends within the memory that the buffer
  -- has, and its size is enough for its fields and, in a text's command, for the text and its zero.
  pub issue_drawings-IsSound :
      0 < header
      → (ds : List Drawing) (f : Cache) → IsSound f
      → AllFit header (commands f)
      → IsSound (issue_drawings realloc header font_width font_height tabs float ds f)
        × AllFit header
            (commands (issue_drawings realloc header font_width font_height tabs float ds f))
  unfolding issue_drawings
  issue_drawings-IsSound z [] f s a = (s, a)
  issue_drawings-IsSound z (d ∷ ds) f s a =
      issue_drawings-IsSound z ds
        (issue_drawing realloc header font_width font_height tabs float d f)
        (issue_drawing-IsSound z d f s) (issue_drawing-AllFit z d f s a)

  issue_drawing-commands :
      0 < header
      → ((n : ℕ) → realloc n ≡ true)
      → (d : Drawing) (f : Cache) → IsSound f
      → commands (issue_drawing realloc header font_width font_height tabs float d f)
        ≡ commands f ++ wanted realloc header font_width font_height tabs float f.screen_rect d
  issue_drawing-commands z a d f s =
      issue_drawing-cases (λ g cs. commands g ≡ commands f ++ cs) f (sym (append-nil (commands f)))
        (λ k size fill h e i.
          issue-commands realloc k size fill f (omega arith) e s
          ∙ ap (λ cs. commands f ++ cs) (pushed-all realloc k size fill f a))
        d

  -- With memory enough, what the loops of the frame's end read is one command, with the fields of the
  -- call, for each call since the frame began that is not off the screen, in the order of the calls.
  pub issue_drawings-commands :
      0 < header
      → ((n : ℕ) → realloc n ≡ true)
      → (ds : List Drawing) (f : Cache) → IsSound f
      → commands (issue_drawings realloc header font_width font_height tabs float ds f)
        ≡ commands f ++ all_wanted realloc header font_width font_height tabs float f.screen_rect ds
  unfolding issue_drawings all_wanted
  issue_drawings-commands z a [] f s = sym (append-nil (commands f))
  issue_drawings-commands z a (d ∷ ds) f s =
      issue_drawings-commands z a ds
        (issue_drawing realloc header font_width font_height tabs float d f)
        (issue_drawing-IsSound z d f s)
      ∙ ap
          (λ r.
            commands (issue_drawing realloc header font_width font_height tabs float d f)
            ++ all_wanted realloc header font_width font_height tabs float r ds)
          (issue_drawing-screen d f)
      ∙ ap
          (λ cs. cs ++ all_wanted realloc header font_width font_height tabs float f.screen_rect ds)
          (issue_drawing-commands z a d f s)
      ∙ append_assoc (commands f)
          (wanted realloc header font_width font_height tabs float f.screen_rect d)
          (all_wanted realloc header font_width font_height tabs float f.screen_rect ds)
