-- ===== src/Term/Flush/Step.antt =====
-- src/termctl.c, `tc_flush`: what drawing one cell makes the terminal show.
use boggart.Base.{
  ℕ, ◌+◌, ◌*◌, ◌≤◌, ◌≢◌, ◌<◌, ◌≡◌, refl, ◌∙◌, ap, ◌==◌, ◌&&◌, true, [], ◌∷◌, ◌++◌, Option, none,
  some, Bool-cases, inl, inr, if◌then◌else◌, arith,
}
use boggart.Base.Int.{ℤ, eqb_ℤ}
use boggart.Term.Width.{tc_wcwidth}
use boggart.Term.Grid.{Cell, cell_width}
use boggart.Term.Utf8.{scalar}
use boggart.Term.Flush.Rendition.{Small}
use boggart.Term.Flush.{glyph, place_ops, style_ops}
use boggart.Term.Flush.Display.{
  Display, term_colour, write_glyph, obey, obey_all, obey_all-append, eqb_ℤ-true,
}

-- What `tc_flush` remembers of the terminal, where it does.
abbrev pub KnowsPlace : Option (ℕ × ℕ) → Display → Type 0
KnowsPlace none d = Unit {0}
KnowsPlace (some (cx, cy)) d = (cx ≡ d.col) × (cy ≡ d.row)

abbrev pub KnowsStyle : Option (ℤ × (ℤ × ℕ)) → Display → Type 0
KnowsStyle none d = Unit {0}
KnowsStyle (some (fg, (bg, attr))) d = (fg ≡ d.fg) × (bg ≡ d.bg) × (attr ≡ d.attr)

-- A cell that the output can express: `tc_set` clamps colours, termctl.h names four attributes, and the
-- character is a scalar value that is no control character, or the mark of a right half.
pub record IsPlain (b : Cell) : Type 0 where
  pub fg_eq : term_colour b.fg ≡ b.fg
  pub bg_eq : term_colour b.bg ≡ b.bg
  pub attr_lt : b.attr < 16
  pub fg_small : Small b.fg
  pub bg_small : Small b.bg
  pub printable : b.ch ≢ 0 → (0x20 ≤ b.ch) × (scalar b.ch ≡ b.ch)

place_ops-lem :
    (w x y : ℕ) (p : Option (ℕ × ℕ)) (d : Display)
    → KnowsPlace p d
    → obey_all w (place_ops p x y) d ≡ record d { col = x; row = y }
unfolding place_ops obey_all obey
place_ops-lem w x y none d k = refl
place_ops-lem w x y (some (cx, cy)) d k = elim (Bool-cases ((cx == x) && (cy == y))) [
  | inl e ↦ rw e (still d x y (ground arith) (ground arith))
  | inr e ↦ rw e refl
]
  where
    still : (d : Display) (x y : ℕ) → d.col ≡ x → d.row ≡ y → d ≡ record d { col = x; row = y }
    still d x y e f = cc (e, f)

dyed :
    (d : Display) (fg fg' bg bg' : ℤ) (attr attr' : ℕ)
    → fg ≡ fg'
    → bg ≡ bg'
    → attr ≡ attr'
    → ◌≡◌ {A = Display}
        (record d { fg = fg; bg = bg; attr = attr })
        (record d { fg = fg'; bg = bg'; attr = attr' })
dyed d fg fg' bg bg' attr attr' e f g = cc (e, f, g)

style_ops-lem :
    (w : ℕ) (s : Option (ℤ × (ℤ × ℕ))) (b : Cell) (d : Display)
    → KnowsStyle s d
    → IsPlain b
    → obey_all w (style_ops s b) d ≡ record d { fg = b.fg; bg = b.bg; attr = b.attr }
unfolding style_ops obey_all obey
style_ops-lem w none b d k p = dyed d _ _ _ _ _ _ p.fg_eq p.bg_eq (omega (arith, p.attr_lt))
style_ops-lem w (some (fg, (bg, attr))) b d k p =
    elim (Bool-cases (eqb_ℤ b.fg fg && (eqb_ℤ b.bg bg && b.attr == attr))) [
      | inl e ↦ rw e (worn d b fg bg attr k e)
      | inr e ↦ rw e (dyed d _ _ _ _ _ _ p.fg_eq p.bg_eq (omega (arith, p.attr_lt)))
    ]
  where
    worn :
        (d : Display) (b : Cell) (fg bg : ℤ) (attr : ℕ)
        → (fg ≡ d.fg) × (bg ≡ d.bg) × (attr ≡ d.attr)
        → (eqb_ℤ b.fg fg && (eqb_ℤ b.bg bg && b.attr == attr)) ≡ true
        → d ≡ record d { fg = b.fg; bg = b.bg; attr = b.attr }
    worn d b fg bg attr (k, l, m) e =
        dyed d _ _ _ _ _ _ (ground (arith, eqb_ℤ-true b.fg fg)) (ground (arith, eqb_ℤ-true b.bg bg))
          (ground arith)

-- The terminal after the output for the cell `b` at (x, y).
abbrev pub drawn : ℕ → ℕ → ℕ → Cell → Display → Display
drawn w x y b d =
    write_glyph w b.ch (record d { col = x; row = y; fg = b.fg; bg = b.bg; attr = b.attr })

pub draw_ops-lem :
    (w x y : ℕ) (place : Option (ℕ × ℕ)) (style : Option (ℤ × (ℤ × ℕ))) (b : Cell) (d : Display)
    → KnowsPlace place d
    → KnowsStyle style d
    → IsPlain b
    → obey_all w (place_ops place x y ++ (style_ops style b ++ (glyph b.ch ∷ []))) d
      ≡ drawn w x y b d
unfolding obey_all obey
draw_ops-lem w x y place style b d k l p =
    let d₁ : Display = record d { col = x; row = y } in
    obey_all-append w (place_ops place x y) (style_ops style b ++ (glyph b.ch ∷ [])) d
    ∙ ap (obey_all w (style_ops style b ++ (glyph b.ch ∷ []))) (place_ops-lem w x y place d k)
    ∙ obey_all-append w (style_ops style b) (glyph b.ch ∷ []) d₁
    ∙ ap (obey_all w (glyph b.ch ∷ [])) (style_ops-lem w style b d₁ (moved style l) p)
  where
    moved :
        (s : Option (ℤ × (ℤ × ℕ))) → KnowsStyle s d → KnowsStyle s (record d { col = x; row = y })
    moved none l = tt
    moved (some s) l = l

-- Place by place
pub drawn-shows :
    (w x y : ℕ) (b : Cell) (d : Display) (j : ℕ)
    → (drawn w x y b d).shows j ≡ (
        if (tc_wcwidth b.ch == 2) && (j == y * w + x + 1)
        then record b { ch = 0 }
        else if j == y * w + x
        then b
        else d.shows j)
unfolding write_glyph
drawn-shows w x y b d j = ground arith

-- What `tc_flush` remembers then
pub drawn-KnowsPlace :
    (w x y : ℕ) (b : Cell) (d : Display)
    → KnowsPlace (some (x + cell_width b.ch, y)) (drawn w x y b d)
unfolding write_glyph
drawn-KnowsPlace w x y b d = (refl, refl)

pub drawn-KnowsStyle :
    (w x y : ℕ) (b : Cell) (d : Display)
    → KnowsStyle (some (b.fg, (b.bg, b.attr))) (drawn w x y b d)
unfolding write_glyph
drawn-KnowsStyle w x y b d = (refl, refl, refl)
