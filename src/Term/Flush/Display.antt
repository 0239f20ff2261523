-- ===== src/Term/Flush/Display.antt =====
-- A terminal that understands the output of `tc_flush` of src/termctl.c: the specification of what the
-- output means. Its characters take the columns of `tc_wcwidth`, at least one, and it does not wrap.
use boggart.Base.{
  ℕ, ◌+◌, ◌*◌, ◌%◌, ◌≡◌, refl, ◌==◌, true, List, [], ◌∷◌, ◌++◌, if◌then◌else◌, arith,
}
use boggart.Base.Int.{ℤ, pos, negsuc, eqb_ℤ}
use boggart.Term.Width.{tc_wcwidth}
use boggart.Term.Grid.{Cell, cell_eq, cell_width}
use boggart.Term.Flush.{Out, cup, sgr, glyph}

-- What it shows at each place of its rows of `w` columns, where it writes next, and how.
pub record Display : Type 0 where
  pub shows : ℕ → Cell
  pub col : ℕ
  pub row : ℕ
  pub fg : ℤ
  pub bg : ℤ
  pub attr : ℕ

-- Below 0 is the default colour.
abbrev pub term_colour : ℤ → ℤ
term_colour (pos c) = pos c
term_colour (negsuc c) = negsuc 0

abbrev pub put : (ℕ → Cell) → ℕ → Cell → ℕ → Cell
put shows i c j = if j == i then c else shows j

abbrev pub pen_cell : Display → ℕ → Cell
pen_cell d cp = record { ch = cp; fg = d.fg; bg = d.bg; attr = d.attr }

-- A wide character takes the next place too.
unfoldable pub write_glyph : ℕ → ℕ → Display → Display
write_glyph w cp d =
    let i = d.row * w + d.col in
    let one = put d.shows i (pen_cell d cp) in
    record d {
      shows = if tc_wcwidth cp == 2 then put one (i + 1) (pen_cell d 0) else one;
      col = d.col + cell_width cp;
    }

-- Only four attributes are sent.
unfoldable pub obey : ℕ → Out → Display → Display
unfolding write_glyph
obey w (cup x y) d = record d { col = x; row = y }
obey w (sgr fg bg attr) d = record d { fg = term_colour fg; bg = term_colour bg; attr = attr % 16 }
obey w (glyph cp) d = write_glyph w cp d

unfoldable pub obey_all : ℕ → List Out → Display → Display
unfolding obey
obey_all w [] d = d
obey_all w (o ∷ os) d = obey_all w os (obey w o d)

pub obey_all-append :
    (w : ℕ) (os ps : List Out) (d : Display)
    → obey_all w (os ++ ps) d ≡ obey_all w ps (obey_all w os d)
unfolding obey_all
obey_all-append w [] ps d = refl
obey_all-append w (o ∷ os) ps d = obey_all-append w os ps (obey w o d)

pub eqb_ℤ-true : (a b : ℤ) → eqb_ℤ a b ≡ true → a ≡ b
eqb_ℤ-true (pos a) (pos b) e = ground arith
eqb_ℤ-true (pos a) (negsuc b) e = ground arith
eqb_ℤ-true (negsuc a) (pos b) e = ground arith
eqb_ℤ-true (negsuc a) (negsuc b) e = ground arith

pub cell_eq-true : (a b : Cell) → cell_eq a b ≡ true → a ≡ b
unfolding cell_eq
cell_eq-true a b e = ground (arith, eqb_ℤ-true a.fg b.fg, eqb_ℤ-true a.bg b.bg)
