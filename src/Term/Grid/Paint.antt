-- ===== src/Term/Grid/Paint.antt =====
-- `tc_set` of src/termctl.c keeps the two halves of wide glyphs together, but for one case.
use boggart.Base.{
  ℕ, zero, suc, ◌+◌, ◌-◌, ◌%◌, ◌<◌, ◌≡◌, refl, List, [], ◌∷◌, ltb, leb, ◌==◌, ◌&&◌, get_or, set,
  length, length-set, arith, if◌then◌else◌,
}
use boggart.Term.Width.{tc_wcwidth}
use boggart.Term.Grid.{Cell, blank_cell, paint, clear_left, clear_right, place}

abbrev pub cell : List Cell → ℕ → Cell
cell b i = get_or b i blank_cell

abbrev pub ch_at : List Cell → ℕ → ℕ
ch_at b i = (get_or b i blank_cell).ch

abbrev pub WideAt : List Cell → ℕ → Type 0
WideAt b i = tc_wcwidth (ch_at b i) ≡ 2

-- Cell `i` of rows of `w` cells: a right half has its left half before it, in the same row; a wide
-- glyph has its right half behind it, in the same row.
pub record IsPaired (w : ℕ) (b : List Cell) (i : ℕ) : Type 0 where
  pub right_half : ch_at b i ≡ 0 → (0 < i % w) × WideAt b (i - 1)
  pub left_half : WideAt b i → (i % w + 1 < w) × (ch_at b (i + 1) ≡ 0)

pub get_or-set_if :
    (xs : List Cell) (i j : ℕ) (v : Cell)
    → i < length xs
    → get_or (set xs i v) j blank_cell ≡ (if i == j then v else get_or xs j blank_cell)
get_or-set_if [] i j v h = absurd (omega arith)
get_or-set_if (x ∷ xs) zero zero v h = refl
get_or-set_if (x ∷ xs) zero (suc j) v h = ground arith
get_or-set_if (x ∷ xs) (suc i) zero v h = ground arith
get_or-set_if (x ∷ xs) (suc i) (suc j) v h = ground (arith, get_or-set_if xs i j v)

length-clear_left : (x i : ℕ) (b : List Cell) → length (clear_left x i b) ≡ length b
unfolding clear_left
length-clear_left x i b = ground (arith, length-set b (i - 1) blank_cell)

length-clear_right : (w x i : ℕ) (b : List Cell) → length (clear_right w x i b) ≡ length b
unfolding clear_right
length-clear_right w x i b = ground (arith, length-set b (i + 1) blank_cell)

length-place :
    (w x i width : ℕ) (c : Cell) (b : List Cell) → length (place w x i width c b) ≡ length b
unfolding place
length-place w x i width c b = ground (
  arith,
  length-set b i c,
  length-set (set b i c) (i + 1) (record c { ch = 0 }),
  length-set (set b i c) i (record c { ch = b' ' }),
)

pub length-paint :
    (w x i width : ℕ) (c : Cell) (b : List Cell) → length (paint w x i width c b) ≡ length b
unfolding paint
length-paint w x i width c b = ground (
  arith,
  length-place w x i width c (clear_right w x i (clear_left x i b)),
  length-clear_right w x i (clear_left x i b),
  length-clear_left x i b,
)

-- The characters after each store.
ch_at-clear_left :
    (x i : ℕ) (b : List Cell) (j : ℕ)
    → i < length b
    → ch_at (clear_left x i b) j
      ≡ (if (ch_at b i == 0 && ltb 0 x) && i - 1 == j then b' ' else ch_at b j)
unfolding clear_left
ch_at-clear_left x i b j h = ground (arith, get_or-set_if b (i - 1) j blank_cell)

ch_at-clear_right :
    (w x i : ℕ) (b : List Cell) (j : ℕ)
    → (x + 1 < w → i + 1 < length b)
    → ch_at (clear_right w x i b) j ≡ (
        if (ltb (x + 1) w && (ch_at b (i + 1) == 0 && tc_wcwidth (ch_at b i) == 2)) && i + 1 == j
        then b' '
        else ch_at b j)
unfolding clear_right
ch_at-clear_right w x i b j h = ground (arith, get_or-set_if b (i + 1) j blank_cell)

ch_at-place :
    (w x i width : ℕ) (c : Cell) (b : List Cell) (j : ℕ)
    → i < length b
    → (x + 1 < w → i + 1 < length b)
    → ch_at (place w x i width c b) j ≡ (
        if i == j
        then (if width == 2 && leb w (x + 1) then b' ' else c.ch)
        else (if (width == 2 && ltb (x + 1) w) && i + 1 == j then 0 else ch_at b j))
unfolding place
ch_at-place w x i width c b j h k = ground (
  arith,
  length-set b i c,
  get_or-set_if b i j c,
  get_or-set_if (set b i c) (i + 1) j (record c { ch = 0 }),
  get_or-set_if (set b i c) i j (record c { ch = b' ' }),
)

-- The character of cell `j` after `paint`.
unfoldable pub painted : ℕ → ℕ → ℕ → ℕ → ℕ → List Cell → ℕ → ℕ
painted w x i width cp b j =
    if i == j
    then (if width == 2 && leb w (x + 1) then b' ' else cp)
    else (if (width == 2 && ltb (x + 1) w) && i + 1 == j
        then 0
        else (if (ltb (x + 1) w && (ch_at b (i + 1) == 0 && tc_wcwidth (ch_at b i) == 2))
              && i + 1 == j
            then b' '
            else (if (ch_at b i == 0 && ltb 0 x) && i - 1 == j then b' ' else ch_at b j)))

pub ch_at-paint :
    (w x i width : ℕ) (c : Cell) (b : List Cell) (j : ℕ)
    → i < length b
    → (x + 1 < w → i + 1 < length b)
    → (0 < x → 0 < i)
    → ch_at (paint w x i width c b) j ≡ painted w x i width c.ch b j
unfolding paint painted
ch_at-paint w x i width c b j h k l = ground (
  arith,
  length-clear_left x i b,
  length-clear_right w x i (clear_left x i b),
  ch_at-place w x i width c (clear_right w x i (clear_left x i b)) j,
  ch_at-clear_right w x i (clear_left x i b) j,
  ch_at-clear_left x i b j,
  ch_at-clear_left x i b i,
  ch_at-clear_left x i b (i + 1),
)
