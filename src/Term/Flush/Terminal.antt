-- ===== src/Term/Flush/Terminal.antt =====
-- A terminal that reads the bytes that `tc_flush` of src/termctl.c writes, one after another: UTF-8, the
-- cursor position (CSI row ; column H) and the graphic rendition (CSI ... m) of ECMA-48, with the colours of
-- 256. Its rows and columns are counted from 1 on the wire.
use boggart.Base.{
  ℕ, ◌+◌, ◌-◌, ◌*◌, ◌==◌, leb, ◌&&◌, bit_or, List, [], ◌∷◌, ◌++◌, length, if◌then◌else◌,
}
use boggart.Base.Int.{pos, negsuc}
use boggart.Term.Utf8.{utf8_len, utf8_decode}
use boggart.Term.Flush.Display.{Display, write_glyph}

-- What it waits for: `control` has the numbers that are read, and the one that is being read; `inside` has
-- the bytes of a character, and how many there are to come.
pub data Mode : Type 0 where
  plain : Mode
  escape : Mode
  control : List ℕ → ℕ → Mode
  inside : List ℕ → ℕ → Mode

-- One number of a rendition. The first component is the number that decides what this one means, or 0.
unfoldable pub dye : ℕ → ℕ × Display → ℕ × Display
dye p (k, d) =
    if k == 38
    then (if p == 5 then (385, d) else (0, d))
    else if k == 48
    then (if p == 5 then (485, d) else (0, d))
    else if k == 385
    then (0, record d { fg = pos p })
    else if k == 485
    then (0, record d { bg = pos p })
    else if p == 0
    then (0, record d { fg = negsuc 0; bg = negsuc 0; attr = 0 })
    else if p == 1
    then (0, record d { attr = bit_or d.attr 1 })
    else if p == 2
    then (0, record d { attr = bit_or d.attr 2 })
    else if p == 4
    then (0, record d { attr = bit_or d.attr 4 })
    else if p == 7
    then (0, record d { attr = bit_or d.attr 8 })
    else if p == 39
    then (0, record d { fg = negsuc 0 })
    else if p == 49
    then (0, record d { bg = negsuc 0 })
    else (p, d)

unfoldable pub dye_all : List ℕ → ℕ × Display → ℕ × Display
unfolding dye
dye_all [] s = s
dye_all (p ∷ ps) s = dye_all ps (dye p s)

abbrev pub move_to : List ℕ → Display → Display
move_to (r ∷ c ∷ []) d = record d { col = c - 1; row = r - 1 }
move_to _ d = d

-- The end of a control sequence
unfoldable pub finish : ℕ → List ℕ → Display → Display
unfolding dye_all
finish c ps d = if c == b'm' then (dye_all ps (0, d)).1 else if c == b'H' then move_to ps d else d

unfoldable pub feed_byte : ℕ → ℕ → Mode → Display → Mode × Display
unfolding finish
feed_byte w c plain d =
    if c == 0x1b
    then (escape, d)
    else if leb (utf8_len c) 1
    then (plain, write_glyph w (utf8_decode (c ∷ []) 1) d)
    else (inside (c ∷ []) (utf8_len c - 1), d)
feed_byte w c escape d = if c == b'[' then (control [] 0, d) else (plain, d)
feed_byte w c (control ps n) d =
    if leb b'0' c && leb c b'9'
    then (control ps (n * 10 + (c - b'0')), d)
    else if c == b';'
    then (control (ps ++ (n ∷ [])) 0, d)
    else (plain, finish c (ps ++ (n ∷ [])) d)
feed_byte w c (inside bs left) d =
    if left == 1
    then (plain, write_glyph w (utf8_decode (bs ++ (c ∷ [])) (length (bs ++ (c ∷ [])))) d)
    else (inside (bs ++ (c ∷ [])) (left - 1), d)

unfoldable pub feed : ℕ → List ℕ → Mode × Display → Mode × Display
unfolding feed_byte
feed w [] s = s
feed w (c ∷ cs) s = feed w cs (feed_byte w c s.0 s.1)
