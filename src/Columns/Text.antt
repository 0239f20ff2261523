-- ===== src/Columns/Text.antt =====
-- src/utf8width.h: `bog_utf8_next`, `bog_str_width` and `bog_str_take`, with the end of the text given.
-- The text is the bytes from `p` to `end`.
pub mod Taken
use boggart.Base.{
  ℕ, zero, suc, ◌+◌, ◌-◌, ◌*◌, ◌^◌, ltb, leb, ◌==◌, ◌||◌, not, Bool, true, false, List, [], ◌∷◌,
  bit_and, bit_or, drop, length, if◌then◌else◌,
}
use boggart.Base.Int.{ℤ, pos, ltb_ℤ}
use boggart.Columns.Width.{bog_cp_width}

-- The `while (n--)` loop: the bytes behind `p`, the code point so far, and how many bytes were read.
unfoldable pub tails : ℕ → List ℕ → ℕ → ℕ → ℕ × ℕ
tails zero s res read = (res, read)
tails (suc n) [] res read = (res, read)
tails (suc n) (c ∷ s) res read =
    let on = tails n s (bit_or (res * 2 ^ 6) (bit_and c 0x3F)) (read + 1) in
    if not (bit_and c 0xC0 == 0x80) then (res, read) else on

-- The code point, and how far `p` moves. It is not called at the end of the text.
unfoldable pub bog_utf8_next : List ℕ → ℕ × ℕ
unfolding tails
bog_utf8_next [] = (0, 1)
bog_utf8_next (c ∷ s) =
    if bit_and c 0xF0 == 0xF0
    then tails 3 s (bit_and c 0x07) 1
    else if bit_and c 0xF0 == 0xE0
    then tails 2 s (bit_and c 0x0F) 1
    else if (bit_and c 0xF0 == 0xD0) || (bit_and c 0xF0 == 0xC0)
    then tails 1 s (bit_and c 0x1F) 1
    else (c, 1)

-- The loop, on fuel
unfoldable pub width_loop : ℕ → List ℕ → ℕ
width_loop zero s = 0
width_loop (suc fuel) [] = 0
width_loop (suc fuel) (c ∷ s) =
    let (cp, n) = bog_utf8_next (c ∷ s) in bog_cp_width cp + width_loop fuel (drop n (c ∷ s))

unfoldable pub bog_str_width : List ℕ → ℕ
unfolding width_loop
bog_str_width s = width_loop (length s) s

-- The loop; the value is how many bytes are taken, and their columns.
unfoldable pub take_rounds : ℕ → ℤ → ℕ → List ℕ → ℕ × ℕ
take_rounds zero cols w s = (0, w)
take_rounds (suc fuel) cols w [] = (0, w)
take_rounds (suc fuel) cols w (c ∷ s) =
    let (cp, n) = bog_utf8_next (c ∷ s) in
    let (more, used) = take_rounds fuel cols (w + bog_cp_width cp) (drop n (c ∷ s)) in
    if ltb_ℤ cols (pos (w + bog_cp_width cp)) then (0, w) else (n + more, used)

unfoldable pub bog_str_take : List ℕ → ℤ → ℕ × ℕ
unfolding take_rounds
bog_str_take s cols = take_rounds (length s) cols 0 s
