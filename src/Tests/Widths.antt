-- ===== src/Tests/Widths.antt =====
-- Runs of src/utf8width.h.
use boggart.Base.{ℕ, ◌+◌, ◌≤◌, ◌<◌, ◌≡◌, ◌⊎◌, List, [], ◌∷◌, length, take, drop}
use boggart.Base.Int.{pos}
use boggart.Columns.Width.{bog_cp_width, width_of, bog_cp_width-eq}
use boggart.Columns.Text.{bog_utf8_next, bog_str_width, bog_str_take}
use boggart.Columns.Text.Taken.{bog_str_take-longest}

bog_cp_width-eq_example : bog_cp_width 0x4E2D ≡ width_of 0x4E2D
bog_cp_width-eq_example = bog_cp_width-eq 0x4E2D

-- U+4E2D and an `a`, in two columns
abbrev middle_a : List ℕ
middle_a = 0xE4 ∷ 0xB8 ∷ 0xAD ∷ 97 ∷ []

bog_str_take-longest_example :
    let (n, used) = bog_str_take middle_a (pos 2) in
    (used ≤ 2)
    × (n ≤ length middle_a)
    × (bog_str_width (take n middle_a) ≡ used)
    × (bog_str_width middle_a ≡ used + bog_str_width (drop n middle_a))
    × ((n ≡ length middle_a) ⊎ (2 < used + bog_cp_width (bog_utf8_next (drop n middle_a)).0))
bog_str_take-longest_example = bog_str_take-longest middle_a 2
