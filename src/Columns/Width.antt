-- ===== src/Columns/Width.antt =====
-- src/utf8width.h, `bog_cp_width`: the columns of a code point.
use boggart.Base.{
  Bool-cases, inl, inr, same_table, tables_eq, ℕ, ◌≤◌, ◌≡◌, refl, ltb, leb, ◌==◌, ◌&&◌, Bool, true,
  if◌then◌else◌, arith,
}
use boggart.Columns.Tables.{zero_table, wide_table}
use boggart.Columns.Search.{bog_in_ranges, in_some_range, ordered, bog_in_ranges-eq}

unfoldable pub bog_cp_width : ℕ → ℕ
unfolding bog_in_ranges
bog_cp_width cp =
    if leb 0x20 cp && ltb cp 0x7F
    then 1
    else if cp == 0
    then 0
    else if bog_in_ranges zero_table cp
    then 0
    else if bog_in_ranges wide_table cp
    then 2
    else 1

-- The reference: no shortcut for ASCII and no binary search.
unfoldable pub width_of : ℕ → ℕ
width_of cp =
    if in_some_range zero_table cp then 0 else if in_some_range wide_table cp then 2 else 1

-- Both tables rise, and their ranges do not meet.
zero_table-ordered : ordered 0 zero_table ≡ true
unfolding ordered
zero_table-ordered = refl

wide_table-ordered : ordered 0 wide_table ≡ true
unfolding ordered
wide_table-ordered = refl

low_widths : same_table 0x7F bog_cp_width width_of ≡ true
unfolding same_table bog_cp_width width_of in_some_range
low_widths = refl

-- The width by the shortcut and the binary searches is the width by looking through both tables.
pub bog_cp_width-eq : (cp : ℕ) → bog_cp_width cp ≡ width_of cp
unfolding bog_cp_width width_of
bog_cp_width-eq cp = elim (Bool-cases (ltb cp 0x7F)) [
  | inl e ↦ tables_eq 0x7F bog_cp_width width_of cp low_widths (ground arith)
  | inr e ↦
      high cp (bog_in_ranges zero_table cp) (bog_in_ranges wide_table cp)
        (in_some_range zero_table cp) (in_some_range wide_table cp) (ground arith)
        (bog_in_ranges-eq zero_table cp zero_table-ordered)
        (bog_in_ranges-eq wide_table cp wide_table-ordered)
]
  where
    high :
        (cp : ℕ) (a b c d : Bool)
        → 0x7F ≤ cp
        → a ≡ c
        → b ≡ d
        → ◌≡◌ {A = ℕ}
            (if leb 0x20 cp && ltb cp 0x7F
              then 1
              else if cp == 0
              then 0
              else if a
              then 0
              else if b
              then 2
              else 1)
            (if c then 0 else if d then 2 else 1)
    high cp a b c d h e f = ground arith

pub bog_cp_width-le : (cp : ℕ) → bog_cp_width cp ≤ 2
unfolding bog_cp_width
bog_cp_width-le cp =
    choices (leb 0x20 cp && ltb cp 0x7F) (cp == 0) (bog_in_ranges zero_table cp)
      (bog_in_ranges wide_table cp)
  where
    choices :
        (a b c d : Bool)
        → (if a then 1 else if b then 0 else if c then 0 else if d then 2 else 1) ≤ 2
    choices a b c d = ground arith
