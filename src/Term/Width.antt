-- ===== src/Term/Width.antt =====
-- src/termctl.c, `tc_wcwidth`.
use boggart.Base.{
  ℕ, ltb, leb, ◌==◌, ◌&&◌, ◌||◌, ◌≡◌, ◌≤◌, arith, refl, Bool, false, List, [], ◌∷◌, if◌then◌else◌,
}

-- `(cp >= lo && cp <= hi) || ...` over a table of ranges.
unfoldable pub in_ranges : List (ℕ × ℕ) → ℕ → Bool
in_ranges [] cp = false
in_ranges ((lo, hi) ∷ rs) cp = (leb lo cp && leb cp hi) || in_ranges rs cp

-- Combining marks and other code points of no width.
abbrev pub zero_ranges : List (ℕ × ℕ)
zero_ranges =
    (0x0300, 0x036F)
    ∷ (0x0483, 0x0489)
    ∷ (0x0591, 0x05BD)
    ∷ (0x0610, 0x061A)
    ∷ (0x064B, 0x065F)
    ∷ (0x0670, 0x0670)
    ∷ (0x06D6, 0x06DC)
    ∷ (0x0E31, 0x0E31)
    ∷ (0x1AB0, 0x1AFF)
    ∷ (0x1DC0, 0x1DFF)
    ∷ (0x20D0, 0x20FF)
    ∷ (0xFE20, 0xFE2F)
    ∷ (0x200B, 0x200B)
    ∷ (0x200C, 0x200C)
    ∷ (0x200D, 0x200D)
    ∷ (0xFEFF, 0xFEFF)
    ∷ (0x0300, 0x036F)
    ∷ (0x1160, 0x11FF)
    ∷ []

-- East Asian wide and fullwidth, and emoji.
abbrev pub wide_ranges : List (ℕ × ℕ)
wide_ranges =
    (0x1100, 0x115F)
    ∷ (0x2329, 0x2329)
    ∷ (0x232A, 0x232A)
    ∷ (0x2E80, 0x303E)
    ∷ (0x3041, 0x33FF)
    ∷ (0x3400, 0x4DBF)
    ∷ (0x4E00, 0x9FFF)
    ∷ (0xA000, 0xA4CF)
    ∷ (0xAC00, 0xD7A3)
    ∷ (0xF900, 0xFAFF)
    ∷ (0xFE10, 0xFE19)
    ∷ (0xFE30, 0xFE6F)
    ∷ (0xFF00, 0xFF60)
    ∷ (0xFFE0, 0xFFE6)
    ∷ (0x1F300, 0x1FAFF)
    ∷ (0x1F000, 0x1F0FF)
    ∷ (0x20000, 0x3FFFD)
    ∷ []

unfoldable pub tc_wcwidth : ℕ → ℕ
unfolding in_ranges
tc_wcwidth cp =
    if cp == 0
    then 0
    else if ltb cp 0x20 || (leb 0x7F cp && ltb cp 0xA0)
    then 0
    else if in_ranges zero_ranges cp
    then 0
    else if in_ranges wide_ranges cp
    then 2
    else 1

pub tc_wcwidth-nul : tc_wcwidth 0 ≡ 0
unfolding tc_wcwidth
tc_wcwidth-nul = refl

pub tc_wcwidth-space : tc_wcwidth b' ' ≡ 1
unfolding tc_wcwidth
tc_wcwidth-space = refl

pub tc_wcwidth-sentinel : tc_wcwidth 0xFFFFFFFF ≡ 1
unfolding tc_wcwidth
tc_wcwidth-sentinel = refl

two_at_most :
    (a b c d : Bool) → (if a then 0 else if b then 0 else if c then 0 else if d then 2 else 1) ≤ 2
two_at_most a b c d = ground arith

pub tc_wcwidth-le : (cp : ℕ) → tc_wcwidth cp ≤ 2
unfolding tc_wcwidth
tc_wcwidth-le cp =
    two_at_most (cp == 0) (ltb cp 0x20 || (leb 0x7F cp && ltb cp 0xA0)) (in_ranges zero_ranges cp)
      (in_ranges wide_ranges cp)
