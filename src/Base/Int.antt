-- ===== src/Base/Int.antt =====
-- Signed integers over the native numbers, under the library's names.
use Prim.Native.Nat.{ℕ, suc, ◌+◌, ◌-◌, ◌≤◌, ◌<◌}
use mathlib.Core.Path.{◌≡◌, ap}
use native.Mathlib.Omega.{arith}
use mathlib.Core.Bool.{Bool}
use boggart.Base.Tests.{ltb, leb, if◌then◌else◌, ◌==◌}

-- `negsuc n` is -(n + 1).
pub data ℤ : Type 0 where
  pos : ℕ → ℤ
  negsuc : ℕ → ℤ

abbrev pub pos_part : ℤ → ℕ
pos_part (pos n) = n
pos_part (negsuc n) = 0

abbrev pub neg_part : ℤ → ℕ
neg_part (pos n) = 0
neg_part (negsuc n) = suc n

-- a - b, as an integer.
abbrev pub sub_ℕ : ℕ → ℕ → ℤ
sub_ℕ a b = if leb b a then pos (a - b) else negsuc (b - a - 1)

abbrev pub ltb_ℤ : ℤ → ℤ → Bool
ltb_ℤ a b = ltb (pos_part a + neg_part b) (pos_part b + neg_part a)

abbrev pub eqb_ℤ : ℤ → ℤ → Bool
eqb_ℤ a b = pos_part a + neg_part b == pos_part b + neg_part a

abbrev pub leb_ℤ : ℤ → ℤ → Bool
leb_ℤ a b = leb (pos_part a + neg_part b) (pos_part b + neg_part a)

-- a ≤ b and a < b, as inequations of numbers.
abbrev pub Le : ℤ → ℤ → Type 0
Le a b = pos_part a + neg_part b ≤ pos_part b + neg_part a

abbrev pub Lt : ℤ → ℤ → Type 0
Lt a b = pos_part a + neg_part b < pos_part b + neg_part a

unfoldable pub add_ℤ : ℤ → ℤ → ℤ
add_ℤ a b = sub_ℕ (pos_part a + pos_part b) (neg_part a + neg_part b)

unfoldable pub subtract_ℤ : ℤ → ℤ → ℤ
subtract_ℤ a b = sub_ℕ (pos_part a + neg_part b) (neg_part a + pos_part b)

abbrev pub max_ℤ : ℤ → ℤ → ℤ
max_ℤ a b = if ltb_ℤ b a then a else b

abbrev pub min_ℤ : ℤ → ℤ → ℤ
min_ℤ a b = if ltb_ℤ a b then a else b

pub sub_ℕ-parts : (m n : ℕ) → pos_part (sub_ℕ m n) + n ≡ m + neg_part (sub_ℕ m n)
sub_ℕ-parts m n = ground arith

pub add_ℤ-parts :
    (a b : ℤ)
    → pos_part (add_ℤ a b) + (neg_part a + neg_part b)
      ≡ pos_part a + pos_part b + neg_part (add_ℤ a b)
unfolding add_ℤ
add_ℤ-parts a b = sub_ℕ-parts (pos_part a + pos_part b) (neg_part a + neg_part b)

pub subtract_ℤ-parts :
    (a b : ℤ)
    → pos_part (subtract_ℤ a b) + (neg_part a + pos_part b)
      ≡ pos_part a + neg_part b + neg_part (subtract_ℤ a b)
unfolding subtract_ℤ
subtract_ℤ-parts a b = sub_ℕ-parts (pos_part a + neg_part b) (neg_part a + pos_part b)

value_ext : (a b : ℤ) → pos_part a + neg_part b ≡ pos_part b + neg_part a → a ≡ b
value_ext (pos a) (pos b) e = ap pos (omega arith)
value_ext (pos a) (negsuc b) e = absurd (omega arith)
value_ext (negsuc a) (pos b) e = absurd (omega arith)
value_ext (negsuc a) (negsuc b) e = ap negsuc (omega arith)

pub add-subtract : (a b : ℤ) → add_ℤ a (subtract_ℤ b a) ≡ b
add-subtract a b =
    value_ext (add_ℤ a (subtract_ℤ b a)) b
      (omega (arith, add_ℤ-parts a (subtract_ℤ b a), subtract_ℤ-parts b a))
