-- ===== src/Base/Bits.antt =====
-- `|` of disjoint bit fields and `&` with a low mask, as arithmetic.
use Prim.Native.Nat.{ℕ, zero, suc, ◌+◌, ◌*◌, ◌/◌, ◌%◌, ◌≤◌, ◌<◌, max, min}
use Prim.Native.Nat.{digits, bit_or, bit_and, bit_or-bitwise, bit_and-bitwise}
use mathlib.Core.Path.{◌≡◌, refl, ap}
use native.Mathlib.Omega.{arith}

-- Both operations run through the binary digits on fuel; the amount of it does not matter.
module _ (end : ℕ → ℕ) (join : ℕ → ℕ → ℕ) where
  enough_digits : (x k l y : ℕ) → x ≤ k → x ≤ l → digits end join k x y ≡ digits end join l x y
  enough_digits zero zero zero y p q = refl
  enough_digits zero zero (suc l) y p q = refl
  enough_digits zero (suc k) zero y p q = refl
  enough_digits zero (suc k) (suc l) y p q = refl
  enough_digits (suc x) zero l y p q = absurd (omega arith)
  enough_digits (suc x) (suc k) zero y p q = absurd (omega arith)
  enough_digits (suc x) (suc k) (suc l) y p q =
      omega (arith, enough_digits (suc x / 2) k l (y / 2) (omega arith) (omega arith))

zero-bit_or : (b : ℕ) → bit_or 0 b ≡ b
zero-bit_or b = bit_or-bitwise 0 b

bit_or_digit : (a b : ℕ) → bit_or a b ≡ bit_or (a / 2) (b / 2) * 2 + max (a % 2) (b % 2)
bit_or_digit zero b = omega (arith, zero-bit_or b, zero-bit_or (b / 2))
bit_or_digit (suc a) b = omega (
  arith,
  bit_or-bitwise (suc a) b,
  bit_or-bitwise (suc a / 2) (b / 2),
  enough_digits (λ y. y) max (suc a / 2) a (suc a / 2) (b / 2) (omega arith) (omega arith),
)

bit_or-zero_below : (n a : ℕ) → a ≤ n → bit_or a 0 ≡ a
bit_or-zero_below n zero h = refl
bit_or-zero_below zero (suc a) h = absurd (omega arith)
bit_or-zero_below (suc n) (suc a) h =
    omega (arith, bit_or_digit (suc a) 0, bit_or-zero_below n (suc a / 2) (omega arith))

-- One zero digit of the left operand lets the digit of the right one through.
bit_or_twice : (q r : ℕ) → bit_or (q * 2) r ≡ bit_or q (r / 2) * 2 + r % 2
bit_or_twice q r = omega (arith, bit_or_digit (q * 2) r, ap (λ (x : ℕ). bit_or x (r / 2)) halve)
  where
    halve : q * 2 / 2 ≡ q
    halve = omega arith

bit_or_shift3 : (q r : ℕ) → bit_or (q * 8) r ≡ bit_or q (r / 8) * 8 + r % 8
bit_or_shift3 q r = omega (
  arith,
  bit_or_twice (q * 4) r,
  bit_or_twice (q * 2) (r / 2),
  bit_or_twice q (r / 2 / 2),
  ap (λ (x : ℕ). bit_or x r) e₈,
  ap (λ (x : ℕ). bit_or x (r / 2)) e₄,
  ap (λ (x : ℕ). bit_or q x) e₂,
)
  where
    e₈ : q * 8 ≡ q * 4 * 2
    e₈ = omega arith

    e₄ : q * 4 ≡ q * 2 * 2
    e₄ = omega arith

    e₂ : r / 2 / 2 / 2 ≡ r / 8
    e₂ = omega arith

-- `(q << 6) | r` is a sum when `r` has six bits.
pub bit_or_shift6 : (q r : ℕ) → r < 64 → bit_or (q * 64) r ≡ q * 64 + r
bit_or_shift6 q r h = omega (
  arith,
  bit_or_shift3 (q * 8) r,
  bit_or_shift3 q (r / 8),
  bit_or-zero_below q q (omega arith),
  ap (λ (x : ℕ). bit_or x r) e₆₄,
  ap (λ (x : ℕ). bit_or q x) e₀,
)
  where
    e₆₄ : q * 64 ≡ q * 8 * 8
    e₆₄ = omega arith

    e₀ : r / 8 / 8 ≡ 0
    e₀ = omega arith

pub bit_or_over6 : (q r : ℕ) → bit_or (q * 64) r ≡ bit_or q (r / 64) * 64 + r % 64
bit_or_over6 q r = omega (
  arith,
  bit_or_shift3 (q * 8) r,
  bit_or_shift3 q (r / 8),
  ap (λ (x : ℕ). bit_or x r) e₆₄,
  ap (λ (x : ℕ). bit_or q x) e₈,
)
  where
    e₆₄ : q * 64 ≡ q * 8 * 8
    e₆₄ = omega arith

    e₈ : r / 8 / 8 ≡ r / 64
    e₈ = omega arith

-- Two fields above six and twelve low bits.
pub bit_or_fields6 : (x y : ℕ) → y < 64 → bit_or (x * 4096) (y * 64) ≡ (x * 64 + y) * 64
bit_or_fields6 x y h = omega (
  arith,
  bit_or_over6 (x * 64) (y * 64),
  bit_or_shift6 x y h,
  ap (λ (k : ℕ). bit_or k (y * 64)) e₁,
  ap (λ (k : ℕ). bit_or (x * 64) k) e₂,
)
  where
    e₁ : x * 4096 ≡ x * 64 * 64
    e₁ = omega arith

    e₂ : y * 64 / 64 ≡ y
    e₂ = omega arith

pub bit_or_fields12 : (x y : ℕ) → y < 64 → bit_or (x * 262144) (y * 4096) ≡ (x * 64 + y) * 4096
bit_or_fields12 x y h = omega (
  arith,
  bit_or_over6 (x * 4096) (y * 4096),
  bit_or_fields6 x y h,
  ap (λ (k : ℕ). bit_or k (y * 4096)) e₁,
  ap (λ (k : ℕ). bit_or (x * 4096) k) e₂,
)
  where
    e₁ : x * 262144 ≡ x * 4096 * 64
    e₁ = omega arith

    e₂ : y * 4096 / 64 ≡ y * 64
    e₂ = omega arith

-- The last digit of `&`, and the others.
and_last : (x y : ℕ) → bit_and x y ≡ min (x % 2) (y % 2) + 2 * bit_and (x / 2) (y / 2)
and_last zero y = omega (arith, bit_and-bitwise 0 (y / 2), bit_and-bitwise 0 y)
and_last (suc x) y = omega (
  arith,
  enough_digits (λ z. zero) min (suc x / 2) (suc x / 2) x (y / 2) (omega arith) (omega arith),
  bit_and-bitwise (suc x / 2) (y / 2),
  bit_and-bitwise (suc x) y,
)

none_left : (x k : ℕ) → x ≤ k → bit_and x 0 ≡ 0
none_left zero k p = refl
none_left (suc x) zero p = absurd (omega arith)
none_left (suc x) (suc k) p =
    omega (arith, none_left (suc x / 2) k (omega arith), and_last (suc x) 0)

pub bit_and_3 : (a : ℕ) → bit_and a 3 ≡ a % 4
bit_and_3 a =
    omega (arith, and_last a 3, and_last (a / 2) 1, none_left (a / 2 / 2) (a / 2 / 2) (omega arith))

-- Each mask is one digit longer than the one before it.
bit_and_7 : (a : ℕ) → bit_and a 7 ≡ a % 8
bit_and_7 a = omega (arith, and_last a 7, bit_and_3 (a / 2))

bit_and_15 : (a : ℕ) → bit_and a 15 ≡ a % 16
bit_and_15 a = omega (arith, and_last a 15, bit_and_7 (a / 2))

bit_and_31 : (a : ℕ) → bit_and a 31 ≡ a % 32
bit_and_31 a = omega (arith, and_last a 31, bit_and_15 (a / 2))

pub bit_and_63 : (a : ℕ) → bit_and a 63 ≡ a % 64
bit_and_63 a = omega (arith, and_last a 63, bit_and_31 (a / 2))

bit_and_127 : (a : ℕ) → bit_and a 127 ≡ a % 128
bit_and_127 a = omega (arith, and_last a 127, bit_and_63 (a / 2))

bit_and_255 : (a : ℕ) → bit_and a 255 ≡ a % 256
bit_and_255 a = omega (arith, and_last a 255, bit_and_127 (a / 2))

bit_and_511 : (a : ℕ) → bit_and a 511 ≡ a % 512
bit_and_511 a = omega (arith, and_last a 511, bit_and_255 (a / 2))

bit_and_1023 : (a : ℕ) → bit_and a 1023 ≡ a % 1024
bit_and_1023 a = omega (arith, and_last a 1023, bit_and_511 (a / 2))

bit_and_2047 : (a : ℕ) → bit_and a 2047 ≡ a % 2048
bit_and_2047 a = omega (arith, and_last a 2047, bit_and_1023 (a / 2))

bit_and_4095 : (a : ℕ) → bit_and a 4095 ≡ a % 4096
bit_and_4095 a = omega (arith, and_last a 4095, bit_and_2047 (a / 2))

pub bit_and_8191 : (a : ℕ) → bit_and a 8191 ≡ a % 8192
bit_and_8191 a = omega (arith, and_last a 8191, bit_and_4095 (a / 2))
