-- ===== src/Base/Same.antt =====
-- `^` is zero for the same numbers only, and `|` for two zeros.
use Prim.Native.Nat.{ℕ, zero, suc, ◌/◌, ◌%◌, ◌≤◌, max}
use Prim.Native.Nat.{digits, differ, bit_or, bit_xor, bit_or-bitwise, bit_xor-bitwise}
use mathlib.Core.Path.{◌≡◌, refl, ◌∙◌, sym}
use native.Mathlib.Omega.{arith}

differ-same : (x y : ℕ) → differ x y ≡ 0 → x ≡ y
differ-same zero y e = omega arith
differ-same (suc x) zero e = omega arith
differ-same (suc x) (suc y) e = omega (arith, differ-same x y e)

differ-zero : (x : ℕ) → differ x x ≡ 0
differ-zero zero = refl
differ-zero (suc x) = differ-zero x

or_zero : (n a b : ℕ) → a ≤ n → digits (λ b. b) max n a b ≡ 0 → (a ≡ 0) × (b ≡ 0)
or_zero zero a b h e = (omega arith, e)
or_zero (suc n) zero b h e = (refl, e)
or_zero (suc n) (suc a) b h e =
    let (p, q) = or_zero n (suc a / 2) (b / 2) (omega arith) (omega arith) in
    (omega arith, omega arith)

xor_same : (n a b : ℕ) → a ≤ n → digits (λ b. b) differ n a b ≡ 0 → a ≡ b
xor_same zero a b h e = omega arith
xor_same (suc n) zero b h e = sym e
xor_same (suc n) (suc a) b h e =
    let p = xor_same n (suc a / 2) (b / 2) (omega arith) (omega arith) in
    let q = differ-same (suc a % 2) (b % 2) (omega arith) in omega arith

xor_zero : (n a : ℕ) → a ≤ n → digits (λ b. b) differ n a a ≡ 0
xor_zero zero a h = omega arith
xor_zero (suc n) zero h = refl
xor_zero (suc n) (suc a) h =
    omega (arith, xor_zero n (suc a / 2) (omega arith), differ-zero (suc a % 2))

pub bit_or_zero : (a b : ℕ) → bit_or a b ≡ 0 → (a ≡ 0) × (b ≡ 0)
bit_or_zero a b e = or_zero a a b (omega arith) (sym (bit_or-bitwise a b) ∙ e)

pub bit_xor_same : (a b : ℕ) → bit_xor a b ≡ 0 → a ≡ b
bit_xor_same a b e = xor_same a a b (omega arith) (sym (bit_xor-bitwise a b) ∙ e)

pub bit_xor_self : (a : ℕ) → bit_xor a a ≡ 0
bit_xor_self a = bit_xor-bitwise a a ∙ xor_zero a a (omega arith)
