-- ===== src/Base/Bytes.antt =====
-- `strcmp` of two C strings, and `memchr`, on lists of bytes.
use Prim.Native.Nat.{ℕ, suc, ◌<◌}
use mathlib.Core.Path.{◌≡◌}
use mathlib.Core.Bool.{Bool, true, false, ◌&&◌}
use mathlib.Core.Logic.{◌↔◌, ◌⊎◌, inl, inr}
use mathlib.Core.List.{List, [], ◌∷◌}
use native.Mathlib.Omega.{arith}
use mathlib.Core.Option.{Option, none, some}
use boggart.Base.Lists.{length}
use boggart.Base.Tests.{◌==◌, if◌then◌else◌, Option-cases, Bool-cases}

unfoldable pub bytes_eq : List ℕ → List ℕ → Bool
bytes_eq [] [] = true
bytes_eq [] (y ∷ ys) = false
bytes_eq (x ∷ xs) [] = false
bytes_eq (x ∷ xs) (y ∷ ys) = x == y && bytes_eq xs ys

pub bytes_eq_iff : (xs ys : List ℕ) → (bytes_eq xs ys ≡ true) ↔ (xs ≡ ys)
unfolding bytes_eq
bytes_eq_iff [] [] = ground arith
bytes_eq_iff [] (y ∷ ys) = ground arith
bytes_eq_iff (x ∷ xs) [] = ground arith
bytes_eq_iff (x ∷ xs) (y ∷ ys) = ground (arith, bytes_eq_iff xs ys)

-- `memchr`: the index of the first such byte
unfoldable pub memchr : ℕ → List ℕ → Option ℕ
memchr c [] = none
memchr c (x ∷ xs) =
    let later : Option ℕ = elim (memchr c xs) [ none ↦ none | some k ↦ some (suc k) ] in
    if x == c then some 0 else later

-- Where the byte is found: here, or further on
pub memchr-cases :
    (c x : ℕ) (xs : List ℕ) (k : ℕ)
    → memchr c (x ∷ xs) ≡ some k
    → (((x == c) ≡ true) × (k ≡ 0))
      ⊎ ((j : ℕ) × ((x == c) ≡ false) × (memchr c xs ≡ some j) × (k ≡ suc j))
unfolding memchr
memchr-cases c x xs k e = elim (Option-cases (memchr c xs)) [
  | inl h ↦ elim (Bool-cases (x == c)) [
    | inl t ↦ inl (ground arith)
    | inr t ↦ absurd (ground arith)
  ]
  | inr (j, h) ↦ elim (Bool-cases (x == c)) [
    | inl t ↦ inl (ground arith)
    | inr t ↦ inr (j, t, h, ground arith)
  ]
]

pub memchr-lt : (c : ℕ) (xs : List ℕ) (k : ℕ) → memchr c xs ≡ some k → k < length xs
unfolding memchr
memchr-lt c [] k e = cc (e)
memchr-lt c (x ∷ xs) k e = elim (memchr-cases c x xs k e) [
  | inl (t, z) ↦ omega arith
  | inr (j, t, h, z) ↦ omega (arith, memchr-lt c xs j h)
]
