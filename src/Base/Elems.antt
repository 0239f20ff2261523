-- ===== src/Base/Elems.antt =====
-- The elements of lists that are put together and cut
use Prim.Native.Nat.{ℕ, zero, suc, ◌+◌, ◌≤◌, ◌<◌}
use mathlib.Core.Path.{◌≡◌, refl, ◌∙◌, ap}
use mathlib.Core.List.{List, [], ◌∷◌, ◌++◌}
use mathlib.Core.Option.{none, some}
use mathlib.Core.Logic.{◌⊎◌, inl, inr}
use native.Mathlib.Omega.{arith}
use boggart.Base.Lists.{length, get_elem?, get_or, take, drop}

module _ {ℓ} {A : Type ℓ} where
  pub get_elem?-get_or :
      (xs ys : List A) (i : ℕ) (d : A)
      → i < length xs
      → get_elem? (xs ++ ys) i ≡ some (get_or xs i d)
  get_elem?-get_or [] ys i d h = absurd (omega arith)
  get_elem?-get_or (x ∷ xs) ys zero d h = refl
  get_elem?-get_or (x ∷ xs) ys (suc i) d h = get_elem?-get_or xs ys i d (omega arith)

  pub get_elem?-past : (xs : List A) (i : ℕ) → length xs ≤ i → get_elem? xs i ≡ none
  get_elem?-past [] i h = refl
  get_elem?-past (x ∷ xs) zero h = absurd (omega arith)
  get_elem?-past (x ∷ xs) (suc i) h = get_elem?-past xs i (omega arith)

  pub get_elem?-drop : (n : ℕ) (xs : List A) → get_elem? (drop n xs) 0 ≡ get_elem? xs n
  get_elem?-drop zero xs = refl
  get_elem?-drop (suc n) [] = refl
  get_elem?-drop (suc n) (x ∷ xs) = get_elem?-drop n xs

  pub get_or-drop : (n i : ℕ) (xs : List A) (d : A) → get_or (drop n xs) i d ≡ get_or xs (n + i) d
  get_or-drop zero i xs d = ap (λ k. get_or xs k d) (omega arith)
  get_or-drop (suc n) i [] d = refl
  get_or-drop (suc n) i (x ∷ xs) d =
      get_or-drop n i xs d ∙ ap (λ k. get_or (x ∷ xs) k d) (further n i)
    where
      further : (n i : ℕ) → suc (n + i) ≡ suc n + i
      further n i = omega arith

  pub get_elem?-behind : (xs ys : List A) → get_elem? (xs ++ ys) (length xs) ≡ get_elem? ys 0
  get_elem?-behind [] ys = refl
  get_elem?-behind (x ∷ xs) ys = get_elem?-behind xs ys

  pub get_or-some : (xs : List A) (i : ℕ) (x d : A) → get_elem? xs i ≡ some x → get_or xs i d ≡ x
  get_or-some [] i x d e = cc (e)
  get_or-some (y ∷ xs) zero x d e = cc (e)
  get_or-some (y ∷ xs) (suc i) x d e = get_or-some xs i x d e

  pub get_or-none : (xs : List A) (i : ℕ) (d : A) → get_elem? xs i ≡ none → get_or xs i d ≡ d
  get_or-none [] i d e = refl
  get_or-none (y ∷ xs) zero d e = cc (e)
  get_or-none (y ∷ xs) (suc i) d e = get_or-none xs i d e

  pub take-suc :
      (n : ℕ) (xs : List A) (d : A)
      → n < length xs
      → take (suc n) xs ≡ take n xs ++ get_or xs n d ∷ []
  take-suc n [] d h = absurd (omega arith)
  take-suc zero (x ∷ xs) d h = refl
  take-suc (suc n) (x ∷ xs) d h = ap (λ ys. x ∷ ys) (take-suc n xs d (omega arith))

  pub drop-none : (n : ℕ) (xs : List A) → get_elem? xs n ≡ none → drop n xs ≡ []
  drop-none zero [] h = refl
  drop-none zero (x ∷ xs) h = cc (h)
  drop-none (suc n) [] h = refl
  drop-none (suc n) (x ∷ xs) h = drop-none n xs h

  pub drop-all : (n : ℕ) (xs : List A) → length xs ≤ n → drop n xs ≡ []
  drop-all n xs h = drop-none n xs (get_elem?-past xs n h)

  pub drop-some :
      (n : ℕ) (xs : List A) (x : A) → get_elem? xs n ≡ some x → drop n xs ≡ x ∷ drop (suc n) xs
  drop-some n [] x h = cc (h)
  drop-some zero (y ∷ xs) x h = cc (h)
  drop-some (suc n) (y ∷ xs) x h = drop-some n xs x h

-- Two lists that end at the same place
pub length-get_elem? {ℓ m} :
    {A : Type ℓ} {B : Type m} (xs : List A) (ys : List B)
    → ((i : ℕ)
        → ((get_elem? xs i ≡ none) × (get_elem? ys i ≡ none))
          ⊎ ((x : A) × (y : B) × (get_elem? xs i ≡ some x) × (get_elem? ys i ≡ some y)))
    → length xs ≡ length ys
length-get_elem? [] [] h = refl
length-get_elem? [] (y ∷ ys) h = elim (h 0) [ inl (p, q) ↦ cc (q) | inr (a, b, p, q) ↦ cc (p) ]
length-get_elem? (x ∷ xs) [] h = elim (h 0) [ inl (p, q) ↦ cc (p) | inr (a, b, p, q) ↦ cc (q) ]
length-get_elem? (x ∷ xs) (y ∷ ys) h = ap suc (length-get_elem? xs ys (λ i. h (suc i)))
