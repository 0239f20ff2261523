-- ===== src/Base/Tests.antt =====
-- Boolean tests on the native numbers, the conditional, and case lemmas for computed values.
use Prim.Native.Nat.{ℕ, zero, suc, ◌≤◌, ◌<◌, compare, Ordering}
use mathlib.Core.Path.{◌≡◌, refl}
use mathlib.Core.Logic.{◌↔◌, ◌⊎◌, inl, inr}
use mathlib.Core.Bool.{Bool, true, false, ◌&&◌}
use mathlib.Core.Option.{Option, none, some}
use native.Mathlib.Omega.{arith}

abbrev pub ltb : ℕ → ℕ → Bool
ltb a b = elim (compare a b) [ Ordering.lt ↦ true | _ ↦ false ]

abbrev pub leb : ℕ → ℕ → Bool
leb a b = elim (compare a b) [ Ordering.gt ↦ false | _ ↦ true ]

infix 50 ◌==◌
abbrev pub ◌==◌ : ℕ → ℕ → Bool
a == b = elim (compare a b) [ Ordering.eq ↦ true | _ ↦ false ]

infix 1 if◌then◌else◌
abbrev pub if◌then◌else◌ {ℓ} : {A : Type ℓ} → Bool → A → A → A
if true then x else y = x
if false then x else y = y

pub ltb→lt : (a b : ℕ) → ltb a b ≡ true → a < b
ltb→lt a b h = ground arith

pub lt→ltb : (a b : ℕ) → a < b → ltb a b ≡ true
lt→ltb a b h = ground arith

pub leb→le : (a b : ℕ) → leb a b ≡ true → a ≤ b
leb→le a b h = ground arith

pub le→leb : (a b : ℕ) → a ≤ b → leb a b ≡ true
le→leb a b h = ground arith

pub ==_iff : (a b : ℕ) → ((a == b) ≡ true) ↔ (a ≡ b)
==_iff a b = ground arith

pub ==_refl : (a : ℕ) → (a == a) ≡ true
==_refl a = ground arith

pub Bool-cases : (b : Bool) → (b ≡ true) ⊎ (b ≡ false)
Bool-cases true = inl refl
Bool-cases false = inr refl

pub Option-cases {ℓ} : {A : Type ℓ} (o : Option A) → (o ≡ none) ⊎ ((a : A) × (o ≡ some a))
Option-cases none = inl refl
Option-cases (some a) = inr (a, refl)

-- Over a small range, check every value by evaluation.
unfoldable pub same_table : ℕ → (ℕ → ℕ) → (ℕ → ℕ) → Bool
same_table zero f g = true
same_table (suc k) f g = (f k == g k) && same_table k f g

-- Two functions that agree on a finite table agree at each of its places.
pub tables_eq : (k : ℕ) (f g : ℕ → ℕ) (i : ℕ) → same_table k f g ≡ true → i < k → f i ≡ g i
unfolding same_table
tables_eq zero f g i e h = absurd (omega arith)
tables_eq (suc k) f g i e h = ground (arith, tables_eq k f g i)

-- `P` holds or fails, as `b` says.
abbrev pub Says : Type 0 → Bool → Type 0
Says P true = P
Says P false = ¬ P

pub Says-map : {P Q : Type 0} (b : Bool) → (P → Q) → (Q → P) → Says P b → Says Q b
Says-map true f g h = f h
Says-map false f g h = λ q. h (g q)

-- Two tests that say the same are the same.
pub Says-unique : (P : Type 0) (a b : Bool) → Says P a → Says P b → a ≡ b
Says-unique P true true p q = refl
Says-unique P false false p q = refl
Says-unique P true false p q = absurd (q p)
Says-unique P false true p q = absurd (p q)
