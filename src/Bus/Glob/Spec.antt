-- ===== src/Bus/Glob/Spec.antt =====
-- What a glob pattern matches, independently of how src/lbus.c looks for it.
use boggart.Base.{
  ℕ, ◌≡◌, refl, ◌≢◌, ◌⊎◌, inl, inr, ap, subst, List, [], ◌∷◌, ◌++◌, length, ◌+◌, ◌≤◌, arith,
}
use boggart.Base.{length-append}
use boggart.Bus.Glob.{star}

-- A star matches any run, the empty one included; any other byte matches itself.
pub data Matches : List ℕ → List ℕ → Type 0 where
  ends : Matches [] []
  skip : {d : ℕ} {p s : List ℕ} → d ≡ star → Matches p s → Matches (d ∷ p) s
  eats : {d : ℕ} {p s : List ℕ} (c : ℕ) → d ≡ star → Matches (d ∷ p) s → Matches (d ∷ p) (c ∷ s)
  same : {p s : List ℕ} (c : ℕ) → c ≢ star → Matches p s → Matches (c ∷ p) (c ∷ s)

pub Matches-literal :
    {d : ℕ} {q s : List ℕ} → d ≢ star → Matches (d ∷ q) s → (r : List ℕ) × (s ≡ d ∷ r) × Matches q r
Matches-literal ne (skip e m) = absurd (ne e)
Matches-literal ne (eats c e m) = absurd (ne e)
Matches-literal ne (same {s} c _ m) = (s, refl, m)

-- A star takes nothing, or one byte and goes on.
pub Matches-star :
    {d : ℕ} {q : List ℕ} (c : ℕ) {s : List ℕ}
    → d ≡ star
    → Matches (d ∷ q) (c ∷ s)
    → Matches q (c ∷ s) ⊎ Matches (d ∷ q) s
Matches-star c e (skip _ m) = inl m
Matches-star c e (eats _ _ m) = inr m
Matches-star c e (same _ ne m) = absurd (ne e)

pub not-Matches-nil : {c : ℕ} {s : List ℕ} → ¬ Matches [] (c ∷ s)
not-Matches-nil m = elim m [ ]

-- Literals only.
abbrev pub NoStar : List ℕ → Type 0
NoStar [] = Unit {0}
NoStar (d ∷ u) = (d ≢ star) × NoStar u

-- Literals take just as many bytes.
pub Matches-literals :
    (u : List ℕ) {r s : List ℕ}
    → NoStar u
    → Matches (u ++ r) s
    → (v : List ℕ) × (s ≡ u ++ v) × Matches r v
Matches-literals [] {s = s} n m = (s, refl, m)
Matches-literals (d ∷ u) n m =
    let (t, e, m') = Matches-literal n.0 m in
    let (v, e', m'') = Matches-literals u n.1 m' in (v, ground arith, m'')

pub Matches-change : {p q s : List ℕ} → p ≡ q → Matches p s → Matches q s
Matches-change {s} e m = subst (λ x. Matches x s) e m

-- Behind a star and literals the rest of the pattern matches an end of the text.
pub Matches-star_literals :
    (u : List ℕ) {d : ℕ} {r : List ℕ} {p s : List ℕ}
    → NoStar u
    → d ≡ star
    → Matches p s
    → p ≡ d ∷ (u ++ r)
    → (w : List ℕ) × (v : List ℕ) × (s ≡ w ++ v) × (length u + length v ≤ length s) × Matches r v
Matches-star_literals u n h ends e = cc
Matches-star_literals u {r = r} n h (skip {p = p} _ m) e =
    let (v, e', m') = Matches-literals u n (Matches-change {q = u ++ r} (cc) m) in
    (u, v, e', omega (arith, ap length e', length-append u v), m')
Matches-star_literals u n h (eats c _ m) e =
    let (w, v, e', l, m') = Matches-star_literals u n h m e in
    (c ∷ w, v, ap (◌∷◌ c) e', omega arith, m')
Matches-star_literals u {d = d} n h (same c ne m) e = absurd (ne (ground arith))

-- A star may take any run.
pub Matches-eat_run :
    (w : List ℕ) {d : ℕ} {q v : List ℕ} → d ≡ star → Matches (d ∷ q) v → Matches (d ∷ q) (w ++ v)
Matches-eat_run [] e m = m
Matches-eat_run (c ∷ w) e m = eats c e (Matches-eat_run w e m)
