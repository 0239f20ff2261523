-- ===== src/Bus/Glob/Track.antt =====
-- What a round of `glob_loop` of src/lbus.c leaves to be matched: the mark keeps it all.
use boggart.Base.{
  Says, Says-map, ℕ, ◌≤◌, ◌<◌, ◌≡◌, refl, ap, ◌∙◌, sym, subst, ◌≢◌, ◌⊎◌, inl, inr, List, [], ◌∷◌,
  ◌++◌, Option, none, some, Bool, length, length-append, arith, ◌==◌, Bool-cases, ==_iff,
}
use boggart.Bus.Glob.{star, only_stars, advance, Mark}
use boggart.Bus.Glob.Spec.{
  Matches, ends, skip, eats, same, Matches-literal, Matches-star, NoStar, Matches-star_literals,
  Matches-eat_run, Matches-change,
}

pub only_stars-Says : (p : List ℕ) → Says (Matches p []) (only_stars p)
unfolding only_stars
only_stars-Says [] = ends
only_stars-Says (d ∷ p) = elim (Bool-cases (d == star)) [
  | inl e ↦ rw e (
      Says-map (only_stars p) (skip ((==_iff d star).0 e))
        (λ m. tail_of d p ((==_iff d star).0 e) m) (only_stars-Says p))
  | inr e ↦ rw e (λ m. no_literal d p (ground arith) m)
]
  where
    tail_of : (d : ℕ) (p : List ℕ) → d ≡ star → Matches (d ∷ p) [] → Matches p []
    tail_of d p e (skip _ m) = m

    no_literal : (d : ℕ) (p : List ℕ) → d ≢ star → Matches (d ∷ p) [] → ⊥
    no_literal d p ne m = let (r, e, _) = Matches-literal ne m in cc

-- Where the loop stands: between the mark and here it has passed literals only.
abbrev pub Track : List ℕ → List ℕ → Mark → Type 0
Track p s none = Unit {0}
Track p s (some (q, ss)) = (u : List ℕ) × (q ≡ u ++ p) × (ss ≡ u ++ s) × NoStar u

-- What is left to try: here, or from the mark one byte further on.
abbrev pub Live : List ℕ → List ℕ → Mark → Type 0
Live p s none = Matches p s
Live p s (some (q, ss)) = Matches p s ⊎ Matches (star ∷ q) (advance ss)

-- The rounds left are counted by what the mark has left, and then by the pattern.
abbrev pub span : List ℕ → Mark → ℕ
span s none = length s
span s (some (q, ss)) = length ss

abbrev pub reset : List ℕ → Mark → ℕ
reset p none = length p
reset p (some (q, ss)) = length q

-- Two ends of one text: the shorter is an end of the longer.
shorter_end :
    (u w s v : List ℕ) → u ++ s ≡ w ++ v → length v ≤ length s → (x : List ℕ) × (s ≡ x ++ v)
shorter_end [] w s v e h = (w, e)
shorter_end (c ∷ u) [] s v e h = absurd (omega (arith, ap length e, length-append u s))
shorter_end (c ∷ u) (d ∷ w) s v e h = shorter_end u w s v (ground arith) h

-- A star found further on takes over from the mark.
newer_mark :
    (u q p s ss : List ℕ) (d : ℕ)
    → d ≡ star
    → NoStar u
    → q ≡ u ++ (d ∷ p)
    → ss ≡ u ++ s
    → 0 < length ss
    → Matches (star ∷ q) (advance ss)
    → Matches (d ∷ p) s
newer_mark u q p s [] d e n hq hs h m = absurd (omega arith)
newer_mark u q p s (c ∷ ss) d e n hq hs h m =
    let (w, v, e₁, l, m₁) = Matches-star_literals u {r = d ∷ p} n refl m (ap (◌∷◌ star) hq) in
    let (x, e₂) =
      shorter_end u (c ∷ w) s v (sym hs ∙ ap (◌∷◌ c) e₁)
        (omega (arith, ap length hs, length-append u s)) in
    rw e₂ (Matches-eat_run x e m₁)

-- At the end of the text the mark is of no more use than the pattern that is left.
pub mark_spent :
    (u q p ss : List ℕ)
    → NoStar u
    → q ≡ u ++ p
    → ss ≡ u ++ []
    → Matches (star ∷ q) (advance ss)
    → Matches p []
mark_spent [] q p [] n hq hs m = nothing_left q p hq m
  where
    nothing_left : (q p : List ℕ) → q ≡ p → Matches (star ∷ q) [] → Matches p []
    nothing_left q p e (skip _ m) = Matches-change e m
mark_spent (d ∷ u) q p [] n hq hs m = cc
mark_spent u q p (c ∷ ss) n hq hs m =
    let (w, v, e₁, l, m₁) = Matches-star_literals u {r = p} n refl m (ap (◌∷◌ star) hq) in
    absurd (omega (arith, ap length hs, length-append u []))

abbrev pub Decides : Type 0 → Option Bool → Type 0
Decides P none = ⊥
Decides P (some b) = Says P b

Decides-map : {P Q : Type 0} (r : Option Bool) → (P → Q) → (Q → P) → Decides P r → Decides Q r
Decides-map none f g h = h
Decides-map (some b) f g h = Says-map b f g h

-- Going back to the mark tries the pattern one byte further on.
forth :
    (q ss : List ℕ) → Live q (advance ss) (some (q, advance ss)) → Matches (star ∷ q) (advance ss)
forth q ss (inl m) = skip refl m
forth q [] (inr m) = m
forth q (c ∷ []) (inr m) = m
forth q (c ∷ d ∷ ss) (inr m) = eats d refl m

back :
    (q ss : List ℕ) → Matches (star ∷ q) (advance ss) → Live q (advance ss) (some (q, advance ss))
back q [] m = inr m
back q (c ∷ []) m = inr m
back q (c ∷ d ∷ ss) m = Matches-star d refl m

pub retry :
    (p s q ss : List ℕ) (r : Option Bool)
    → ¬ Matches p s
    → Decides (Live q (advance ss) (some (q, advance ss))) r
    → Decides (Live p s (some (q, ss))) r
retry p s q ss r fails h = Decides-map r (λ l. inr (forth q ss l)) other h
  where
    other : Live p s (some (q, ss)) → Live q (advance ss) (some (q, advance ss))
    other (inl m) = absurd (fails m)
    other (inr m) = back q ss m

-- Passing a literal.
pub pass :
    (d c : ℕ) (p s : List ℕ) (mark : Mark) (r : Option Bool)
    → d ≢ star
    → d ≡ c
    → Decides (Live p s mark) r
    → Decides (Live (d ∷ p) (c ∷ s) mark) r
pass d c p s mark r ne e h = Decides-map r (onward mark) (backward mark) h
  where
    step : Matches p s → Matches (d ∷ p) (c ∷ s)
    step m = subst (λ x. Matches (d ∷ p) (x ∷ s)) e (same d ne m)

    unstep : Matches (d ∷ p) (c ∷ s) → Matches p s
    unstep m = let (t, h, m') = Matches-literal ne m in subst (Matches p) (ground arith) m'

    onward : (k : Mark) → Live p s k → Live (d ∷ p) (c ∷ s) k
    onward none m = step m
    onward (some (q, ss)) (inl m) = inl (step m)
    onward (some (q, ss)) (inr m) = inr m

    backward : (k : Mark) → Live (d ∷ p) (c ∷ s) k → Live p s k
    backward none m = unstep m
    backward (some (q, ss)) (inl m) = inl (unstep m)
    backward (some (q, ss)) (inr m) = inr m

-- Setting a new mark.
pub mark_here :
    (d c : ℕ) (p s : List ℕ) (mark : Mark) (r : Option Bool)
    → d ≡ star
    → Track (d ∷ p) (c ∷ s) mark
    → Decides (Live p (c ∷ s) (some (p, c ∷ s))) r
    → Decides (Live (d ∷ p) (c ∷ s) mark) r
mark_here d c p s mark r e t h = Decides-map r (onward mark) (backward mark t) h
  where
    step : Matches p (c ∷ s) ⊎ Matches (star ∷ p) s → Matches (d ∷ p) (c ∷ s)
    step (inl m) = skip e m
    step (inr m) = eats c e (Matches-change (ap (λ x. x ∷ p) (sym e)) m)

    unstep : Matches (d ∷ p) (c ∷ s) → Matches p (c ∷ s) ⊎ Matches (star ∷ p) s
    unstep m = Matches-star c refl (Matches-change (ap (λ x. x ∷ p) e) m)

    onward : (k : Mark) → Live p (c ∷ s) (some (p, c ∷ s)) → Live (d ∷ p) (c ∷ s) k
    onward none m = step m
    onward (some (q, ss)) m = inl (step m)

    backward :
        (k : Mark)
        → Track (d ∷ p) (c ∷ s) k
        → Live (d ∷ p) (c ∷ s) k
        → Live p (c ∷ s) (some (p, c ∷ s))
    backward none t m = unstep m
    backward (some (q, ss)) t (inl m) = unstep m
    backward (some (q, ss)) (u, hq, hs, n) (inr m) = unstep (
        newer_mark u q p (c ∷ s) ss d e n hq hs
          (omega (arith, ap length hs, length-append u (c ∷ s))) m)

pub not_here : (d c : ℕ) (p s : List ℕ) → d ≢ star → d ≢ c → ¬ Matches (d ∷ p) (c ∷ s)
not_here d c p s n ne m = let (t, e, _) = Matches-literal n m in ne (ground arith)
