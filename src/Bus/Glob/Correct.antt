-- ===== src/Bus/Glob/Correct.antt =====
-- `glob_match` of src/lbus.c decides `Matches`, within its fuel.
use boggart.Base.{
  Says, Says-map, ℕ, zero, suc, ◌+◌, ◌*◌, ◌≤◌, ◌<◌, ◌≡◌, refl, ap, ◌∙◌, sym, subst, ◌≢◌, inl, inr,
  List, [], ◌∷◌, ◌++◌, append_assoc, none, some, true, false, length, length-append, arith, ◌==◌,
  Bool-cases, Option-cases,
}
use boggart.Bus.Glob.{star, only_stars, advance, Mark, glob_loop, glob_match, globs}
use boggart.Bus.Glob.Spec.{Matches, NoStar, not-Matches-nil}
use boggart.Bus.Glob.Track.{
  Decides, Track, Live, span, reset, only_stars-Says, mark_spent, retry, pass, mark_here, not_here,
}

-- The rounds of the loop, as equations.
loop_star :
    (fuel d c : ℕ) (p s : List ℕ) (mark : Mark)
    → (d == star) ≡ true
    → glob_loop (suc fuel) (d ∷ p) (c ∷ s) mark ≡ glob_loop fuel p (c ∷ s) (some (p, c ∷ s))
unfolding glob_loop
loop_star fuel d c p s mark e = ground arith

loop_pass :
    (fuel d c : ℕ) (p s : List ℕ) (mark : Mark)
    → (d == star) ≡ false
    → (d == c) ≡ true
    → glob_loop (suc fuel) (d ∷ p) (c ∷ s) mark ≡ glob_loop fuel p s mark
unfolding glob_loop
loop_pass fuel d c p s mark e e' = ground arith

loop_fail :
    (fuel d c : ℕ) (p s : List ℕ)
    → (d == star) ≡ false
    → (d == c) ≡ false
    → glob_loop (suc fuel) (d ∷ p) (c ∷ s) none ≡ some false
unfolding glob_loop
loop_fail fuel d c p s e e' = ground arith

loop_back :
    (fuel d c : ℕ) (p s q ss : List ℕ)
    → (d == star) ≡ false
    → (d == c) ≡ false
    → glob_loop (suc fuel) (d ∷ p) (c ∷ s) (some (q, ss))
      ≡ glob_loop fuel q (advance ss) (some (q, advance ss))
unfolding glob_loop
loop_back fuel d c p s q ss e e' = ground arith

-- After a step back the measure has fallen.
back_falls :
    (bound fuel m : ℕ) (q p ss u s : List ℕ) (c : ℕ)
    → length q ≤ bound
    → ss ≡ u ++ (c ∷ s)
    → length ss * suc bound + m < suc fuel
    → length (advance ss) * suc bound + length q < fuel
back_falls bound fuel m q p [] u s c hq hs h =
    absurd (omega (arith, ap length hs, length-append u (c ∷ s)))
back_falls bound fuel m q p (d ∷ ss) u s c hq hs h = omega arith

pass_falls :
    (bound fuel m c : ℕ) (s : List ℕ) (mark : Mark)
    → span (c ∷ s) mark * suc bound + suc m < suc fuel
    → span s mark * suc bound + m < fuel
pass_falls bound fuel m c s none h = omega arith
pass_falls bound fuel m c s (some (q, ss)) h = omega arith

pass_Track :
    (d c : ℕ) (p s : List ℕ) (mark : Mark)
    → d ≢ star
    → d ≡ c
    → Track (d ∷ p) (c ∷ s) mark
    → Track p s mark
pass_Track d c p s none n e t = tt
pass_Track d c p s (some (q, ss)) n e (u, hq, hs, k) = (
  u ++ (d ∷ []),
  hq ∙ sym (append_assoc u (d ∷ []) p),
  hs ∙ ap (λ x. u ++ (x ∷ s)) (sym e) ∙ sym (append_assoc u (d ∷ []) s),
  NoStar-snoc u k n,
)
  where
    NoStar-snoc : (u : List ℕ) → NoStar u → d ≢ star → NoStar (u ++ (d ∷ []))
    NoStar-snoc [] k n = (n, tt)
    NoStar-snoc (x ∷ u) k n = (k.0, NoStar-snoc u k.1 n)

star_falls :
    (bound fuel c : ℕ) (p s : List ℕ) (d : ℕ) (mark : Mark)
    → Track (d ∷ p) (c ∷ s) mark
    → span (c ∷ s) mark * suc bound + suc (length p) < suc fuel
    → length (c ∷ s) * suc bound + length p < fuel
star_falls bound fuel c p s d none t h = omega arith
star_falls bound fuel c p s d (some (q, ss)) (u, hq, hs, k) h =
    grind (arith, ap length hs, length-append u (c ∷ s))

-- Neither a star nor the same byte: back to the mark, if there is one.
fail_step :
    (fuel bound d c : ℕ) (p s : List ℕ) (mark : Mark)
    → (d == star) ≡ false
    → (d == c) ≡ false
    → Track (d ∷ p) (c ∷ s) mark
    → reset (d ∷ p) mark ≤ bound
    → span (c ∷ s) mark * suc bound + suc (length p) < suc fuel
    → ((q r : List ℕ)
        → length q ≤ bound
        → length r * suc bound + length q < fuel
        → Decides (Live q r (some (q, r))) (glob_loop fuel q r (some (q, r))))
    → Decides (Live (d ∷ p) (c ∷ s) mark) (glob_loop (suc fuel) (d ∷ p) (c ∷ s) mark)
fail_step fuel bound d c p s none e e' t hm h again =
    subst (Decides _) (sym (loop_fail fuel d c p s e e'))
      (not_here d c p s (ground arith) (ground arith))
fail_step fuel bound d c p s (some (q, ss)) e e' (u, hq, hs, n) hm h again =
    subst (Decides _) (sym (loop_back fuel d c p s q ss e e')) (
      retry (d ∷ p) (c ∷ s) q ss _ (not_here d c p s (ground arith) (ground arith))
        (again q (advance ss) hm (back_falls bound fuel (suc (length p)) q p ss u s c hm hs h)))

-- The loop, from any point that it reaches, with enough fuel, says whether a match is left.
glob_loop-Decides :
    (fuel bound : ℕ) (p s : List ℕ) (mark : Mark)
    → Track p s mark
    → length p ≤ bound
    → reset p mark ≤ bound
    → span s mark * suc bound + length p < fuel
    → Decides (Live p s mark) (glob_loop fuel p s mark)
unfolding glob_loop
glob_loop-Decides zero bound p s mark t hp hm h = absurd (omega arith)
glob_loop-Decides (suc fuel) bound p [] none t hp hm h = only_stars-Says p
glob_loop-Decides (suc fuel) bound p [] (some (q, ss)) (u, hq, hs, n) hp hm h =
    Says-map (only_stars p) inl (elim [ inl m ↦ m | inr m ↦ mark_spent u q p ss n hq hs m ])
      (only_stars-Says p)
glob_loop-Decides (suc fuel) bound [] (c ∷ s) none t hp hm h = not-Matches-nil
glob_loop-Decides (suc fuel) bound [] (c ∷ s) (some (q, ss)) (u, hq, hs, n) hp hm h =
    retry [] (c ∷ s) q ss _ not-Matches-nil (
      glob_loop-Decides fuel bound q (advance ss) (some (q, advance ss)) ([], refl, refl, tt) hm hm
        (back_falls bound fuel 0 q [] ss u s c hm hs h))
glob_loop-Decides (suc fuel) bound (d ∷ p) (c ∷ s) mark t hp hm h = elim (Bool-cases (d == star)) [
  | inl e ↦ subst (Decides _) (sym (loop_star fuel d c p s mark e)) (
      mark_here d c p s mark _ (ground arith) t (
        glob_loop-Decides fuel bound p (c ∷ s) (some (p, c ∷ s)) ([], refl, refl, tt) (omega arith)
          (omega arith) (star_falls bound fuel c p s d mark t h)))
  | inr e ↦ elim (Bool-cases (d == c)) [
    | inl e' ↦ subst (Decides _) (sym (loop_pass fuel d c p s mark e e')) (
        pass d c p s mark _ (ground arith) (ground arith) (
          glob_loop-Decides fuel bound p s mark
            (pass_Track d c p s mark (ground arith) (ground arith) t) (omega arith)
            (reset_pass mark hm) (pass_falls bound fuel (length p) c s mark h)))
    | inr e' ↦
        fail_step fuel bound d c p s mark e e' t hm h (λ q r hq hr.
          glob_loop-Decides fuel bound q r (some (q, r)) ([], refl, refl, tt) hq hq hr)
  ]
]
  where
    reset_pass : (k : Mark) → reset (d ∷ p) k ≤ bound → reset p k ≤ bound
    reset_pass none r = omega arith
    reset_pass (some (q, ss)) r = r

-- `glob_match` answers for any pattern and text, within its fuel, and the answer is whether the pattern
-- matches the whole text.
pub glob_match-Decides : (p s : List ℕ) → Decides (Matches p s) (glob_match p s)
unfolding glob_match
glob_match-Decides p s =
    glob_loop-Decides (suc (length s * suc (length p) + length p)) (length p) p s none tt
      (omega arith) (omega arith) (omega arith)

pub globs-Says : (p s : List ℕ) → Says (Matches p s) (globs p s)
unfolding globs
globs-Says p s = elim (Option-cases (glob_match p s)) [
  | inl e ↦ absurd (subst (Decides (Matches p s)) e (glob_match-Decides p s))
  | inr (b, e) ↦ rw (e, globs) (subst (Decides (Matches p s)) e (glob_match-Decides p s))
]
