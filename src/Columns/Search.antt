-- ===== src/Columns/Search.antt =====
-- src/utf8width.h, `bog_in_ranges`: the binary search of a table, and the scan that it stands for.
use boggart.Base.{
  Says, Says-map, Says-unique, ℕ, zero, suc, ◌+◌, ◌-◌, ◌/◌, ◌≤◌, ◌<◌, ◌≡◌, inl, inr, List, [], ◌∷◌,
  Bool, true, false, ◌&&◌, ◌||◌, ltb, leb, length, get_or, Bool-cases, if◌then◌else◌, arith,
}

-- `t[i].lo` and `t[i].hi`
abbrev pub lo_at : List (ℕ × ℕ) → ℕ → ℕ
lo_at t i = (get_or t i (0, 0)).0

abbrev pub hi_at : List (ℕ × ℕ) → ℕ → ℕ
hi_at t i = (get_or t i (0, 0)).1

abbrev pub midpoint : ℕ → ℕ → ℕ
midpoint lo hi = lo + (hi - lo) / 2

-- The loop, on fuel
unfoldable pub search_ranges : ℕ → List (ℕ × ℕ) → ℕ → ℕ → ℕ → Bool
search_ranges zero t lo hi cp = false
search_ranges (suc fuel) t lo hi cp =
    let mid = midpoint lo hi in
    let below = search_ranges fuel t lo mid cp in
    let above = search_ranges fuel t (mid + 1) hi cp in
    if ltb lo hi
    then (if ltb cp (lo_at t mid) then below else if ltb (hi_at t mid) cp then above else true)
    else false

-- `bog_in_ranges`; each round leaves fewer of the `n` ranges.
unfoldable pub bog_in_ranges : List (ℕ × ℕ) → ℕ → Bool
unfolding search_ranges
bog_in_ranges t cp = search_ranges (length t + 1) t 0 (length t) cp

-- The reference: every range is looked at.
unfoldable pub in_some_range : List (ℕ × ℕ) → ℕ → Bool
in_some_range [] cp = false
in_some_range ((lo, hi) ∷ t) cp = (leb lo cp && leb cp hi) || in_some_range t cp

-- The ranges rise from `least` on and do not meet.
unfoldable pub ordered : ℕ → List (ℕ × ℕ) → Bool
ordered least [] = true
ordered least ((lo, hi) ∷ t) = leb least lo && (leb lo hi && ordered (suc hi) t)

abbrev Hit : List (ℕ × ℕ) → ℕ → ℕ → Type 0
Hit t cp i = (lo_at t i ≤ cp) × (cp ≤ hi_at t i)

-- Some range from `lo` up to `hi` holds the code point.
abbrev HitIn : List (ℕ × ℕ) → ℕ → ℕ → ℕ → Type 0
HitIn t cp lo hi = (i : ℕ) × (lo ≤ i) × (i < hi) × Hit t cp i

ordered-least :
    (least : ℕ) (t : List (ℕ × ℕ)) (i : ℕ)
    → ordered least t ≡ true
    → i < length t
    → (least ≤ lo_at t i) × (lo_at t i ≤ hi_at t i)
unfolding ordered
ordered-least least [] i e h = absurd (omega arith)
ordered-least least ((lo, hi) ∷ t) zero e h = ground arith
ordered-least least ((lo, hi) ∷ t) (suc i) e h = ground (arith, ordered-least (suc hi) t i)

ordered-lt :
    (least : ℕ) (t : List (ℕ × ℕ)) (i j : ℕ)
    → ordered least t ≡ true
    → i < j
    → j < length t
    → hi_at t i < lo_at t j
unfolding ordered
ordered-lt least [] i j e h k = absurd (omega arith)
ordered-lt least ((lo, hi) ∷ t) i zero e h k = absurd (omega arith)
ordered-lt least ((lo, hi) ∷ t) zero (suc j) e h k = ground (arith, ordered-least (suc hi) t j)
ordered-lt least ((lo, hi) ∷ t) (suc i) (suc j) e h k = ground (arith, ordered-lt (suc hi) t i j)

module _ (t : List (ℕ × ℕ)) (rising : ordered 0 t ≡ true) (cp : ℕ) where
  below_mid :
      (lo mid hi : ℕ)
      → hi ≤ length t
      → mid < hi
      → cp < lo_at t mid
      → HitIn t cp lo hi
      → HitIn t cp lo mid
  below_mid lo mid hi b m h (i, l, u, h') = (i, l, lower i l u h'.0, h')
    where
      lower : (i : ℕ) → lo ≤ i → i < hi → lo_at t i ≤ cp → i < mid
      lower i l u a = ground (arith, ordered-lt 0 t mid i, ordered-least 0 t mid)

  above_mid :
      (lo mid hi : ℕ)
      → hi ≤ length t
      → mid < hi
      → hi_at t mid < cp
      → HitIn t cp lo hi
      → HitIn t cp (mid + 1) hi
  above_mid lo mid hi b m h (i, l, u, h') = (i, upper i u h'.1, u, h')
    where
      upper : (i : ℕ) → i < hi → cp ≤ hi_at t i → mid + 1 ≤ i
      upper i u z = ground (arith, ordered-lt 0 t i mid, ordered-least 0 t mid)

  search_ranges-Says :
      (fuel lo hi : ℕ)
      → hi ≤ length t
      → hi - lo < fuel
      → Says (HitIn t cp lo hi) (search_ranges fuel t lo hi cp)
  unfolding search_ranges
  search_ranges-Says zero lo hi b f = absurd (omega arith)
  search_ranges-Says (suc fuel) lo hi b f = elim (Bool-cases (ltb lo hi)) [
    | inr e ↦ rw e (λ (i, l, u, h). absurd (ground arith))
    | inl e ↦
        let mid = midpoint lo hi in
        let m : mid < hi = ground arith in
        let l : lo ≤ mid = omega arith in
        rw e (elim (Bool-cases (ltb cp (lo_at t mid))) [
          | inl c ↦ rw c (
              Says-map (search_ranges fuel t lo mid cp) (λ (i, p, q, h). (i, p, omega arith, h))
                (below_mid lo mid hi b m (ground arith))
                (search_ranges-Says fuel lo mid (omega arith) (omega arith)))
          | inr c ↦ rw c (elim (Bool-cases (ltb (hi_at t mid) cp)) [
            | inl d ↦ rw d (
                Says-map (search_ranges fuel t (mid + 1) hi cp)
                  (λ (i, p, q, h). (i, omega arith, q, h)) (above_mid lo mid hi b m (ground arith))
                  (search_ranges-Says fuel (mid + 1) hi b (omega arith)))
            | inr d ↦ rw d (mid, l, m, (ground arith, ground arith))
          ])
        ])
  ]

in_some_range-Says :
    (t : List (ℕ × ℕ)) (cp : ℕ) → Says (HitIn t cp 0 (length t)) (in_some_range t cp)
unfolding in_some_range
in_some_range-Says [] cp = λ (i, l, u, h). absurd (omega arith)
in_some_range-Says ((lo, hi) ∷ t) cp = elim (Bool-cases (leb lo cp && leb cp hi)) [
  | inl e ↦ rw e (0, omega arith, omega arith, (ground arith, ground arith))
  | inr e ↦ rw e (
      Says-map (in_some_range t cp) (λ (i, p, q, h). (suc i, omega arith, omega arith, h)) (later e)
        (in_some_range-Says t cp))
]
  where
    later :
        (leb lo cp && leb cp hi) ≡ false
        → HitIn ((lo, hi) ∷ t) cp 0 (suc (length t))
        → HitIn t cp 0 (length t)
    later e (zero, p, q, h) = absurd (ground arith)
    later e (suc i, p, q, h) = (i, omega arith, omega arith, h)

-- On a table whose ranges rise and do not meet, the binary search finds what looking at every range
-- finds.
pub bog_in_ranges-eq :
    (t : List (ℕ × ℕ)) (cp : ℕ) → ordered 0 t ≡ true → bog_in_ranges t cp ≡ in_some_range t cp
unfolding bog_in_ranges
bog_in_ranges-eq t cp rising =
    Says-unique _ _ _
      (search_ranges-Says t rising cp (length t + 1) 0 (length t) (omega arith) (omega arith))
      (in_some_range-Says t cp)
