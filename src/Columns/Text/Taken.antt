-- ===== src/Columns/Text/Taken.antt =====
-- src/utf8width.h: what `bog_str_take` takes.
use boggart.Base.{
  ℕ, zero, suc, ◌+◌, ◌-◌, ◌*◌, ◌^◌, ◌≤◌, ◌<◌, ◌≡◌, refl, ap, ◌⊎◌, inl, inr, List, [], ◌∷◌, bit_and,
  bit_or, drop, take, length, length-drop, drop-drop, drop-take_add, take-cons, Bool-cases, arith,
}
use boggart.Base.Int.{pos, ltb_ℤ}
use boggart.Columns.Width.{bog_cp_width}
use boggart.Columns.Text.{
  tails, bog_utf8_next, width_loop, bog_str_width, take_rounds, bog_str_take,
}

tails-bounds :
    (n : ℕ) (s : List ℕ) (res read : ℕ)
    → (read ≤ (tails n s res read).1) × ((tails n s res read).1 ≤ read + length s)
unfolding tails
tails-bounds zero s res read = omega arith
tails-bounds (suc n) [] res read = omega arith
tails-bounds (suc n) (c ∷ s) res read =
    ground (arith, tails-bounds n s (bit_or (res * 2 ^ 6) (bit_and c 0x3F)) (read + 1))

next-bounds :
    (c : ℕ) (s : List ℕ)
    → (1 ≤ (bog_utf8_next (c ∷ s)).1) × ((bog_utf8_next (c ∷ s)).1 ≤ suc (length s))
unfolding bog_utf8_next
next-bounds c s = ground (
  arith,
  tails-bounds 3 s (bit_and c 0x07) 1,
  tails-bounds 2 s (bit_and c 0x0F) 1,
  tails-bounds 1 s (bit_and c 0x1F) 1,
)

-- The bytes that are not read do not matter.
tails-take :
    (n : ℕ) (s : List ℕ) (res read k : ℕ)
    → (tails n s res read).1 ≤ read + k
    → tails n (take k s) res read ≡ tails n s res read
unfolding tails
tails-take zero s res read k h = refl
tails-take (suc n) [] res read zero h = refl
tails-take (suc n) [] res read (suc k) h = refl
tails-take (suc n) (c ∷ s) res read zero h =
    ground (arith, tails-bounds n s (bit_or (res * 2 ^ 6) (bit_and c 0x3F)) (read + 1))
tails-take (suc n) (c ∷ s) res read (suc k) h =
    ground (arith, tails-take n s (bit_or (res * 2 ^ 6) (bit_and c 0x3F)) (read + 1) k)

next-take :
    (c : ℕ) (s : List ℕ) (k : ℕ)
    → (bog_utf8_next (c ∷ s)).1 ≤ suc k
    → bog_utf8_next (c ∷ take k s) ≡ bog_utf8_next (c ∷ s)
unfolding bog_utf8_next
next-take c s k h = ground (
  arith,
  tails-take 3 s (bit_and c 0x07) 1 k,
  tails-take 2 s (bit_and c 0x0F) 1 k,
  tails-take 1 s (bit_and c 0x1F) 1 k,
)

width_loop-fuel :
    (f g : ℕ) (s : List ℕ) → length s ≤ f → length s ≤ g → width_loop f s ≡ width_loop g s
unfolding width_loop
width_loop-fuel zero zero s h k = refl
width_loop-fuel zero (suc g) [] h k = refl
width_loop-fuel (suc f) zero [] h k = refl
width_loop-fuel (suc f) (suc g) [] h k = refl
width_loop-fuel zero g (c ∷ s) h k = absurd (omega arith)
width_loop-fuel (suc f) zero (c ∷ s) h k = absurd (omega arith)
width_loop-fuel (suc f) (suc g) (c ∷ s) h k =
    let n = (bog_utf8_next (c ∷ s)).1 in
    let l : length (drop n (c ∷ s)) ≤ length s =
      omega (arith, length-drop n (c ∷ s), next-bounds c s) in
    ap (◌+◌ (bog_cp_width (bog_utf8_next (c ∷ s)).0))
      (width_loop-fuel f g (drop n (c ∷ s)) (omega arith) (omega arith))

-- The first character, and the rest.
bog_str_width-step :
    (c : ℕ) (s : List ℕ)
    → bog_str_width (c ∷ s)
      ≡ bog_cp_width (bog_utf8_next (c ∷ s)).0
        + bog_str_width (drop (bog_utf8_next (c ∷ s)).1 (c ∷ s))
unfolding bog_str_width width_loop
bog_str_width-step c s =
    let n = (bog_utf8_next (c ∷ s)).1 in
    ap (◌+◌ (bog_cp_width (bog_utf8_next (c ∷ s)).0)) (
      width_loop-fuel (length s) (length (drop n (c ∷ s))) (drop n (c ∷ s))
        (omega (arith, length-drop n (c ∷ s), next-bounds c s)) (omega arith))

-- What the loop gives, from `w` columns on.
record Fits (cols w : ℕ) (s : List ℕ) (n used : ℕ) : Type 0 where
  fits : used ≤ cols
  inside : n ≤ length s
  taken : w + bog_str_width (take n s) ≡ used
  left : w + bog_str_width s ≡ used + bog_str_width (drop n s)
  longest : (n ≡ length s) ⊎ (cols < used + bog_cp_width (bog_utf8_next (drop n s)).0)

none-Fits :
    (cols w : ℕ) (s : List ℕ)
    → w ≤ cols
    → (0 ≡ length s) ⊎ (cols < w + bog_cp_width (bog_utf8_next s).0)
    → Fits cols w s 0 w
unfolding bog_str_width width_loop
none-Fits cols w s h l = record {
  fits = h;
  inside = omega arith;
  taken = omega arith;
  left = omega arith;
  longest = l;
}

more-Fits :
    (cols w n more used : ℕ) (c : ℕ) (s : List ℕ)
    → (bog_utf8_next (c ∷ s)).1 ≡ n
    → Fits cols (w + bog_cp_width (bog_utf8_next (c ∷ s)).0) (drop n (c ∷ s)) more used
    → Fits cols w (c ∷ s) (n + more) used
more-Fits cols w n more used c s e f =
    let b = next-bounds c s in
    let k = n + more - 1 in
    let t : take (n + more) (c ∷ s) ≡ c ∷ take k s = take-cons (n + more) c s (λ z. omega arith) in
    let q = next-take c s k (omega arith) in
    let l = length-drop n (c ∷ s) in
    record {
      fits = f.fits;
      inside = omega (arith, f.inside);
      taken =
          ground
            (arith, t, q, f.taken, bog_str_width-step c (take k s), drop-take_add more n (c ∷ s));
      left = ground (arith, f.left, bog_str_width-step c s, drop-drop more n (c ∷ s));
      longest = ground (arith, f.longest, drop-drop more n (c ∷ s));
    }

take_rounds-Fits :
    (fuel cols w : ℕ) (s : List ℕ)
    → length s ≤ fuel
    → w ≤ cols
    → Fits cols w s (take_rounds fuel (pos cols) w s).0 (take_rounds fuel (pos cols) w s).1
unfolding take_rounds
take_rounds-Fits zero cols w [] h k = none-Fits cols w [] k (inl refl)
take_rounds-Fits zero cols w (c ∷ s) h k = absurd (omega arith)
take_rounds-Fits (suc fuel) cols w [] h k = none-Fits cols w [] k (inl refl)
take_rounds-Fits (suc fuel) cols w (c ∷ s) h k =
    elim (Bool-cases (ltb_ℤ (pos cols) (pos (w + bog_cp_width (bog_utf8_next (c ∷ s)).0)))) [
      | inl e ↦ rw e (none-Fits cols w (c ∷ s) k (inr (ground arith)))
      | inr e ↦ rw e (
          more-Fits cols w _ _ _ c s refl (
            take_rounds-Fits fuel cols (w + bog_cp_width (bog_utf8_next (c ∷ s)).0)
              (drop (bog_utf8_next (c ∷ s)).1 (c ∷ s))
              (omega (arith, length-drop (bog_utf8_next (c ∷ s)).1 (c ∷ s), next-bounds c s))
              (ground arith)))
    ]

-- What is taken of a text fits the columns and the text; its width is the columns that are reported, the
-- width of the text is that and the width of the rest, and the next character, if there is one, does not
-- fit any more.
pub bog_str_take-longest :
    (s : List ℕ) (cols : ℕ)
    → let (n, used) = bog_str_take s (pos cols) in
      (used ≤ cols)
      × (n ≤ length s)
      × (bog_str_width (take n s) ≡ used)
      × (bog_str_width s ≡ used + bog_str_width (drop n s))
      × ((n ≡ length s) ⊎ (cols < used + bog_cp_width (bog_utf8_next (drop n s)).0))
unfolding bog_str_take
bog_str_take-longest s cols =
    let f = take_rounds-Fits (length s) cols 0 s (omega arith) (omega arith) in
    (f.fits, f.inside, omega (arith, f.taken), omega (arith, f.left), f.longest)
