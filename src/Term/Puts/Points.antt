-- ===== src/Term/Puts/Points.antt =====
-- `tc_puts` of src/termctl.c on a text that `utf8_encode` wrote.
use boggart.Base.{
  ℕ, zero, suc, ◌≤◌, ◌≡◌, refl, ◌∙◌, ap, ◌==◌, List, [], ◌∷◌, ◌++◌, drop, not, ◌&&◌, length,
  length-append, arith, if◌then◌else◌,
}
use boggart.Base.Int.{ℤ, pos, ltb_ℤ}
use boggart.Term.Utf8.{utf8_len, utf8_decode, utf8_encode, scalar, byte}
use boggart.Term.Utf8.RoundTrip.{decode-encode, encode-zero}
use boggart.Term.Width.{tc_wcwidth}
use boggart.Term.Grid.{Screen, tc_set}
use boggart.Term.Puts.{move_right, puts_loop, tc_puts}

-- The text of these code points.
abbrev pub encode_all : List ℕ → List ℕ
encode_all [] = []
encode_all (cp ∷ cps) = utf8_encode cp ++ encode_all cps

module _ (y : ℤ) (fg bg : ℤ) (attr : ℕ) where
  -- What the loop means on code points: those of no width are skipped, and it ends at U+0000
  -- and at the right edge.
  unfoldable pub put_points : ℤ → List ℕ → Screen → ℤ × Screen
  put_points x [] t = (x, t)
  put_points x (cp ∷ cps) t =
      let w = tc_wcwidth (scalar cp) in
      let skip = put_points x cps t in
      let draw = put_points (move_right x w) cps (tc_set x y (scalar cp) fg bg attr t) in
      if not (scalar cp == 0) && ltb_ℤ x (pos t.w) then (if w == 0 then skip else draw) else (x, t)

drop-append : (xs ys : List ℕ) → drop (length xs) (xs ++ ys) ≡ ys
drop-append [] ys = refl
drop-append (x ∷ xs) ys = drop-append xs ys

utf8_len_pos : (c : ℕ) → 1 ≤ utf8_len c
unfolding utf8_len
utf8_len_pos c = ground arith

module _ (y : ℤ) (fg bg : ℤ) (attr : ℕ) where
  -- One round of the loop on a whole encoded code point.
  puts_round :
      (fuel : ℕ) (x : ℤ) (cp c : ℕ) (r rest : List ℕ) (t : Screen)
      → utf8_len c ≡ length (c ∷ r)
      → (c == 0) ≡ (cp == 0)
      → utf8_decode ((c ∷ r) ++ rest) (length (c ∷ r)) ≡ cp
      → puts_loop y fg bg attr (suc fuel) x ((c ∷ r) ++ rest) t ≡ (
          if not (cp == 0) && ltb_ℤ x (pos t.w)
          then (if tc_wcwidth cp == 0
              then puts_loop y fg bg attr fuel x rest t
              else puts_loop y fg bg attr fuel
                  (move_right x (tc_wcwidth cp))
                  rest
                  (tc_set x y cp fg bg attr t))
          else (x, t))
  unfolding puts_loop
  puts_round fuel x cp c r rest t e z d = ground (
    arith,
    drop-append (c ∷ r) rest,
    length-append r rest,
    ap (λ (k : ℕ). drop k (c ∷ (r ++ rest))) e,
    ap (λ (k : ℕ). utf8_decode (c ∷ (r ++ rest)) k) e,
  )

  -- The same round, with the bytes as a whole.
  puts_step :
      (fuel : ℕ) (x : ℤ) (cp : ℕ) (u rest : List ℕ) (t : Screen)
      → (byte u 0 == 0) ≡ (cp == 0)
      → (utf8_len (byte u 0) ≡ length u) × (utf8_decode (u ++ rest) (length u) ≡ cp)
      → puts_loop y fg bg attr (suc fuel) x (u ++ rest) t ≡ (
          if not (cp == 0) && ltb_ℤ x (pos t.w)
          then (if tc_wcwidth cp == 0
              then puts_loop y fg bg attr fuel x rest t
              else puts_loop y fg bg attr fuel
                  (move_right x (tc_wcwidth cp))
                  rest
                  (tc_set x y cp fg bg attr t))
          else (x, t))
  puts_step fuel x cp [] rest t z d = absurd (omega (arith, utf8_len_pos 0))
  puts_step fuel x cp (c ∷ r) rest t z d = puts_round fuel x cp c r rest t d.0 z d.1

  puts_loop-encode :
      (cps : List ℕ) (fuel : ℕ) (x : ℤ) (t : Screen)
      → length (encode_all cps) ≤ fuel
      → puts_loop y fg bg attr fuel x (encode_all cps) t ≡ put_points y fg bg attr x cps t
  unfolding put_points puts_loop
  puts_loop-encode [] zero x t h = refl
  puts_loop-encode [] (suc fuel) x t h = refl
  puts_loop-encode (cp ∷ cps) zero x t h = absurd (
      omega (
        arith,
        length-append (utf8_encode cp) (encode_all cps),
        decode-encode cp [],
        utf8_len_pos (byte (utf8_encode cp) 0),
      ))
  puts_loop-encode (cp ∷ cps) (suc fuel) x t h =
      let d = decode-encode cp (encode_all cps) in
      let l : length (encode_all cps) ≤ fuel = omega (
        arith,
        h,
        d.0,
        length-append (utf8_encode cp) (encode_all cps),
        utf8_len_pos (byte (utf8_encode cp) 0),
      ) in
      let w = tc_wcwidth (scalar cp) in
      puts_step fuel x (scalar cp) (utf8_encode cp) (encode_all cps) t (encode-zero cp) d
      ∙ rw (
        puts_loop-encode cps fuel x t l,
        puts_loop-encode cps fuel (move_right x w) (tc_set x y (scalar cp) fg bg attr t) l,
      )

  -- Drawing the encoded bytes of any code points is drawing the scalar values that they stand for, one
  -- after another, up to the first U+0000 or the right edge.
  pub tc_puts-encode :
      (x : ℤ) (cps : List ℕ) (t : Screen)
      → tc_puts y fg bg attr x (encode_all cps) t ≡ put_points y fg bg attr x cps t
  unfolding tc_puts
  tc_puts-encode x cps t = puts_loop-encode cps (length (encode_all cps)) x t (omega arith)
