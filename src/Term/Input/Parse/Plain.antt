-- ===== src/Term/Input/Parse/Plain.antt =====
-- src/termctl.c: what `parse_one` reads from the bytes of a typed character.
use boggart.Base.{
  ℕ, ◌≤◌, ◌<◌, ◌≡◌, ◌≢◌, refl, ◌∙◌, ap, sym, subst, ltb, ◌==◌, false, List, [], ◌∷◌, ◌++◌, length,
  get_or, arith, Bool-cases, inl, inr,
}
use boggart.Term.Utf8.{utf8_len, utf8_decode, utf8_encode, scalar, byte}
use boggart.Term.Utf8.RoundTrip.{decode-encode}
use boggart.Term.Input.{Input, at}
use boggart.Term.Input.Parse.Progress.{utf8_len-pos}
use boggart.Term.Input.Escape.{takes, char_event}
use boggart.Term.Input.Parse.{parse_plain, parse_one}

long_lead : (c : ℕ) → 1 < utf8_len c → 0x80 ≤ c
unfolding utf8_len
long_lead c h = ground arith

long_encode : (cp : ℕ) → 0x80 ≤ cp → 1 < length (utf8_encode cp)
unfolding utf8_encode scalar
long_encode cp h = ground arith

short_encode : (cp : ℕ) → cp < 0x80 → utf8_encode cp ≡ cp ∷ []
unfolding utf8_encode scalar
short_encode cp h = ground arith

printable_lead :
    (cp : ℕ)
    → 0x20 ≤ cp
    → cp ≢ 0x7F
    → (0x20 ≤ byte (utf8_encode cp) 0) × (byte (utf8_encode cp) 0 ≢ 0x7F)
printable_lead cp h ne = elim (Bool-cases (ltb cp 0x80)) [
  | inl e ↦ rw (short_encode cp (ground arith)) (h, ne)
  | inr e ↦
      let l =
        long_lead (byte (utf8_encode cp) 0)
          (omega (arith, decode-encode cp [], long_encode cp (ground arith))) in
      (omega arith, λ k. omega arith)
]

first-append : (u rest : List ℕ) (d : ℕ) → 0 < length u → get_or (u ++ rest) 0 d ≡ byte u 0
first-append [] rest d h = absurd (omega arith)
first-append (x ∷ u) rest d h = refl

test_false : (a b : ℕ) → a ≢ b → (a == b) ≡ false
test_false a b h = ground arith

below_false : (a b : ℕ) → b ≤ a → ltb a b ≡ false
below_false a b h = ground arith

plain_char :
    (t : Input) (n cp : ℕ)
    → 0x20 ≤ at t 0
    → at t 0 ≢ 0x7F
    → utf8_len (at t 0) ≡ n
    → utf8_decode t.inbuf n ≡ cp
    → 0 < n
    → n ≤ t.inlen
    → t.pasting ≡ false
    → parse_one t ≡ takes n (char_event cp 0) t
unfolding parse_one parse_plain
plain_char t n cp h ne e d p l q = rw (
  parse_one,
  test_false t.inlen 0 (λ z. omega arith),
  q,
  test_false (at t 0) 0x1b (λ z. omega arith),
  parse_plain,
  test_false (at t 0) b'\r' (λ z. omega arith),
  test_false (at t 0) b'\n' (λ z. omega arith),
  test_false (at t 0) b'\t' (λ z. omega arith),
  test_false (at t 0) 0x7F ne,
  test_false (at t 0) 0x08 (λ z. omega arith),
  below_false (at t 0) 0x20 h,
  e,
  below_false t.inlen n l,
  d,
)

-- A printable code point that is a scalar value is read back from its bytes, whatever follows, when the
-- buffer holds them all and no paste is going on.
pub parse_one-encode :
    (t : Input) (cp : ℕ) (rest : List ℕ)
    → 0x20 ≤ cp
    → cp ≢ 0x7F
    → scalar cp ≡ cp
    → t.pasting ≡ false
    → t.inbuf ≡ utf8_encode cp ++ rest
    → length (utf8_encode cp) ≤ t.inlen
    → parse_one t ≡ takes (length (utf8_encode cp)) (char_event cp 0) t
parse_one-encode t cp rest h ne s q b l =
    let n : ℕ = length (utf8_encode cp) in
    let (e, d) = decode-encode cp rest in
    let p : 0 < n = nonempty cp in
    let f : at t 0 ≡ byte (utf8_encode cp) 0 =
      ap (λ x. get_or x 0 (t.beyond 0)) b ∙ first-append (utf8_encode cp) rest (t.beyond 0) p in
    let (h₁, h₂) = printable_lead cp h ne in
    plain_char t n cp (subst (λ c. 0x20 ≤ c) (sym f) h₁) (λ z. h₂ (sym f ∙ z)) (ap utf8_len f ∙ e)
      (ap (λ x. utf8_decode x n) b ∙ d ∙ s) p l q
  where
    nonempty : (cp : ℕ) → 0 < length (utf8_encode cp)
    nonempty cp = omega (arith, (decode-encode cp []).0, utf8_len-pos (byte (utf8_encode cp) 0))
