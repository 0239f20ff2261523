-- ===== src/Term/Utf8/RoundTrip.antt =====
-- `utf8_decode` reads back what `utf8_encode` of src/termctl.c writes.
use native.Mathlib.Decide.{dec_lt}
use boggart.Base.{
  ℕ, ◌+◌, ◌*◌, ◌/◌, ◌%◌, ◌<◌, ◌≤◌, ◌≡◌, refl, ◌∙◌, bit_and, bit_or, bit_or_shift6, bit_or_fields6,
  bit_or_fields12, bit_and_63, List, [], ◌∷◌, ◌++◌, length, ◌==◌, same_table, tables_eq, arith,
}
use boggart.Term.Utf8.{utf8_len, utf8_decode, utf8_encode, scalar, byte, u8, encode_scalar}

-- The fields of lead and tail bytes, checked at every value.
lead2 :
    (x : ℕ)
    → x < 32
    → (u8 (bit_or 0xC0 x) ≡ 0xC0 + x) × (bit_and (0xC0 + x) 0x1F ≡ x) × (utf8_len (0xC0 + x) ≡ 2)
unfolding same_table utf8_len
lead2 x h = (
  tables_eq 32 (λ x. u8 (bit_or 0xC0 x)) (λ x. 0xC0 + x) x refl h,
  tables_eq 32 (λ x. bit_and (0xC0 + x) 0x1F) (λ x. x) x refl h,
  tables_eq 32 (λ x. utf8_len (0xC0 + x)) (λ x. 2) x refl h,
)

lead3 :
    (x : ℕ)
    → x < 16
    → (u8 (bit_or 0xE0 x) ≡ 0xE0 + x) × (bit_and (0xE0 + x) 0x0F ≡ x) × (utf8_len (0xE0 + x) ≡ 3)
unfolding same_table utf8_len
lead3 x h = (
  tables_eq 16 (λ x. u8 (bit_or 0xE0 x)) (λ x. 0xE0 + x) x refl h,
  tables_eq 16 (λ x. bit_and (0xE0 + x) 0x0F) (λ x. x) x refl h,
  tables_eq 16 (λ x. utf8_len (0xE0 + x)) (λ x. 3) x refl h,
)

lead4 :
    (x : ℕ)
    → x < 8
    → (u8 (bit_or 0xF0 x) ≡ 0xF0 + x) × (bit_and (0xF0 + x) 0x07 ≡ x) × (utf8_len (0xF0 + x) ≡ 4)
unfolding same_table utf8_len
lead4 x h = (
  tables_eq 8 (λ x. u8 (bit_or 0xF0 x)) (λ x. 0xF0 + x) x refl h,
  tables_eq 8 (λ x. bit_and (0xF0 + x) 0x07) (λ x. x) x refl h,
  tables_eq 8 (λ x. utf8_len (0xF0 + x)) (λ x. 4) x refl h,
)

tail_byte :
    (y : ℕ)
    → y < 64
    → (u8 (bit_or 0x80 y) ≡ 0x80 + y)
      × (bit_and (0x80 + y) 0x3F ≡ y)
      × (bit_and (0x80 + y) 0xC0 ≡ 0x80)
unfolding same_table
tail_byte y h = (
  tables_eq 64 (λ y. u8 (bit_or 0x80 y)) (λ y. 0x80 + y) y refl h,
  tables_eq 64 (λ y. bit_and (0x80 + y) 0x3F) (λ y. y) y refl h,
  tables_eq 64 (λ y. bit_and (0x80 + y) 0xC0) (λ y. 0x80) y refl h,
)

-- The bytes of each length as sums.
encode2 :
    (cp : ℕ) → 0x80 ≤ cp → cp < 0x800 → encode_scalar cp ≡ (0xC0 + cp / 64) ∷ (0x80 + cp % 64) ∷ []
encode2 cp h k =
    ground (arith, bit_and_63 cp, lead2 (cp / 64) (omega arith), tail_byte (cp % 64) (omega arith))

encode3 :
    (cp : ℕ)
    → 0x800 ≤ cp
    → cp < 0x10000
    → encode_scalar cp ≡ (0xE0 + cp / 4096) ∷ (0x80 + cp / 64 % 64) ∷ (0x80 + cp % 64) ∷ []
encode3 cp h k = ground (
  arith,
  bit_and_63 cp,
  bit_and_63 (cp / 64),
  lead3 (cp / 4096) (omega arith),
  tail_byte (cp % 64) (omega arith),
  tail_byte (cp / 64 % 64) (omega arith),
)

encode4 :
    (cp : ℕ)
    → 0x10000 ≤ cp
    → cp ≤ 0x10FFFF
    → encode_scalar cp
      ≡ (0xF0 + cp / 262144)
        ∷ (0x80 + cp / 4096 % 64)
        ∷ (0x80 + cp / 64 % 64)
        ∷ (0x80 + cp % 64)
        ∷ []
encode4 cp h k = ground (
  arith,
  bit_and_63 cp,
  bit_and_63 (cp / 64),
  bit_and_63 (cp / 4096),
  lead4 (cp / 262144) (omega arith),
  tail_byte (cp % 64) (omega arith),
  tail_byte (cp / 64 % 64) (omega arith),
  tail_byte (cp / 4096 % 64) (omega arith),
)

-- Reading the sums back.
decode2_sum :
    (x y : ℕ) (rest : List ℕ)
    → x < 32
    → y < 64
    → 0x80 ≤ x * 64 + y
    → utf8_decode ((0xC0 + x) ∷ (0x80 + y) ∷ rest) 2 ≡ x * 64 + y
unfolding utf8_decode
decode2_sum x y rest hx hy h = ground (arith, lead2 x hx, tail_byte y hy, bit_or_shift6 x y hy)

decode3_sum :
    (x y z : ℕ) (rest : List ℕ)
    → x < 16
    → y < 64
    → z < 64
    → 0x800 ≤ x * 4096 + y * 64 + z
    → utf8_decode ((0xE0 + x) ∷ (0x80 + y) ∷ (0x80 + z) ∷ rest) 3 ≡ x * 4096 + y * 64 + z
unfolding utf8_decode
decode3_sum x y z rest hx hy hz h = ground (
  arith,
  lead3 x hx,
  tail_byte y hy,
  tail_byte z hz,
  bit_or_fields6 x y hy,
  bit_or_shift6 (x * 64 + y) z hz,
)

decode4_sum :
    (x y z u : ℕ) (rest : List ℕ)
    → x < 8
    → y < 64
    → z < 64
    → u < 64
    → 0x10000 ≤ x * 262144 + y * 4096 + z * 64 + u
    → x * 262144 + y * 4096 + z * 64 + u ≤ 0x10FFFF
    → utf8_decode ((0xF0 + x) ∷ (0x80 + y) ∷ (0x80 + z) ∷ (0x80 + u) ∷ rest) 4
      ≡ x * 262144 + y * 4096 + z * 64 + u
unfolding utf8_decode
decode4_sum x y z u rest hx hy hz hu h k = ground (
  arith,
  lead4 x hx,
  tail_byte y hy,
  tail_byte z hz,
  tail_byte u hu,
  bit_or_fields12 x y hy,
  bit_or_fields6 (x * 64 + y) z hz,
  bit_or_shift6 ((x * 64 + y) * 64 + z) u hu,
)

-- Reading from the front of a text gives the code point, and the lead byte gives its length.
abbrev pub Reads : ℕ → List ℕ → List ℕ → Type 0
Reads cp bytes rest =
    (utf8_len (byte bytes 0) ≡ length bytes) × (utf8_decode (bytes ++ rest) (length bytes) ≡ cp)

encode_scalar-Reads : (cp : ℕ) (rest : List ℕ) → cp ≤ 0x10FFFF → Reads cp (encode_scalar cp) rest
unfolding utf8_decode utf8_len
encode_scalar-Reads cp rest h = elim (dec_lt cp 0x80) [
  | yes a ↦ ground arith
  | no a ↦ elim (dec_lt cp 0x800) [
    | yes b ↦ rw (encode2 cp (omega arith) b) (
      (lead2 (cp / 64) (omega arith)).2,
      decode2_sum (cp / 64) (cp % 64) rest (omega arith) (omega arith) (omega arith) ∙ omega arith,
    )
    | no b ↦ elim (dec_lt cp 0x10000) [
      | yes c ↦ rw (encode3 cp (omega arith) c) (
        (lead3 (cp / 4096) (omega arith)).2,
        decode3_sum (cp / 4096) (cp / 64 % 64) (cp % 64) rest (omega arith) (omega arith)
              (omega arith) (omega arith)
            ∙ omega arith,
      )
      | no c ↦ rw (encode4 cp (omega arith) h) (
        (lead4 (cp / 262144) (omega arith)).2,
        decode4_sum (cp / 262144) (cp / 4096 % 64) (cp / 64 % 64) (cp % 64) rest (omega arith)
              (omega arith) (omega arith) (omega arith) (omega arith) (omega arith)
            ∙ omega arith,
      )
    ]
  ]
]

encode_scalar-zero : (cp : ℕ) → cp ≤ 0x10FFFF → (byte (encode_scalar cp) 0 == 0) ≡ (cp == 0)
encode_scalar-zero cp h = elim (dec_lt cp 0x80) [
  | yes a ↦ ground arith
  | no a ↦ elim (dec_lt cp 0x800) [
    | yes b ↦ rw (encode2 cp (omega arith) b) (ground arith)
    | no b ↦ elim (dec_lt cp 0x10000) [
      | yes c ↦ rw (encode3 cp (omega arith) c) (ground arith)
      | no c ↦ rw (encode4 cp (omega arith) h) (ground arith)
    ]
  ]
]

scalar-le : (cp : ℕ) → scalar cp ≤ 0x10FFFF
unfolding scalar
scalar-le cp = ground arith

-- What any code point is encoded as is decoded, in front of any text, as the scalar value that it stands
-- for, and the lead byte tells how many bytes there are.
pub decode-encode :
    (cp : ℕ) (rest : List ℕ)
    → let bytes = utf8_encode cp in
      (utf8_len (byte bytes 0) ≡ length bytes)
      × (utf8_decode (bytes ++ rest) (length bytes) ≡ scalar cp)
unfolding utf8_encode
decode-encode cp rest = encode_scalar-Reads (scalar cp) rest (scalar-le cp)

-- Only U+0000 is encoded with a zero byte in front.
pub encode-zero : (cp : ℕ) → (byte (utf8_encode cp) 0 == 0) ≡ (scalar cp == 0)
unfolding utf8_encode
encode-zero cp = encode_scalar-zero (scalar cp) (scalar-le cp)
