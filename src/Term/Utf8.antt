-- ===== src/Term/Utf8.antt =====
-- src/termctl.c: `utf8_len`, `utf8_decode` and `utf8_encode`. A byte is a number below 256.
pub mod RoundTrip
use boggart.Base.{
  ℕ, ◌+◌, ◌*◌, ◌/◌, ◌%◌, ◌^◌, bit_and, bit_or, ltb, leb, ◌==◌, not, ◌&&◌, ◌||◌, Bool, List, [], ◌∷◌,
  get_or, length, if◌then◌else◌,
}

-- U+FFFD
abbrev pub replacement : ℕ
replacement = 0xFFFD

unfoldable pub utf8_len : ℕ → ℕ
utf8_len c =
    if ltb c 0x80
    then 1
    else if bit_and c 0xE0 == 0xC0
    then 2
    else if bit_and c 0xF0 == 0xE0
    then 3
    else if bit_and c 0xF8 == 0xF0
    then 4
    else 1

-- `b[i]`; a caller gives at least `len` bytes.
abbrev pub byte : List ℕ → ℕ → ℕ
byte b i = get_or b i 0

abbrev pub is_tail : ℕ → Bool
is_tail c = bit_and c 0xC0 == 0x80

abbrev pub decode2 : List ℕ → ℕ
decode2 b =
    if not (is_tail (byte b 1))
    then replacement
    else let cp = bit_or (bit_and (byte b 0) 0x1F * 2 ^ 6) (bit_and (byte b 1) 0x3F) in
      (if ltb cp 0x80 then replacement else cp)

abbrev pub decode3 : List ℕ → ℕ
decode3 b =
    if not (is_tail (byte b 1)) || not (is_tail (byte b 2))
    then replacement
    else let cp =
        bit_or (bit_or (bit_and (byte b 0) 0x0F * 2 ^ 12) (bit_and (byte b 1) 0x3F * 2 ^ 6))
          (bit_and (byte b 2) 0x3F) in
      (if ltb cp 0x800 then replacement else cp)

abbrev pub decode4 : List ℕ → ℕ
decode4 b =
    if not (is_tail (byte b 1)) || not (is_tail (byte b 2)) || not (is_tail (byte b 3))
    then replacement
    else let cp =
        bit_or
          (bit_or (bit_or (bit_and (byte b 0) 0x07 * 2 ^ 18) (bit_and (byte b 1) 0x3F * 2 ^ 12))
            (bit_and (byte b 2) 0x3F * 2 ^ 6))
          (bit_and (byte b 3) 0x3F) in
      (if ltb cp 0x10000 || ltb 0x10FFFF cp then replacement else cp)

unfoldable pub utf8_decode : List ℕ → ℕ → ℕ
utf8_decode b len =
    if len == 2
    then decode2 b
    else if len == 3
    then decode3 b
    else if len == 4
    then decode4 b
    else byte b 0

-- The cast to `char`
abbrev pub u8 : ℕ → ℕ
u8 x = x % 2 ^ 8

-- What stands for a code point that is no scalar value.
unfoldable pub scalar : ℕ → ℕ
scalar cp = if ltb 0x10FFFF cp || (leb 0xD800 cp && leb cp 0xDFFF) then replacement else cp

abbrev pub encode_scalar : ℕ → List ℕ
encode_scalar cp =
    if ltb cp 0x80
    then u8 cp ∷ []
    else if ltb cp 0x800
    then u8 (bit_or 0xC0 (cp / 2 ^ 6)) ∷ u8 (bit_or 0x80 (bit_and cp 0x3F)) ∷ []
    else if ltb cp 0x10000
    then u8 (bit_or 0xE0 (cp / 2 ^ 12))
      ∷ u8 (bit_or 0x80 (bit_and (cp / 2 ^ 6) 0x3F))
      ∷ u8 (bit_or 0x80 (bit_and cp 0x3F))
      ∷ []
    else u8 (bit_or 0xF0 (cp / 2 ^ 18))
      ∷ u8 (bit_or 0x80 (bit_and (cp / 2 ^ 12) 0x3F))
      ∷ u8 (bit_or 0x80 (bit_and (cp / 2 ^ 6) 0x3F))
      ∷ u8 (bit_or 0x80 (bit_and cp 0x3F))
      ∷ []

-- The bytes that are stored into `out`; their number is the value.
unfoldable pub utf8_encode : ℕ → List ℕ
unfolding scalar
utf8_encode cp = encode_scalar (scalar cp)
