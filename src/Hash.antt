-- ===== src/Hash.antt =====
-- src/lhash.c: SHA-256, the portable code. A `uint32_t` is a number below 2 ^ 32, a pointer to bytes is
-- the list of the bytes from there on.
pub mod Spec
pub mod Blocks
pub mod Padded
use boggart.Base.{
  ℕ, zero, suc, ◌+◌, ◌-◌, ◌*◌, ◌/◌, ◌%◌, ◌^◌, bit_and, bit_or, bit_xor, List, [], ◌∷◌, ◌++◌, get_or,
  set, length, drop, take, replicate, ltb, ◌==◌, if◌then◌else◌,
}

abbrev pub k_table : List ℕ
k_table =
    0x428a2f98 ∷ 0x71374491 ∷ 0xb5c0fbcf ∷ 0xe9b5dba5 ∷ 0x3956c25b ∷ 0x59f111f1 ∷ 0x923f82a4
    ∷ 0xab1c5ed5 ∷ 0xd807aa98 ∷ 0x12835b01 ∷ 0x243185be ∷ 0x550c7dc3 ∷ 0x72be5d74 ∷ 0x80deb1fe
    ∷ 0x9bdc06a7 ∷ 0xc19bf174 ∷ 0xe49b69c1 ∷ 0xefbe4786 ∷ 0x0fc19dc6 ∷ 0x240ca1cc ∷ 0x2de92c6f
    ∷ 0x4a7484aa ∷ 0x5cb0a9dc ∷ 0x76f988da ∷ 0x983e5152 ∷ 0xa831c66d ∷ 0xb00327c8 ∷ 0xbf597fc7
    ∷ 0xc6e00bf3 ∷ 0xd5a79147 ∷ 0x06ca6351 ∷ 0x14292967 ∷ 0x27b70a85 ∷ 0x2e1b2138 ∷ 0x4d2c6dfc
    ∷ 0x53380d13 ∷ 0x650a7354 ∷ 0x766a0abb ∷ 0x81c2c92e ∷ 0x92722c85 ∷ 0xa2bfe8a1 ∷ 0xa81a664b
    ∷ 0xc24b8b70 ∷ 0xc76c51a3 ∷ 0xd192e819 ∷ 0xd6990624 ∷ 0xf40e3585 ∷ 0x106aa070 ∷ 0x19a4c116
    ∷ 0x1e376c08 ∷ 0x2748774c ∷ 0x34b0bcb5 ∷ 0x391c0cb3 ∷ 0x4ed8aa4a ∷ 0x5b9cca4f ∷ 0x682e6ff3
    ∷ 0x748f82ee ∷ 0x78a5636f ∷ 0x84c87814 ∷ 0x8cc70208 ∷ 0x90befffa ∷ 0xa4506ceb ∷ 0xbef9a3f7
    ∷ 0xc67178f2 ∷ []

-- `ROTR`
abbrev pub rotr : ℕ → ℕ → ℕ
rotr x n = bit_or (x / 2 ^ n) (x * 2 ^ (32 - n) % 2 ^ 32)

-- `h[8]`, and the eight variables of a block
pub record Words : Type 0 where
  pub a : ℕ
  pub b : ℕ
  pub c : ℕ
  pub d : ℕ
  pub e : ℕ
  pub f : ℕ
  pub g : ℕ
  pub j : ℕ

-- The first loop of `block`, from word `i` on
unfoldable pub load_words : ℕ → ℕ → List ℕ → List ℕ
load_words zero i p = []
load_words (suc n) i p =
    bit_or
      (bit_or (bit_or (get_or p (4 * i) 0 * 2 ^ 24) (get_or p (4 * i + 1) 0 * 2 ^ 16))
        (get_or p (4 * i + 2) 0 * 2 ^ 8))
      (get_or p (4 * i + 3) 0)
    ∷ load_words n (i + 1) p

abbrev pub next_word : ℕ → List ℕ → ℕ
next_word i w =
    let x = get_or w (i - 15) 0 in
    let y = get_or w (i - 2) 0 in
    let s₀ = bit_xor (bit_xor (rotr x 7) (rotr x 18)) (x / 2 ^ 3) in
    let s₁ = bit_xor (bit_xor (rotr y 17) (rotr y 19)) (y / 2 ^ 10) in
    (get_or w (i - 16) 0 + s₀ + get_or w (i - 7) 0 + s₁) % 2 ^ 32

-- The second loop
unfoldable pub extend_words : ℕ → ℕ → List ℕ → List ℕ
extend_words zero i w = w
extend_words (suc n) i w = extend_words n (i + 1) (w ++ next_word i w ∷ [])

-- The third loop
unfoldable pub mix_words : ℕ → ℕ → List ℕ → Words → Words
mix_words zero i w v = v
mix_words (suc n) i w v =
    let s₁ = bit_xor (bit_xor (rotr v.e 6) (rotr v.e 11)) (rotr v.e 25) in
    let ch = bit_xor (bit_and v.e v.f) (bit_and (2 ^ 32 - 1 - v.e) v.g) in
    let t₁ = (v.j + s₁ + ch + get_or k_table i 0 + get_or w i 0) % 2 ^ 32 in
    let s₀ = bit_xor (bit_xor (rotr v.a 2) (rotr v.a 13)) (rotr v.a 22) in
    let maj = bit_xor (bit_xor (bit_and v.a v.b) (bit_and v.a v.c)) (bit_and v.b v.c) in
    let t₂ = (s₀ + maj) % 2 ^ 32 in
    mix_words n (i + 1) w (record {
      a = (t₁ + t₂) % 2 ^ 32;
      b = v.a;
      c = v.b;
      d = v.c;
      e = (v.d + t₁) % 2 ^ 32;
      f = v.e;
      g = v.f;
      j = v.g;
    })

-- `block`, once the first words are loaded
unfoldable pub mix_block : Words → List ℕ → Words
unfolding extend_words mix_words
mix_block h w =
    let v = mix_words 64 0 (extend_words 48 16 w) h in
    record {
      a = (h.a + v.a) % 2 ^ 32;
      b = (h.b + v.b) % 2 ^ 32;
      c = (h.c + v.c) % 2 ^ 32;
      d = (h.d + v.d) % 2 ^ 32;
      e = (h.e + v.e) % 2 ^ 32;
      f = (h.f + v.f) % 2 ^ 32;
      g = (h.g + v.g) % 2 ^ 32;
      j = (h.j + v.j) % 2 ^ 32;
    }

unfoldable pub block : Words → List ℕ → Words
unfolding load_words mix_block
block h p = mix_block h (load_words 16 0 p)

abbrev pub h_initial : Words
h_initial = record {
  a = 0x6a09e667;
  b = 0xbb67ae85;
  c = 0x3c6ef372;
  d = 0xa54ff53a;
  e = 0x510e527f;
  f = 0x9b05688c;
  g = 0x1f83d9ab;
  j = 0x5be0cd19;
}

-- `block(h, s + 64 * i)` for the full blocks
unfoldable pub full_blocks : ℕ → ℕ → List ℕ → Words → Words
unfolding block
full_blocks zero i s h = h
full_blocks (suc n) i s h = full_blocks n (i + 1) s (block h (drop (64 * i) s))

-- `tail[tl - 1 - i] = (unsigned char)(bits >> (8 * i))`
unfoldable pub write_bits : ℕ → ℕ → ℕ → ℕ → List ℕ → List ℕ
write_bits zero i tl bits tail = tail
write_bits (suc n) i tl bits tail =
    write_bits n (i + 1) tl bits (set tail (tl - 1 - i) (bits / 2 ^ (8 * i) % 256))

-- `tail` once it is filled in, as far as `tl`
unfoldable pub tail_of : ℕ → ℕ → List ℕ → List ℕ
unfolding write_bits
tail_of tl rem s =
    let n = length s in
    write_bits 8 0 tl (n * 8 % 2 ^ 64)
      (take rem (drop (n / 64 * 64) s) ++ 128 ∷ replicate (tl - rem - 1) 0)

abbrev pub word_out : ℕ → List ℕ
word_out h = h / 2 ^ 24 % 256 ∷ h / 2 ^ 16 % 256 ∷ h / 2 ^ 8 % 256 ∷ h % 256 ∷ []

abbrev pub words_out : Words → List ℕ
words_out h =
    word_out h.a
    ++ word_out h.b
    ++ word_out h.c
    ++ word_out h.d
    ++ word_out h.e
    ++ word_out h.f
    ++ word_out h.g
    ++ word_out h.j

-- The last calls of `block`, when `tail` has one block or two
unfoldable pub last_blocks : ℕ → List ℕ → Words → Words
unfolding block
last_blocks tl tail h = let h₁ = block h tail in if tl == 128 then block h₁ (drop 64 tail) else h₁

unfoldable pub sha256_portable : List ℕ → List ℕ
unfolding full_blocks tail_of last_blocks
sha256_portable s =
    let n = length s in
    let h = full_blocks (n / 64) 0 s h_initial in
    let rem = n - n / 64 * 64 in
    let tl = if ltb rem 56 then 64 else 128 in words_out (last_blocks tl (tail_of tl rem s) h)

-- `push_hex`: the digits of each byte, the high one first
abbrev pub hex_digit : ℕ → ℕ
hex_digit x = if ltb x 10 then 48 + x else 87 + x

unfoldable pub push_hex : List ℕ → List ℕ
push_hex [] = []
push_hex (d ∷ ds) = hex_digit (d / 16) ∷ hex_digit (d % 16) ∷ push_hex ds

unfoldable pub l_sha256_portable : List ℕ → List ℕ
unfolding sha256_portable push_hex
l_sha256_portable s = push_hex (sha256_portable s)
