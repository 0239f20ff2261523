-- ===== src/Hash/Spec.antt =====
-- src/lhash.c: SHA-256 of a message that is padded first, as FIPS 180-4 says, and then cut into
-- blocks.
use boggart.Base.{
  ℕ, zero, suc, ◌-◌, ◌*◌, ◌/◌, ◌%◌, ◌^◌, List, [], ◌∷◌, ◌++◌, length, drop, take, replicate,
}
use boggart.Hash.{Words, block, h_initial, words_out}

-- The length in bits, as 8 bytes, the high one first
abbrev pub length_bytes : ℕ → List ℕ
length_bytes n =
    let bits = n * 8 % 2 ^ 64 in
    bits / 2 ^ 56 % 256
    ∷ bits / 2 ^ 48 % 256
    ∷ bits / 2 ^ 40 % 256
    ∷ bits / 2 ^ 32 % 256
    ∷ bits / 2 ^ 24 % 256
    ∷ bits / 2 ^ 16 % 256
    ∷ bits / 2 ^ 8 % 256
    ∷ bits % 256
    ∷ []

-- The fewest zeros after which 8 bytes are left of a block
abbrev pub zeros : ℕ → ℕ
zeros n = (119 - n % 64) % 64

unfoldable pub padded : List ℕ → List ℕ
padded s = s ++ (128 ∷ (replicate (zeros (length s)) 0 ++ length_bytes (length s)))

-- The blocks of 64 bytes, one after the other
unfoldable pub hash_blocks : ℕ → List ℕ → Words → Words
unfolding block
hash_blocks zero m h = h
hash_blocks (suc n) m h = hash_blocks n (drop 64 m) (block h (take 64 m))

unfoldable pub sha256 : List ℕ → List ℕ
unfolding hash_blocks padded
sha256 s = words_out (hash_blocks (length (padded s) / 64) (padded s) h_initial)
