-- ===== src/Hash/Padded.antt =====
-- src/lhash.c: the code reads the full blocks of a message where they are and builds only its end.
use boggart.Base.{
  ℕ, suc, ◌+◌, ◌-◌, ◌*◌, ◌/◌, ◌%◌, ◌^◌, ◌≡◌, ◌∙◌, sym, ap, ap₂, List, [], ◌∷◌, ◌++◌, append_assoc,
  length, length-append, length-replicate, length-drop, drop, take, drop-append, take-all,
  set-append, replicate, replicate-add, ltb, Bool-cases, inl, inr, true, false, if◌then◌else◌,
  arith,
}
use boggart.Hash.{
  Words, block, full_blocks, write_bits, tail_of, h_initial, words_out, sha256_portable,
  last_blocks,
}
use boggart.Hash.Spec.{length_bytes, zeros, padded, hash_blocks, sha256}
use boggart.Hash.Blocks.{block-take, full_blocks-eq}

-- The last 8 bytes of the tail become the length.
write_bits-eq :
    (xs : List ℕ) (tl n : ℕ)
    → tl ≡ length xs + 8
    → write_bits 8 0 tl (n * 8 % 2 ^ 64) (xs ++ replicate 8 0) ≡ xs ++ length_bytes n
unfolding write_bits
write_bits-eq xs tl n e =
    let b : ℕ → ℕ = λ i. n * 8 % 2 ^ 64 / 2 ^ (8 * i) % 256 in
    rw
      (
        set-append xs (0 ∷ 0 ∷ 0 ∷ 0 ∷ 0 ∷ 0 ∷ 0 ∷ 0 ∷ []) (tl - 1 - 0) 7 (b 0) (omega arith),
        set-append xs (0 ∷ 0 ∷ 0 ∷ 0 ∷ 0 ∷ 0 ∷ 0 ∷ b 0 ∷ []) (tl - 1 - 1) 6 (b 1) (omega arith),
        set-append xs (0 ∷ 0 ∷ 0 ∷ 0 ∷ 0 ∷ 0 ∷ b 1 ∷ b 0 ∷ []) (tl - 1 - 2) 5 (b 2) (omega arith),
        set-append xs (0 ∷ 0 ∷ 0 ∷ 0 ∷ 0 ∷ b 2 ∷ b 1 ∷ b 0 ∷ []) (tl - 1 - 3) 4 (b 3) (omega arith),
        set-append xs (0 ∷ 0 ∷ 0 ∷ 0 ∷ b 3 ∷ b 2 ∷ b 1 ∷ b 0 ∷ []) (tl - 1 - 4) 3 (b 4)
            (omega arith),
        set-append xs (0 ∷ 0 ∷ 0 ∷ b 4 ∷ b 3 ∷ b 2 ∷ b 1 ∷ b 0 ∷ []) (tl - 1 - 5) 2 (b 5)
            (omega arith),
        set-append xs (0 ∷ 0 ∷ b 5 ∷ b 4 ∷ b 3 ∷ b 2 ∷ b 1 ∷ b 0 ∷ []) (tl - 1 - 6) 1 (b 6)
            (omega arith),
        set-append xs (0 ∷ b 6 ∷ b 5 ∷ b 4 ∷ b 3 ∷ b 2 ∷ b 1 ∷ b 0 ∷ []) (tl - 1 - 7) 0 (b 7)
            (omega arith),
      )
      (ap (λ z. xs ++ b 7 ∷ b 6 ∷ b 5 ∷ b 4 ∷ b 3 ∷ b 2 ∷ b 1 ∷ z ∷ []) unshifted)
  where
    unshifted : n * 8 % 2 ^ 64 / 1 % 256 ≡ n * 8 % 2 ^ 64 % 256
    unshifted = omega arith

module _ (s : List ℕ) where
  -- What is left after the full blocks, and the 1 bit and the zeros
  abbrev before_length : List ℕ
  before_length = drop (64 * (length s / 64)) s ++ 128 ∷ replicate (zeros (length s)) 0

  -- The tail is what the padded message has after the full blocks.
  tail_of-eq :
      (tl : ℕ)
      → tl ≡ length s % 64 + 1 + zeros (length s) + 8
      → tail_of tl (length s - length s / 64 * 64) s ≡ drop (64 * (length s / 64)) (padded s)
  unfolding tail_of padded
  tail_of-eq tl e =
      ap₂ (λ kept cleared. write_bits 8 0 tl (length s * 8 % 2 ^ 64) (kept ++ 128 ∷ cleared))
        kept_all (ap (λ z. replicate z 0) room ∙ replicate-add (zeros (length s)) 8 0)
      ∙ ap (write_bits 8 0 tl (length s * 8 % 2 ^ 64)) (
          sym (
            append_assoc (drop (64 * (length s / 64)) s) (128 ∷ replicate (zeros (length s)) 0)
              (replicate 8 0)))
      ∙ write_bits-eq before_length tl (length s) fits
      ∙ append_assoc (drop (64 * (length s / 64)) s) (128 ∷ replicate (zeros (length s)) 0)
          (length_bytes (length s))
      ∙ sym (drop-append (64 * (length s / 64)) s _ (omega arith))
    where
      same_place : length s / 64 * 64 ≡ 64 * (length s / 64)
      same_place = omega arith

      kept_all :
          take (length s - length s / 64 * 64) (drop (length s / 64 * 64) s)
          ≡ drop (64 * (length s / 64)) s
      kept_all =
          ap (λ m. take (length s - length s / 64 * 64) (drop m s)) same_place
          ∙ take-all (length s - length s / 64 * 64) (drop (64 * (length s / 64)) s)
              (omega (arith, length-drop (64 * (length s / 64)) s))

      room : tl - (length s - length s / 64 * 64) - 1 ≡ zeros (length s) + 8
      room = omega arith

      fits : tl ≡ length before_length + 8
      fits = omega (
        arith,
        length-append (drop (64 * (length s / 64)) s) (128 ∷ replicate (zeros (length s)) 0),
        length-drop (64 * (length s / 64)) s,
        length-replicate {A = ℕ} (zeros (length s)) 0,
      )

  blocks_after :
      (k : ℕ)
      → length (padded s) / 64 ≡ length s / 64 + k
      → hash_blocks (length (padded s) / 64) (padded s) h_initial
        ≡ hash_blocks k
            (drop (64 * (length s / 64)) (padded s))
            (full_blocks (length s / 64) 0 s h_initial)
  unfolding padded
  blocks_after k e =
      ap (λ n. hash_blocks n (padded s) h_initial) e
      ∙ full_blocks-eq (length s / 64) k 0 s
          (128 ∷ (replicate (zeros (length s)) 0 ++ length_bytes (length s))) h_initial
          (omega arith)
      ∙ ap (λ m. hash_blocks k (drop m (padded s)) (full_blocks (length s / 64) 0 s h_initial))
          same_place
    where
      same_place : 64 * (0 + length s / 64) ≡ 64 * (length s / 64)
      same_place = omega arith

  length-padded : length (padded s) ≡ length s + 1 + zeros (length s) + 8
  unfolding padded
  length-padded =
      length-append s (128 ∷ (replicate (zeros (length s)) 0 ++ length_bytes (length s)))
      ∙ ap (λ n. length s + suc n)
          (length-append (replicate (zeros (length s)) 0) (length_bytes (length s)))
      ∙ omega (arith, length-replicate {A = ℕ} (zeros (length s)) 0)

  -- The end of the message, in as many blocks as its tail has
  ending :
      (tl k : ℕ)
      → tl ≡ length s % 64 + 1 + zeros (length s) + 8
      → length (padded s) / 64 ≡ length s / 64 + k
      → ((p : List ℕ) (h : Words) → last_blocks tl p h ≡ hash_blocks k p h)
      → last_blocks tl
          (tail_of tl (length s - length s / 64 * 64) s)
          (full_blocks (length s / 64) 0 s h_initial)
        ≡ hash_blocks (length (padded s) / 64) (padded s) h_initial
  ending tl k e l last =
      last (tail_of tl (length s - length s / 64 * 64) s)
        (full_blocks (length s / 64) 0 s h_initial)
      ∙ ap (λ p. hash_blocks k p (full_blocks (length s / 64) 0 s h_initial)) (tail_of-eq tl e)
      ∙ sym (blocks_after k l)

last_blocks-one : (p : List ℕ) (h : Words) → last_blocks 64 p h ≡ hash_blocks 1 p h
unfolding last_blocks hash_blocks
last_blocks-one p h = sym (block-take h p)

last_blocks-two : (p : List ℕ) (h : Words) → last_blocks 128 p h ≡ hash_blocks 2 p h
unfolding last_blocks hash_blocks
last_blocks-two p h =
    ap (λ g. block g (drop 64 p)) (sym (block-take h p))
    ∙ sym (block-take (block h (take 64 p)) (drop 64 p))

-- Where the tail has room for the length, it is one block, else two.
one_block :
    (n : ℕ)
    → ltb (n - n / 64 * 64) 56 ≡ true
    → (64 ≡ n % 64 + 1 + zeros n + 8) × ((n + 1 + zeros n + 8) / 64 ≡ n / 64 + 1)
one_block n e = (ground arith, ground arith)

two_blocks :
    (n : ℕ)
    → ltb (n - n / 64 * 64) 56 ≡ false
    → (128 ≡ n % 64 + 1 + zeros n + 8) × ((n + 1 + zeros n + 8) / 64 ≡ n / 64 + 2)
two_blocks n e = (ground arith, ground arith)

-- The code's digest is that of the message padded as FIPS 180-4 says and cut into blocks.
pub sha256_portable-eq : (s : List ℕ) → sha256_portable s ≡ sha256 s
unfolding sha256_portable sha256
sha256_portable-eq s = ap words_out (elim (Bool-cases (ltb rem 56)) [
  | inl e ↦
      as_long 64 (ap (λ b. if b then 64 else 128) e)
      ∙ ending s 64 1 (one_block (length s) e).0
          (ap (λ n. n / 64) (length-padded s) ∙ (one_block (length s) e).1) last_blocks-one
  | inr e ↦
      as_long 128 (ap (λ b. if b then 64 else 128) e)
      ∙ ending s 128 2 (two_blocks (length s) e).0
          (ap (λ n. n / 64) (length-padded s) ∙ (two_blocks (length s) e).1) last_blocks-two
])
  where
    rem : ℕ
    rem = length s - length s / 64 * 64

    as_long :
        (tl : ℕ)
        → (if ltb rem 56 then 64 else 128) ≡ tl
        → last_blocks
            (if ltb rem 56 then 64 else 128)
            (tail_of (if ltb rem 56 then 64 else 128) rem s)
            (full_blocks (length s / 64) 0 s h_initial)
          ≡ last_blocks tl (tail_of tl rem s) (full_blocks (length s / 64) 0 s h_initial)
    as_long tl e =
        ap (λ t. last_blocks t (tail_of t rem s) (full_blocks (length s / 64) 0 s h_initial)) e
