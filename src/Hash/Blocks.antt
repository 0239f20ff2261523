-- ===== src/Hash/Blocks.antt =====
-- src/lhash.c: a block reads 64 bytes, so the full blocks of a message are its first ones, whatever
-- follows.
use boggart.Base.{
  ℕ, zero, suc, ◌+◌, ◌*◌, ◌≤◌, ◌≡◌, refl, ◌∙◌, ap, ap₂, List, ◌++◌, length, length-drop, drop, take,
  drop-drop, get_or-take, drop-append, take-append, arith,
}
use boggart.Hash.{Words, load_words, mix_block, block, full_blocks}
use boggart.Hash.Spec.{hash_blocks}

load_words-take :
    (n i : ℕ) (p : List ℕ) → i + n ≤ 16 → load_words n i (take 64 p) ≡ load_words n i p
unfolding load_words
load_words-take zero i p h = refl
load_words-take (suc n) i p h =
    rw
      (
        get_or-take 64 (4 * i) p 0 (omega arith),
        get_or-take 64 (4 * i + 1) p 0 (omega arith),
        get_or-take 64 (4 * i + 2) p 0 (omega arith),
        get_or-take 64 (4 * i + 3) p 0 (omega arith),
        load_words-take n (i + 1) p (omega arith),
      )
      refl

-- A block reads 64 bytes.
pub block-take : (h : Words) (p : List ℕ) → block h (take 64 p) ≡ block h p
unfolding block
block-take h p = ap (mix_block h) (load_words-take 16 0 p (omega arith))

block-append : (h : Words) (p t : List ℕ) → 64 ≤ length p → block h (take 64 (p ++ t)) ≡ block h p
block-append h p t l = ap (block h) (take-append 64 p t l) ∙ block-take h p

-- The full blocks are the first blocks, whatever follows.
pub full_blocks-eq :
    (n k i : ℕ) (s t : List ℕ) (h : Words)
    → 64 * (i + n) ≤ length s
    → hash_blocks (n + k) (drop (64 * i) (s ++ t)) h
      ≡ hash_blocks k (drop (64 * (i + n)) (s ++ t)) (full_blocks n i s h)
unfolding hash_blocks full_blocks
full_blocks-eq zero k i s t h l =
    ap₂ (λ a b. hash_blocks a (drop b (s ++ t)) h) none_left same_place
  where
    none_left : 0 + k ≡ k
    none_left = omega arith

    same_place : 64 * i ≡ 64 * (i + 0)
    same_place = omega arith
full_blocks-eq (suc n) k i s t h l =
    ap (λ a. hash_blocks a (drop (64 * i) (s ++ t)) h) one_more
    ∙ ap₂ (hash_blocks (n + k))
        (drop-drop 64 (64 * i) (s ++ t) ∙ ap (λ a. drop a (s ++ t)) next_place) first_block
    ∙ full_blocks-eq n k (i + 1) s t (block h (drop (64 * i) s)) (omega arith)
    ∙ ap
        (λ a. hash_blocks k (drop a (s ++ t)) (full_blocks n (i + 1) s (block h (drop (64 * i) s))))
        last_place
  where
    one_more : suc n + k ≡ suc (n + k)
    one_more = omega arith

    next_place : 64 * i + 64 ≡ 64 * (i + 1)
    next_place = omega arith

    last_place : 64 * (i + 1 + n) ≡ 64 * (i + suc n)
    last_place = omega arith

    first_block : block h (take 64 (drop (64 * i) (s ++ t))) ≡ block h (drop (64 * i) s)
    first_block =
        ap (λ z. block h (take 64 z)) (drop-append (64 * i) s t (omega arith))
        ∙ block-append h (drop (64 * i) s) t (omega (arith, length-drop (64 * i) s))
