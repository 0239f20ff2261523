-- ===== src/Term/Flush/Rendition.antt =====
-- The terminal reads `ob_sgr` of src/termctl.c as the colours and the attributes that it is called with.
use boggart.Base.{
  ℕ, ◌+◌, ◌<◌, ◌≡◌, refl, ◌∙◌, ap, ◌==◌, bit_and, bit_or, same_table, tables_eq, List, [], ◌∷◌,
  ◌++◌, append_assoc, Bool-cases, inl, inr, if◌then◌else◌, arith,
}
use boggart.Base.Int.{ℤ, pos, negsuc}
use boggart.Term.Flush.{ob_flag, ob_colour, ob_sgr}
use boggart.Term.Flush.Display.{Display, term_colour}
use boggart.Term.Flush.Terminal.{plain, control, dye, dye_all, finish, feed_byte, feed}
use boggart.Term.Flush.Reading.{feed-append, digit_lem, ob_uint-feed, ten_to}

-- The numbers that are read, and the one that is being read, behind these
abbrev after : List ℕ → ℕ → List ℕ → List ℕ × ℕ
after ps n [] = (ps, n)
after ps n (q ∷ qs) = after (ps ++ (n ∷ [])) q qs

after-append :
    (ps : List ℕ) (n : ℕ) (qs rs : List ℕ)
    → after (after ps n qs).0 (after ps n qs).1 rs ≡ after ps n (qs ++ rs)
after-append ps n [] rs = refl
after-append ps n (q ∷ qs) rs = after-append (ps ++ (n ∷ [])) q qs rs

after_all :
    (ps : List ℕ) (n : ℕ) (qs : List ℕ)
    → (after ps n qs).0 ++ ((after ps n qs).1 ∷ []) ≡ ps ++ (n ∷ qs)
after_all ps n [] = refl
after_all ps n (q ∷ qs) = after_all (ps ++ (n ∷ [])) q qs ∙ append_assoc ps (n ∷ []) (q ∷ qs)

-- These bytes, inside a control sequence, are these further numbers.
abbrev Spells : List ℕ → List ℕ → Type 0
Spells u qs =
    (w : ℕ) (ps : List ℕ) (n : ℕ) (d : Display)
    → feed w u (control ps n, d) ≡ (control (after ps n qs).0 (after ps n qs).1, d)

Spells-append : (u v qs rs : List ℕ) → Spells u qs → Spells v rs → Spells (u ++ v) (qs ++ rs)
Spells-append u v qs rs h k w ps n d =
    feed-append w u v (control ps n, d)
    ∙ ap (feed w v) (h w ps n d)
    ∙ k w (after ps n qs).0 (after ps n qs).1 d
    ∙ ap (λ (q : List ℕ × ℕ). (control q.0 q.1, d)) (after-append ps n qs rs)

abbrev flag_numbers : ℕ → ℕ → ℕ → List ℕ
flag_numbers attr bit k = if bit_and attr bit == 0 then [] else k ∷ []

flag-Spells :
    (attr bit k : ℕ) → k < 10 → Spells (ob_flag attr bit (b'0' + k)) (flag_numbers attr bit k)
unfolding feed feed_byte
flag-Spells attr bit k h w ps n d = elim (Bool-cases (bit_and attr bit == 0)) [
  | inl e ↦ rw e refl
  | inr e ↦ rw e (
      digit_lem w k 0 (ps ++ (n ∷ [])) d h
      ∙ ap (λ (m : ℕ). (control (ps ++ (n ∷ [])) m, d)) (omega arith))
]

-- A colour that `unsigned` has digits enough for
abbrev pub Small : ℤ → Type 0
Small (pos c) = c < ten_to 12
Small (negsuc c) = Unit {0}

abbrev colour_numbers : ℕ → ℕ → ℤ → List ℕ
colour_numbers set unset (pos c) = set ∷ 5 ∷ c ∷ []
colour_numbers set unset (negsuc c) = unset ∷ []

ink-Spells : (c : ℤ) → Small c → Spells (ob_colour b'3' c) (colour_numbers 38 39 c)
unfolding ob_colour feed feed_byte
ink-Spells (pos c) h w ps n d = ob_uint-feed w c (((ps ++ (n ∷ [])) ++ (38 ∷ [])) ++ (5 ∷ [])) d h
ink-Spells (negsuc c) h w ps n d = refl

paper-Spells : (c : ℤ) → Small c → Spells (ob_colour b'4' c) (colour_numbers 48 49 c)
unfolding ob_colour feed feed_byte
paper-Spells (pos c) h w ps n d = ob_uint-feed w c (((ps ++ (n ∷ [])) ++ (48 ∷ [])) ++ (5 ∷ [])) d h
paper-Spells (negsuc c) h w ps n d = refl

-- What the numbers mean
dye_all-append :
    (ps qs : List ℕ) (s : ℕ × Display) → dye_all (ps ++ qs) s ≡ dye_all qs (dye_all ps s)
unfolding dye_all
dye_all-append [] qs s = refl
dye_all-append (p ∷ ps) qs s = dye_all-append ps qs (dye p s)

abbrev with_bit : ℕ → ℕ → ℕ → ℕ
with_bit attr bit a = if bit_and attr bit == 0 then a else bit_or a bit

flag_dyes :
    (attr bit k : ℕ)
    → ((d : Display) → dye k (0, d) ≡ (0, record d { attr = bit_or d.attr bit }))
    → (d : Display)
    → dye_all (flag_numbers attr bit k) (0, d) ≡ (0, record d { attr = with_bit attr bit d.attr })
unfolding dye_all
flag_dyes attr bit k h d = elim (Bool-cases (bit_and attr bit == 0)) [
  | inl e ↦ rw e refl
  | inr e ↦ rw e (h d)
]

ink_dyes :
    (c : ℤ) (d : Display)
    → dye_all (colour_numbers 38 39 c) (0, d) ≡ (0, record d { fg = term_colour c })
unfolding dye_all dye
ink_dyes (pos c) d = refl
ink_dyes (negsuc c) d = refl

paper_dyes :
    (c : ℤ) (d : Display)
    → dye_all (colour_numbers 48 49 c) (0, d) ≡ (0, record d { bg = term_colour c })
unfolding dye_all dye
paper_dyes (pos c) d = refl
paper_dyes (negsuc c) d = refl

abbrev all_bits : ℕ → ℕ
all_bits a = with_bit a 8 (with_bit a 4 (with_bit a 2 (with_bit a 1 0)))

all_bits-eq : (a : ℕ) → a < 16 → all_bits a ≡ a
unfolding same_table
all_bits-eq a h = tables_eq 16 all_bits (λ a. a) a refl h

abbrev numbers : ℤ → ℤ → ℕ → List ℕ
numbers fg bg attr =
    flag_numbers attr 1 1
    ++ (flag_numbers attr 2 2
        ++ (flag_numbers attr 4 4
            ++ (flag_numbers attr 8 7 ++ (colour_numbers 38 39 fg ++ colour_numbers 48 49 bg))))

numbers_dye :
    (fg bg : ℤ) (attr : ℕ) (d : Display)
    → attr < 16
    → (dye_all (0 ∷ numbers fg bg attr) (0, d)).1
      ≡ record d { fg = term_colour fg; bg = term_colour bg; attr = attr }
unfolding dye_all dye
numbers_dye fg bg attr d h =
    let d₀ : Display = record d { fg = negsuc 0; bg = negsuc 0; attr = 0 } in
    let a₁ = with_bit attr 1 0 in
    let a₂ = with_bit attr 2 a₁ in
    let a₄ = with_bit attr 4 a₂ in
    let a₈ = with_bit attr 8 a₄ in
    let rest₈ = colour_numbers 38 39 fg ++ colour_numbers 48 49 bg in
    let rest₄ = flag_numbers attr 8 7 ++ rest₈ in
    let rest₂ = flag_numbers attr 4 4 ++ rest₄ in
    let rest₁ = flag_numbers attr 2 2 ++ rest₂ in
    ap (λ (s : ℕ × Display). s.1)
      (dye_all-append (flag_numbers attr 1 1) rest₁ (0, d₀)
        ∙ ap (dye_all rest₁) (flag_dyes attr 1 1 (λ e. refl) d₀)
        ∙ dye_all-append (flag_numbers attr 2 2) rest₂ _
        ∙ ap (dye_all rest₂) (flag_dyes attr 2 2 (λ e. refl) (record d₀ { attr = a₁ }))
        ∙ dye_all-append (flag_numbers attr 4 4) rest₄ _
        ∙ ap (dye_all rest₄) (flag_dyes attr 4 4 (λ e. refl) (record d₀ { attr = a₂ }))
        ∙ dye_all-append (flag_numbers attr 8 7) rest₈ _
        ∙ ap (dye_all rest₈) (flag_dyes attr 8 7 (λ e. refl) (record d₀ { attr = a₄ }))
        ∙ dye_all-append (colour_numbers 38 39 fg) (colour_numbers 48 49 bg) _
        ∙ ap (dye_all (colour_numbers 48 49 bg)) (ink_dyes fg (record d₀ { attr = a₈ }))
        ∙ paper_dyes bg (record d₀ { attr = a₈; fg = term_colour fg }))
    ∙ ap (λ (a : ℕ). record d { fg = term_colour fg; bg = term_colour bg; attr = a })
        (all_bits-eq attr h)

numbers-Spells :
    (fg bg : ℤ) (attr : ℕ)
    → Small fg
    → Small bg
    → Spells
        (ob_flag attr 1 b'1'
          ++ (ob_flag attr 2 b'2'
              ++ (ob_flag attr 4 b'4'
                  ++ (ob_flag attr 8 b'7' ++ (ob_colour b'3' fg ++ ob_colour b'4' bg)))))
        (numbers fg bg attr)
numbers-Spells fg bg attr h k =
    let c₃ = colour_numbers 38 39 fg in
    let c₄ = colour_numbers 48 49 bg in
    let f₁ = flag_numbers attr 1 1 in
    let f₂ = flag_numbers attr 2 2 in
    let f₄ = flag_numbers attr 4 4 in
    let f₈ = flag_numbers attr 8 7 in
    Spells-append _ _ f₁ (f₂ ++ (f₄ ++ (f₈ ++ (c₃ ++ c₄)))) (flag-Spells attr 1 1 (omega arith)) (
      Spells-append _ _ f₂ (f₄ ++ (f₈ ++ (c₃ ++ c₄))) (flag-Spells attr 2 2 (omega arith)) (
        Spells-append _ _ f₄ (f₈ ++ (c₃ ++ c₄)) (flag-Spells attr 4 4 (omega arith)) (
          Spells-append _ _ f₈ (c₃ ++ c₄) (flag-Spells attr 8 7 (omega arith))
            (Spells-append _ _ c₃ c₄ (ink-Spells fg h) (paper-Spells bg k)))))

pub ob_sgr-feed :
    (w : ℕ) (fg bg : ℤ) (attr : ℕ) (d : Display)
    → attr < 16
    → Small fg
    → Small bg
    → feed w (ob_sgr fg bg attr) (plain, d)
      ≡ (plain, record d { fg = term_colour fg; bg = term_colour bg; attr = attr })
unfolding ob_sgr feed feed_byte finish
ob_sgr-feed w fg bg attr d h k l =
    let f₁ = ob_flag attr 1 b'1' in
    let f₂ = ob_flag attr 2 b'2' in
    let f₄ = ob_flag attr 4 b'4' in
    let f₈ = ob_flag attr 8 b'7' in
    let c₃ = ob_colour b'3' fg in
    let c₄ = ob_colour b'4' bg in
    let u = f₁ ++ (f₂ ++ (f₄ ++ (f₈ ++ (c₃ ++ c₄)))) in
    let q = after [] 0 (numbers fg bg attr) in
    ap (λ (v : List ℕ). feed w v (control [] 0, d)) (joined f₁ f₂ f₄ f₈ c₃ c₄)
    ∙ feed-append w u (b'm' ∷ []) (control [] 0, d)
    ∙ ap (feed w (b'm' ∷ [])) (numbers-Spells fg bg attr k l w [] 0 d)
    ∙ ap (λ (ps : List ℕ). (plain, (dye_all ps (0, d)).1)) (after_all [] 0 (numbers fg bg attr))
    ∙ ap (λ (e : Display). (plain, e)) (numbers_dye fg bg attr d h)
  where
    joined :
        (a b c e f g : List ℕ)
        → a ++ (b ++ (c ++ (e ++ (f ++ (g ++ (b'm' ∷ []))))))
          ≡ (a ++ (b ++ (c ++ (e ++ (f ++ g))))) ++ (b'm' ∷ [])
    joined a b c e f g =
        rw
          (
            append_assoc a (b ++ (c ++ (e ++ (f ++ g)))) (b'm' ∷ []),
            append_assoc b (c ++ (e ++ (f ++ g))) (b'm' ∷ []),
            append_assoc c (e ++ (f ++ g)) (b'm' ∷ []),
            append_assoc e (f ++ g) (b'm' ∷ []),
            append_assoc f g (b'm' ∷ []),
          )
          refl
