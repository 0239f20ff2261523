-- ===== src/Serve/Parse/Found.antt =====
-- src/lserve.c: what `strstr` finds in a text stays where it is when more bytes follow.
use boggart.Base.{
  ℕ, suc, ◌+◌, ◌≤◌, ◌≡◌, refl, ◌∙◌, sym, ap, List, [], ◌∷◌, ◌++◌, length, length-take, take,
  take-append, ◌==◌, true, false, Bool-cases, Option-cases, none, some, ◌⊎◌, inl, inr, bytes_eq,
  bytes_eq_iff, if◌then◌else◌, arith,
}
use boggart.Serve.Parse.Text.{text_of, strstr, next_match}

-- Where a text is found: here, or further on
strstr_cases :
    (n : List ℕ) (c : ℕ) (cs : List ℕ) (k : ℕ)
    → strstr n (c ∷ cs) ≡ some k
    → ((bytes_eq (take (length n) (c ∷ cs)) n ≡ true) × (k ≡ 0))
      ⊎ ((j : ℕ) × (bytes_eq (take (length n) (c ∷ cs)) n ≡ false)
          × (strstr n cs ≡ some j)
          × (k ≡ suc j))
unfolding strstr
strstr_cases n c cs k e = elim (Bool-cases (bytes_eq (take (length n) (c ∷ cs)) n)) [
  | inl t ↦
      let z : some 0 ≡ some k =
        sym (ap (λ b. if b then some 0 else next_match (strstr n cs)) t) ∙ e in
      inl (t, cc (z))
  | inr t ↦
      let z : next_match (strstr n cs) ≡ some k =
        sym (ap (λ b. if b then some 0 else next_match (strstr n cs)) t) ∙ e in
      elim (Option-cases (strstr n cs)) [
        | inl q ↦ let w : none ≡ some k = sym (ap next_match q) ∙ z in cc (w)
        | inr (j, q) ↦
            let w : some (suc j) ≡ some k = sym (ap next_match q) ∙ z in inr (j, t, q, cc (w))
      ]
]

pub strstr-le : (n xs : List ℕ) (k : ℕ) → strstr n xs ≡ some k → k + length n ≤ length xs
unfolding strstr
strstr-le n [] k e = cc (e)
strstr-le n (c ∷ cs) k e = elim (strstr_cases n c cs k e) [
  | inl (t, z) ↦
      let same = ap length ((bytes_eq_iff (take (length n) (c ∷ cs)) n).0 t) in
      omega (arith, length-take (length n) (c ∷ cs))
  | inr (j, t, q, z) ↦ omega (arith, strstr-le n cs j q)
]

-- What is found stays found.
pub strstr-append : (n xs ys : List ℕ) (k : ℕ) → strstr n xs ≡ some k → strstr n (xs ++ ys) ≡ some k
unfolding strstr
strstr-append n [] ys k e = cc (e)
strstr-append n (c ∷ cs) ys k e =
    let l = strstr-le n (c ∷ cs) k e in
    let front : bytes_eq (take (length n) (c ∷ cs ++ ys)) n
        ≡ bytes_eq (take (length n) (c ∷ cs)) n =
      ap (λ xs. bytes_eq xs n) (take-append (length n) (c ∷ cs) ys (omega arith)) in
    elim (strstr_cases n c cs k e) [
      | inl (t, z) ↦
          ap (λ b. if b then some 0 else next_match (strstr n (cs ++ ys))) (front ∙ t)
          ∙ ap some (sym z)
      | inr (j, t, q, z) ↦
          ap (λ b. if b then some 0 else next_match (strstr n (cs ++ ys))) (front ∙ t)
          ∙ ap next_match (strstr-append n cs ys j q)
          ∙ ap some (sym z)
    ]

pub text_of-append :
    (buf behind : List ℕ) → (rest : List ℕ) × (text_of (buf ++ behind) ≡ text_of buf ++ rest)
unfolding text_of
text_of-append [] behind = (text_of behind, refl)
text_of-append (c ∷ buf) behind = elim (Bool-cases (c == 0)) [
  | inl t ↦ ([], rw t refl)
  | inr t ↦ let (rest, e) = text_of-append buf behind in (rest, rw t (ap (λ xs. c ∷ xs) e))
]

pub text_of-le : (buf : List ℕ) → length (text_of buf) ≤ length buf
unfolding text_of
text_of-le [] = omega arith
text_of-le (c ∷ buf) = ground (arith, text_of-le buf)
