-- ===== src/Views/Find/First.antt =====
-- src/lview.c: `memfind` finds the first place of a text.
use boggart.Base.{
  ℕ, zero, suc, ◌+◌, ◌-◌, ◌≤◌, ◌<◌, ◌≡◌, refl, ◌∙◌, sym, ap, List, [], ◌∷◌, length, length-take,
  length-drop, take, drop, get_or, get_or-take, get_or-drop, ltb, ◌==◌, Bool, true, false,
  Bool-cases, Option, Option-cases, none, some, inl, inr, memchr, memchr-cases, memchr-lt, bytes_eq,
  bytes_eq_iff, arith,
}
use boggart.Views.Find.{find_from, memfind}

-- Whether `n` is at place `j` of `h`
abbrev pub occurs : List ℕ → List ℕ → ℕ → Bool
occurs h n j = bytes_eq (take (length n) (drop j h)) n

-- The first place from `p` on where a test holds, or none
abbrev pub FirstFrom : (ℕ → Bool) → ℕ → Option ℕ → Type 0
FirstFrom test p none = (j : ℕ) → p ≤ j → test j ≡ false
FirstFrom test p (some k) = (p ≤ k) × (test k ≡ true) × ((j : ℕ) → p ≤ j → j < k → test j ≡ false)

memchr-none :
    (c : ℕ) (xs : List ℕ)
    → memchr c xs ≡ none
    → (j : ℕ) → j < length xs
    → (get_or xs j 0 == c) ≡ false
unfolding memchr
memchr-none c [] e j h = absurd (omega arith)
memchr-none c (x ∷ xs) e zero h = elim (Option-cases (memchr c xs)) [
  | inl t ↦ ground arith
  | inr (k, t) ↦ absurd (ground arith)
]
memchr-none c (x ∷ xs) e (suc j) h = elim (Option-cases (memchr c xs)) [
  | inl t ↦ memchr-none c xs t j (omega arith)
  | inr (k, t) ↦ absurd (ground arith)
]

memchr-some :
    (c : ℕ) (xs : List ℕ) (k : ℕ)
    → memchr c xs ≡ some k
    → (j : ℕ) → j < k
    → (get_or xs j 0 == c) ≡ false
memchr-some c [] k e j h = absurd (omega (arith, memchr-lt c [] k e))
memchr-some c (x ∷ xs) k e zero h = elim (memchr-cases c x xs k e) [
  | inl (t, z) ↦ absurd (omega arith)
  | inr (i, t, q, z) ↦ t
]
memchr-some c (x ∷ xs) k e (suc j) h = elim (memchr-cases c x xs k e) [
  | inl (t, z) ↦ absurd (omega arith)
  | inr (i, t, q, z) ↦ memchr-some c xs i q j (omega arith)
]

-- A text is only where it has room and where its first byte is.
occurs-byte :
    (h : List ℕ) (c : ℕ) (n : List ℕ) (j : ℕ)
    → occurs h (c ∷ n) j ≡ true
    → (j + length (c ∷ n) ≤ length h) × ((get_or h j 0 == c) ≡ true)
occurs-byte h c n j e =
    let same = (bytes_eq_iff (take (length (c ∷ n)) (drop j h)) (c ∷ n)).0 e in
    let l = ap length same in
    let byte =
      sym (get_or-take (length (c ∷ n)) 0 (drop j h) 0 (omega arith) ∙ get_or-drop j 0 h 0)
      ∙ ap (λ xs. get_or xs 0 0) same in
    let here : j + 0 ≡ j = omega arith in
    let byte_here : get_or h j 0 ≡ c = sym (ap (λ i. get_or h i 0) here) ∙ byte in
    (omega (arith, length-take (length (c ∷ n)) (drop j h), length-drop j h), ground arith)

-- Where there is no room, or another byte, the text is not.
occurs-room :
    (h : List ℕ) (c : ℕ) (n : List ℕ) (j : ℕ)
    → length h < j + length (c ∷ n)
    → occurs h (c ∷ n) j ≡ false
occurs-room h c n j l = elim (Bool-cases (occurs h (c ∷ n) j)) [
  | inl e ↦ absurd (omega (arith, (occurs-byte h c n j e).0))
  | inr e ↦ e
]

occurs-other :
    (h : List ℕ) (c : ℕ) (n : List ℕ) (j : ℕ)
    → (get_or h j 0 == c) ≡ false
    → occurs h (c ∷ n) j ≡ false
occurs-other h c n j l = elim (Bool-cases (occurs h (c ∷ n) j)) [
  | inl e ↦ let b = (occurs-byte h c n j e).1 in cc (b, l)
  | inr e ↦ e
]

part-byte :
    (h : List ℕ) (p m j : ℕ)
    → p ≤ j
    → j < p + m
    → get_or (take m (drop p h)) (j - p) 0 ≡ get_or h j 0
part-byte h p m j k l =
    let same : p + (j - p) ≡ j = omega arith in
    get_or-take m (j - p) (drop p h) 0 (omega arith)
    ∙ get_or-drop p (j - p) h 0
    ∙ ap (λ i. get_or h i 0) same

before_later :
    (test : ℕ → Bool) (p q j : ℕ)
    → ((j : ℕ) → p ≤ j → j < q → test j ≡ false)
    → test q ≡ false
    → (q + 1 ≤ j → test j ≡ false)
    → p ≤ j
    → test j ≡ false
before_later test p q j before here f k = elim (Bool-cases (ltb j q)) [
  | inl t ↦ before j k (ground arith)
  | inr t ↦ elim (Bool-cases (j == q)) [
    | inl e ↦ let same : j ≡ q = ground arith in rw same here
    | inr e ↦ f (ground arith)
  ]
]

FirstFrom-later :
    (test : ℕ → Bool) (p q : ℕ) (o : Option ℕ)
    → ((j : ℕ) → p ≤ j → j < q → test j ≡ false)
    → test q ≡ false
    → p ≤ q
    → FirstFrom test (q + 1) o
    → FirstFrom test p o
FirstFrom-later test p q none before here l f = λ j k. before_later test p q j before here (f j) k
FirstFrom-later test p q (some i) before here l (a, b, f) =
    (omega arith, b, λ j k m. before_later test p q j before here (λ g. f j g m) k)

module _ (h : List ℕ) (c : ℕ) (n : List ℕ) (fits : length (c ∷ n) ≤ length h) where
  abbrev last_place : ℕ
  last_place = length h - length (c ∷ n)

  find_from-none :
      (p : ℕ)
      → p ≤ last_place
      → memchr c (take (last_place - p + 1) (drop p h)) ≡ none
      → FirstFrom (occurs h (c ∷ n)) p none
  find_from-none p l e j k = elim (Bool-cases (ltb last_place j)) [
    | inl t ↦ occurs-room h c n j (ground arith)
    | inr t ↦
        let m = last_place - p + 1 in
        let a = length-take m (drop p h) in
        let b = length-drop p h in
        occurs-other h c n j (
          ap (λ x. x == c) (sym (part-byte h p m j k (ground arith)))
          ∙ memchr-none c (take m (drop p h)) e (j - p) (ground arith))
  ]

  find_from-before :
      (p k : ℕ)
      → memchr c (take (last_place - p + 1) (drop p h)) ≡ some k
      → (j : ℕ) → p ≤ j
      → j < p + k
      → occurs h (c ∷ n) j ≡ false
  find_from-before p k e j a b =
      let m = last_place - p + 1 in
      let l = memchr-lt c (take m (drop p h)) k e in
      occurs-other h c n j (
        ap (λ x. x == c) (sym (part-byte h p m j a (omega (arith, length-take m (drop p h)))))
        ∙ memchr-some c (take m (drop p h)) k e (j - p) (omega arith))

  find_from-FirstFrom :
      (fuel p : ℕ)
      → length h ≤ p + fuel
      → FirstFrom (occurs h (c ∷ n)) p (find_from fuel h (c ∷ n) last_place p)
  unfolding find_from
  find_from-FirstFrom zero p e = λ j k. occurs-room h c n j (omega arith)
  find_from-FirstFrom (suc fuel) p e = elim (Bool-cases (ltb last_place p)) [
    | inl t ↦ rw (t, find_from) (λ j k. occurs-room h c n j (ground arith))
    | inr t ↦ elim (Option-cases (memchr c (take (last_place - p + 1) (drop p h)))) [
      | inl q ↦ rw (t, q, find_from) (find_from-none p (ground arith) q)
      | inr (k, q) ↦ elim (Bool-cases (occurs h (c ∷ n) (p + k))) [
        | inl o ↦ rw (t, q, o, find_from) (omega arith, o, find_from-before p k q)
        | inr o ↦
            rw (t, q, o, find_from)
              (FirstFrom-later (occurs h (c ∷ n)) p (p + k)
                (find_from fuel h (c ∷ n) last_place (p + k + 1)) (find_from-before p k q) o
                (omega arith) (find_from-FirstFrom fuel (p + k + 1) (omega arith)))
      ]
    ]
  ]

-- The first place of a text, if there is one
pub memfind-FirstFrom : (h n : List ℕ) → FirstFrom (occurs h n) 0 (memfind h n)
unfolding memfind bytes_eq
memfind-FirstFrom h [] = (omega arith, refl, λ j k l. absurd (omega arith))
memfind-FirstFrom h (c ∷ n) =
    let z : (length (c ∷ n) == 0) ≡ false = ground arith in
    elim (Bool-cases (ltb (length h) (length (c ∷ n)))) [
      | inl t ↦ rw (z, t, memfind) (λ j k. occurs-room h c n j (ground arith))
      | inr t ↦
          rw (z, t, memfind) (find_from-FirstFrom h c n (ground arith) (length h) 0 (omega arith))
    ]
