-- ===== src/Serve/Parse/Lengths.antt =====
-- src/lserve.c: the length that the header lines tell is not larger than a body may be.
use boggart.Base.{
  ℕ, zero, suc, ◌+◌, ◌-◌, ◌*◌, ◌≤◌, ◌≡◌, refl, ◌∙◌, sym, subst, List, [], ◌∷◌, map, length, take,
  drop, ltb, ◌==◌, ◌||◌, Bool, true, false, Bool-cases, Option, Option-cases, none, some, inl, inr,
  memchr, bytes_eq, if◌then◌else◌, arith,
}
use boggart.Serve.Auth.{lower_letter}
use boggart.Serve.Buffer.{max_body}
use boggart.Serve.Parse.{
  Fields, parse_length, set_length, set_field, header_field, header_line, header_lines,
}
use boggart.Serve.Parse.Text.{
  strstr, crlf, trim, content_length, transfer_encoding, authorization, host_name, origin_name,
}

parse_length-le : (n m : ℕ) (cs : List ℕ) → n ≤ max_body → parse_length n cs ≡ some m → m ≤ max_body
unfolding parse_length
parse_length-le n m [] h e = let same : n ≡ m = cc (e) in omega arith
parse_length-le n m (c ∷ cs) h e = elim (Bool-cases (ltb c b'0' || ltb b'9' c)) [
  | inl t ↦ absurd (ground (arith, t, e))
  | inr t ↦ elim (Bool-cases (ltb max_body (n * 10 + (c - b'0')))) [
    | inl u ↦ absurd (ground (arith, t, u, e))
    | inr u ↦
        let step : parse_length n (c ∷ cs) ≡ parse_length (n * 10 + (c - b'0')) cs =
          rw (t, u, parse_length) refl in
        parse_length-le (n * 10 + (c - b'0')) m cs (ground arith) (sym step ∙ e)
  ]
]

-- No length is larger than a body may be.
abbrev pub IsSmall : Option Fields → Type 0
IsSmall none = Unit {0}
IsSmall (some st) = st.content_len ≤ max_body

IsSmall-if : (b : Bool) (x y : Option Fields) → IsSmall x → IsSmall y → IsSmall (if b then x else y)
IsSmall-if true x y h k = h
IsSmall-if false x y h k = k

set_field-IsSmall :
    (old : Option (List ℕ)) (value : List ℕ) (st : Fields)
    → st.content_len ≤ max_body
    → IsSmall (set_field old value st)
set_field-IsSmall (some old) value st h = tt
set_field-IsSmall none [] st h = tt
set_field-IsSmall none (c ∷ cs) st h = h

set_length-IsSmall :
    (st : Fields) (value : List ℕ)
    → st.content_len ≤ max_body
    → IsSmall (set_length st (parse_length st.content_len value))
set_length-IsSmall st value h = elim (Option-cases (parse_length st.content_len value)) [
  | inl e ↦ rw e tt
  | inr (m, e) ↦ rw e (parse_length-le st.content_len m value h e)
]

header_field-IsSmall :
    (name value : List ℕ) (st : Fields)
    → st.content_len ≤ max_body
    → IsSmall (header_field name value st)
unfolding header_field
header_field-IsSmall name value st h =
    let key = map lower_letter name in
    elim (Bool-cases (bytes_eq key content_length)) [
      | inl a ↦
          rw (a, header_field)
            (IsSmall-if (st.seen_length || (length value == 0)) none
              (set_length st (parse_length st.content_len value)) tt
              (set_length-IsSmall st value h))
      | inr a ↦ elim (Bool-cases (bytes_eq key transfer_encoding)) [
        | inl b ↦ rw (a, b, header_field) tt
        | inr b ↦ elim (Bool-cases (bytes_eq key authorization)) [
          | inl c ↦ rw (a, b, c, header_field) (set_field-IsSmall st.auth value _ h)
          | inr c ↦ elim (Bool-cases (bytes_eq key host_name)) [
            | inl d ↦ rw (a, b, c, d, header_field) (set_field-IsSmall st.host value _ h)
            | inr d ↦
                rw (a, b, c, d, header_field)
                  (IsSmall-if (bytes_eq key origin_name)
                    (set_field st.origin value (record st { origin = some value })) (some st)
                    (set_field-IsSmall st.origin value (record st { origin = some value }) h) h)
          ]
        ]
      ]
    ]

header_line-IsSmall :
    (line : List ℕ) (st : Fields) → st.content_len ≤ max_body → IsSmall (header_line line st)
unfolding header_line
header_line-IsSmall line st h = elim (Option-cases (memchr b':' line)) [
  | inl e ↦ rw (e, header_line) tt
  | inr (k, e) ↦
      rw (e, header_line)
        (IsSmall-if _ none (header_field (take k line) (trim (drop (k + 1) line)) st) tt
          (header_field-IsSmall (take k line) (trim (drop (k + 1) line)) st h))
]

pub header_lines-IsSmall :
    (fuel left : ℕ) (rest : List ℕ) (st : Fields)
    → st.content_len ≤ max_body
    → IsSmall (header_lines fuel left rest st)
unfolding header_lines
header_lines-IsSmall zero left rest st h = h
header_lines-IsSmall (suc fuel) left rest st h = elim (Bool-cases (ltb 0 left)) [
  | inr t ↦ rw (t, header_lines) h
  | inl t ↦ elim (Option-cases (strstr crlf rest)) [
    | inl e ↦ rw (t, e, header_lines) tt
    | inr (k, e) ↦ elim (Option-cases (header_line (take k rest) st)) [
      | inl n ↦ rw (t, e, n, header_lines) tt
      | inr (next, n) ↦
          let small : next.content_len ≤ max_body =
            subst IsSmall n (header_line-IsSmall (take k rest) st h) in
          rw (t, e, n, header_lines)
            (IsSmall-if (ltb left k) none
              (header_lines fuel (left - (k + 2)) (drop (k + 2) rest) next) tt
              (header_lines-IsSmall fuel (left - (k + 2)) (drop (k + 2) rest) next small))
    ]
  ]
]
