-- ===== src/Serve/Parse/Bounds.antt =====
-- src/lserve.c: how large a request can be that is accepted.
use boggart.Base.{
  ℕ, ◌+◌, ◌-◌, ◌≤◌, ◌≡◌, refl, ◌∙◌, sym, ap, subst, List, [], ◌∷◌, ◌++◌, length, take, drop, ltb,
  ◌==◌, Bool, true, false, Bool-cases, Option, Option-cases, none, some, inl, inr, memchr,
  if◌then◌else◌, arith,
}
use boggart.Serve.Auth.{Req}
use boggart.Serve.Buffer.{max_header, max_body}
use boggart.Serve.Parse.{
  ParsedReq, malformed, partial, whole, Fields, header_lines, request_line, parse_body, no_fields,
  parse_header, parse_request,
}
use boggart.Serve.Parse.Text.{text_of, strstr, crlf, blank_line}
use boggart.Serve.Parse.Lengths.{IsSmall, header_lines-IsSmall}

-- What an accepted request is like: its header ends with the first blank line, at `end`, before any zero
abbrev pub IsAccepted : List ℕ → ParsedReq → Type 0
IsAccepted buf malformed = Unit {0}
IsAccepted buf partial = Unit {0}
IsAccepted buf (whole r n) =
    (end : ℕ) × (size : ℕ) × (strstr blank_line (text_of buf) ≡ some end)
    × (n ≡ end + 4 + size)
    × (n ≤ length buf)
    × (end ≤ max_header)
    × (size ≤ max_body)
    × (r.body ≡ (if size == 0 then none else some (take size (drop (end + 4) buf))))
    × ((host : List ℕ) × (r.host ≡ some host))

parse_body-IsAccepted :
    (buf : List ℕ) (end : ℕ) (parts : List ℕ × List ℕ × Option (List ℕ)) (st : Fields)
    → strstr blank_line (text_of buf) ≡ some end
    → end ≤ max_header
    → st.content_len ≤ max_body
    → IsAccepted buf (parse_body buf (end + 4) parts st)
unfolding parse_body
parse_body-IsAccepted buf end (method, path, query) st s h k = elim (Option-cases st.host) [
  | inl e ↦ rw (e, parse_body) tt
  | inr (host, e) ↦ elim (Bool-cases (ltb (length buf) (end + 4 + st.content_len))) [
    | inl t ↦ rw (e, t, parse_body) tt
    | inr t ↦
        rw (e, t, parse_body) (end, st.content_len, s, refl, ground arith, h, k, refl, (host, e))
  ]
]

parse_header-IsAccepted :
    (buf : List ℕ) (end : ℕ)
    → strstr blank_line (text_of buf) ≡ some end
    → end ≤ max_header
    → IsAccepted buf (parse_header buf end)
unfolding parse_header
parse_header-IsAccepted buf end s h = elim (Option-cases (strstr crlf (text_of buf))) [
  | inl a ↦ rw (a, parse_header) tt
  | inr (l, a) ↦ elim (Option-cases (request_line (take l buf))) [
    | inl b ↦ rw (a, b, parse_header) tt
    | inr (parts, b) ↦ elim (Option-cases (memchr 0 (take end buf))) [
      | inr (k, c) ↦ rw (a, b, c, parse_header) tt
      | inl c ↦
          elim (Option-cases
            (header_lines end (end - (l + 2)) (drop (l + 2) (text_of buf)) no_fields)) [
              | inl d ↦ rw (a, b, c, d, parse_header) tt
              | inr (st, d) ↦
                  let small : st.content_len ≤ max_body = subst IsSmall d (
                    header_lines-IsSmall end (end - (l + 2)) (drop (l + 2) (text_of buf)) no_fields
                      (omega arith)) in
                  rw (a, b, c, d, parse_header)
                    (accepted (ltb end l) (parse_body buf (end + 4) parts st)
                      (parse_body-IsAccepted buf end parts st s h small))
            ]
    ]
  ]
]
  where
    accepted :
        (b : Bool) (x : ParsedReq) → IsAccepted buf x → IsAccepted buf (if b then malformed else x)
    accepted true x k = tt
    accepted false x k = k

-- An accepted request ends its header with the first blank line before any zero byte; its body, if it has
-- one, is the bytes behind that line, and it takes just those and no more than were received. Header and body
-- keep to the limits, and there is a host.
pub parse_request-IsAccepted :
    (buf : List ℕ) (r : Req) (n : ℕ) → parse_request buf ≡ whole r n → IsAccepted buf (whole r n)
unfolding parse_request
parse_request-IsAccepted buf r n e =
    subst (IsAccepted buf) e (elim (Option-cases (strstr blank_line (text_of buf))) [
      | inl a ↦ rw (a, parse_request) (refused (ltb max_header (length buf)))
      | inr (end, a) ↦ elim (Bool-cases (ltb max_header end)) [
        | inl t ↦ rw (a, t, parse_request) tt
        | inr t ↦ rw (a, t, parse_request) (parse_header-IsAccepted buf end a (ground arith))
      ]
    ])
  where
    refused : (b : Bool) → IsAccepted buf (if b then malformed else partial)
    refused true = tt
    refused false = tt

text_of-zero : (head rest : List ℕ) → text_of head ≡ head → text_of (head ++ 0 ∷ rest) ≡ head
unfolding text_of
text_of-zero [] rest h = refl
text_of-zero (c ∷ head) rest h = elim (Bool-cases (c == 0)) [
  | inl t ↦
      let gone : [] ≡ c ∷ head = sym (ap (λ b. if b then [] else c ∷ text_of head) t) ∙ h in
      cc (gone)
  | inr t ↦
      let same : c ∷ text_of head ≡ c ∷ head =
        sym (ap (λ b. if b then [] else c ∷ text_of head) t) ∙ h in
      let rest_same : text_of head ≡ head = cc (same) in
      rw t (ap (λ xs. c ∷ xs) (text_of-zero head rest rest_same))
]

-- A zero byte before the blank line hides all that is behind it: while no more came than a header may have,
-- more bytes are waited for, whatever they are, and the request is not refused.
pub parse_request-zero :
    (head rest : List ℕ)
    → text_of head ≡ head
    → strstr blank_line head ≡ none
    → length (head ++ 0 ∷ rest) ≤ max_header
    → parse_request (head ++ 0 ∷ rest) ≡ partial
unfolding parse_request
parse_request-zero head rest h e l =
    let s : strstr blank_line (text_of (head ++ 0 ∷ rest)) ≡ none =
      ap (strstr blank_line) (text_of-zero head rest h) ∙ e in
    let t : ltb max_header (length (head ++ 0 ∷ rest)) ≡ false = ground arith in
    rw (s, t, parse_request) refl
