-- ===== src/Serve/Parse/More.antt =====
-- src/lserve.c: bytes that arrive behind a whole request do not change how it is read.
use boggart.Base.{
  ℕ, zero, suc, ◌+◌, ◌-◌, ◌≡◌, refl, ◌∙◌, ap, subst, List, ◌++◌, length, length-append, take,
  take-append, drop, drop-append, length-drop, ltb, Bool, true, false, Bool-cases, Option,
  Option-cases, none, some, inl, inr, memchr, if◌then◌else◌, arith,
}
use boggart.Serve.Auth.{Req}
use boggart.Serve.Buffer.{max_header}
use boggart.Serve.Parse.{
  ParsedReq, malformed, partial, whole, Fields, header_line, header_lines, request_line, parse_body,
  no_fields, parse_header, parse_request,
}
use boggart.Serve.Parse.Text.{text_of, strstr, crlf, blank_line}
use boggart.Serve.Parse.Found.{strstr-le, strstr-append, text_of-append, text_of-le}

-- One answer is as the other, if that is there.
abbrev SameFields : Option Fields → Option Fields → Type 0
SameFields x none = Unit {0}
SameFields x (some st) = x ≡ some st

SameFields-if :
    (b : Bool) (x y : Option Fields)
    → SameFields x y
    → SameFields (if b then none else x) (if b then none else y)
SameFields-if true x y h = tt
SameFields-if false x y h = h

header_lines-append :
    (fuel left : ℕ) (rest behind : List ℕ) (st : Fields)
    → SameFields (header_lines fuel left (rest ++ behind) st) (header_lines fuel left rest st)
unfolding header_lines
header_lines-append zero left rest behind st = refl
header_lines-append (suc fuel) left rest behind st = elim (Bool-cases (ltb 0 left)) [
  | inr t ↦ rw (t, header_lines) refl
  | inl t ↦ elim (Option-cases (strstr crlf rest)) [
    | inl a ↦ rw (t, a, header_lines) tt
    | inr (k, a) ↦
        let l = strstr-le crlf rest k a in
        let b = strstr-append crlf rest behind k a in
        let f = take-append k rest behind (omega arith) in
        let g = drop-append (k + 2) rest behind (omega arith) in
        elim (Option-cases (header_line (take k rest) st)) [
          | inl n ↦ rw (t, a, n, header_lines) tt
          | inr (next, n) ↦
              let m = ap (λ line. header_line line st) f ∙ n in
              rw (t, a, b, n, m, g, header_lines)
                (SameFields-if (ltb left k)
                  (header_lines fuel (left - (k + 2)) (drop (k + 2) rest ++ behind) next)
                  (header_lines fuel (left - (k + 2)) (drop (k + 2) rest) next)
                  (header_lines-append fuel (left - (k + 2)) (drop (k + 2) rest) behind next))
        ]
  ]
]

abbrev SameWhole : ParsedReq → ParsedReq → Type 0
SameWhole x malformed = Unit {0}
SameWhole x partial = Unit {0}
SameWhole x (whole r n) = x ≡ whole r n

SameWhole-if :
    (b : Bool) (x y : ParsedReq)
    → SameWhole x y
    → SameWhole (if b then malformed else x) (if b then malformed else y)
SameWhole-if true x y h = tt
SameWhole-if false x y h = h

parse_body-append :
    (buf behind : List ℕ) (head : ℕ) (parts : List ℕ × List ℕ × Option (List ℕ)) (st : Fields)
    → SameWhole (parse_body (buf ++ behind) head parts st) (parse_body buf head parts st)
unfolding parse_body
parse_body-append buf behind head (method, path, query) st = elim (Option-cases st.host) [
  | inl e ↦ rw (e, parse_body) tt
  | inr (host, e) ↦ elim (Bool-cases (ltb (length buf) (head + st.content_len))) [
    | inl t ↦ rw (e, t, parse_body) tt
    | inr t ↦
        let l = length-append buf behind in
        let u : ltb (length (buf ++ behind)) (head + st.content_len) ≡ false = ground arith in
        let g = drop-append head buf behind (ground arith) in
        let f =
          take-append st.content_len (drop head buf) behind
            (ground (arith, length-drop head buf)) in
        rw (e, t, u, g, f, parse_body) refl
  ]
]

parse_header-append :
    (buf behind : List ℕ) (end : ℕ)
    → strstr blank_line (text_of buf) ≡ some end
    → SameWhole (parse_header (buf ++ behind) end) (parse_header buf end)
unfolding parse_header
parse_header-append buf behind end e =
    let (rest, texts) = text_of-append buf behind in
    let le = text_of-le buf in
    let room = strstr-le blank_line (text_of buf) end e in
    let front = take-append end buf behind (omega arith) in
    elim (Option-cases (strstr crlf (text_of buf))) [
      | inl a ↦ rw (a, parse_header) tt
      | inr (l, a) ↦
          let lf = strstr-le crlf (text_of buf) l a in
          let b = ap (strstr crlf) texts ∙ strstr-append crlf (text_of buf) rest l a in
          let line = take-append l buf behind (omega arith) in
          let later =
            ap (drop (l + 2)) texts ∙ drop-append (l + 2) (text_of buf) rest (omega arith) in
          elim (Option-cases (request_line (take l buf))) [
            | inl c ↦ rw (a, c, parse_header) tt
            | inr (parts, c) ↦
                let d = ap request_line line ∙ c in
                elim (Option-cases (memchr 0 (take end buf))) [
                  | inr (k, z) ↦ rw (a, c, z, parse_header) tt
                  | inl z ↦
                      let y = ap (memchr 0) front ∙ z in
                      elim (Option-cases
                        (header_lines end (end - (l + 2)) (drop (l + 2) (text_of buf)) no_fields)) [
                          | inl h ↦ rw (a, c, z, h, parse_header) tt
                          | inr (st, h) ↦
                              let same : header_lines end (end - (l + 2))
                                    (drop (l + 2) (text_of buf) ++ rest) no_fields
                                  ≡ some st =
                                subst
                                  (SameFields (
                                    header_lines end (end - (l + 2))
                                      (drop (l + 2) (text_of buf) ++ rest) no_fields))
                                  h
                                  (header_lines-append end (end - (l + 2))
                                    (drop (l + 2) (text_of buf)) rest no_fields) in
                              let g =
                                ap (λ xs. header_lines end (end - (l + 2)) xs no_fields) later
                                ∙ same in
                              rw (a, c, z, h, b, d, y, g, parse_header)
                                (SameWhole-if (ltb end l)
                                  (parse_body (buf ++ behind) (end + 4) parts st)
                                  (parse_body buf (end + 4) parts st)
                                  (parse_body-append buf behind (end + 4) parts st))
                        ]
                ]
          ]
    ]

-- When a buffer holds a whole request, then it is read the same, with the same number of bytes, whatever more
-- arrives behind it.
pub parse_request-append :
    (buf behind : List ℕ) (r : Req) (n : ℕ)
    → parse_request buf ≡ whole r n
    → parse_request (buf ++ behind) ≡ whole r n
unfolding parse_request
parse_request-append buf behind r n w =
    subst (SameWhole (parse_request (buf ++ behind))) w
      (elim (Option-cases (strstr blank_line (text_of buf))) [
        | inl a ↦ rw (a, parse_request) (refused (ltb max_header (length buf)))
        | inr (end, a) ↦
            let (rest, texts) = text_of-append buf behind in
            let b =
              ap (strstr blank_line) texts ∙ strstr-append blank_line (text_of buf) rest end a in
            rw (a, b, parse_request)
              (SameWhole-if (ltb max_header end) (parse_header (buf ++ behind) end)
                (parse_header buf end) (parse_header-append buf behind end a))
      ])
  where
    refused :
        (b : Bool) → SameWhole (parse_request (buf ++ behind)) (if b then malformed else partial)
    refused true = tt
    refused false = tt
