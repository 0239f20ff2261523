-- ===== src/Serve/Parse.antt =====
-- src/lserve.c: `parse_request`, where the copies of the parts of a request can be allocated. The bytes
-- are those that were received; a text that ends at the first zero is what `strstr` sees of them.
pub mod Text
pub mod Lengths
pub mod Bounds
pub mod Found
pub mod More
use boggart.Base.{
  ℕ, zero, suc, ◌+◌, ◌-◌, ◌*◌, List, [], ◌∷◌, map, length, take, drop, ltb, leb, ◌==◌, ◌&&◌, ◌||◌,
  not, Bool, true, false, Option, none, some, memchr, bytes_eq, if◌then◌else◌,
}
use boggart.Serve.Auth.{Req, lower_letter}
use boggart.Serve.Buffer.{max_header, max_body}
use boggart.Serve.Parse.Text.{
  text_of, strstr, crlf, blank_line, is_token, trim, is_control, any, content_length,
  transfer_encoding, authorization, host_name, origin_name,
}

pub data ParsedReq : Type 0 where
  malformed : ParsedReq
  partial : ParsedReq
  whole : Req → ℕ → ParsedReq

-- What the loop over the header lines has seen
pub record Fields : Type 0 where
  pub content_len : ℕ
  pub seen_length : Bool
  pub auth : Option (List ℕ)
  pub host : Option (List ℕ)
  pub origin : Option (List ℕ)

-- The digits of a length, behind a number
unfoldable pub parse_length : ℕ → List ℕ → Option ℕ
parse_length n [] = some n
parse_length n (c ∷ cs) =
    let later = parse_length (n * 10 + (c - b'0')) cs in
    if ltb c b'0' || ltb b'9' c
    then none
    else if ltb max_body (n * 10 + (c - b'0'))
    then none
    else later

abbrev pub set_length : Fields → Option ℕ → Option Fields
set_length st none = none
set_length st (some n) = some (record st { content_len = n; seen_length = true })

-- A field that must not be there yet, nor be empty
abbrev pub set_field : Option (List ℕ) → List ℕ → Fields → Option Fields
set_field (some old) value st = none
set_field none [] st = none
set_field none (c ∷ cs) st = some st

-- The part of the loop's body behind the tests of the line
unfoldable pub header_field : List ℕ → List ℕ → Fields → Option Fields
unfolding parse_length bytes_eq
header_field name value st =
    let key = map lower_letter name in
    if bytes_eq key content_length
    then (if st.seen_length || (length value == 0)
        then none
        else set_length st (parse_length st.content_len value))
    else if bytes_eq key transfer_encoding
    then none
    else if bytes_eq key authorization
    then set_field st.auth value (record st { auth = some value })
    else if bytes_eq key host_name
    then set_field st.host value (record st { host = some value })
    else if bytes_eq key origin_name
    then set_field st.origin value (record st { origin = some value })
    else some st

-- The body of the loop, on a line without its end
unfoldable pub header_line : List ℕ → Fields → Option Fields
unfolding header_field memchr any trim is_token is_control
header_line line st = elim (memchr b':' line) [
  | none ↦ none
  | some k ↦
      let name = take k line in
      let value = trim (drop (k + 1) line) in
      if (k == 0) || (any (λ c. not (is_token c)) name || any is_control value)
      then none
      else header_field name value st
]

-- The loop over the header lines; `left` is what there is before the blank line.
unfoldable pub header_lines : ℕ → ℕ → List ℕ → Fields → Option Fields
unfolding header_line strstr
header_lines zero left rest st = some st
header_lines (suc fuel) left rest st = elim (ltb 0 left) [
  | false ↦ some st
  | true ↦ elim (strstr crlf rest) [
    | none ↦ none
    | some k ↦ elim (header_line (take k rest) st) [
      | none ↦ none
      | some st ↦
          let later = header_lines fuel (left - (k + 2)) (drop (k + 2) rest) st in
          if ltb left k then none else later
    ]
  ]
]

-- Method, path and query of the first line
unfoldable pub request_line : List ℕ → Option (List ℕ × List ℕ × Option (List ℕ))
unfolding memchr
request_line line = elim (memchr b' ' line) [
  | none ↦ none
  | some i ↦
      let target = drop (i + 1) line in
      elim (memchr b' ' target) [
        | none ↦ none
        | some j ↦ elim (memchr b'?' (take j target)) [
          | none ↦ some (take i line, take j target, none)
          | some q ↦ some (take i line, take q target, some (drop (q + 1) (take j target)))
        ]
      ]
]

-- The whole request behind its header
unfoldable pub parse_body : List ℕ → ℕ → List ℕ × List ℕ × Option (List ℕ) → Fields → ParsedReq
parse_body buf head (method, path, query) st = elim st.host [
  | none ↦ malformed
  | some host ↦
      if ltb (length buf) (head + st.content_len)
      then partial
      else whole
          (record {
            method = method;
            path = path;
            query = query;
            body = if st.content_len == 0 then none else some (take st.content_len (drop head buf));
            auth = st.auth;
            host = st.host;
            origin = st.origin;
          })
          (head + st.content_len)
]

abbrev pub no_fields : Fields
no_fields = record { content_len = 0; seen_length = false; auth = none; host = none; origin = none }

-- The header, whose blank line is at `end`
unfoldable pub parse_header : List ℕ → ℕ → ParsedReq
unfolding strstr request_line header_lines parse_body memchr
parse_header buf end = elim (strstr crlf (text_of buf)) [
  | none ↦ malformed
  | some l ↦ elim (request_line (take l buf)) [
    | none ↦ malformed
    | some parts ↦ elim (memchr 0 (take end buf)) [
      | some k ↦ malformed
      | none ↦ elim (header_lines end (end - (l + 2)) (drop (l + 2) (text_of buf)) no_fields) [
        | none ↦ malformed
        | some st ↦ if ltb end l then malformed else parse_body buf (end + 4) parts st
      ]
    ]
  ]
]

unfoldable pub parse_request : List ℕ → ParsedReq
unfolding strstr parse_header text_of
parse_request buf = elim (strstr blank_line (text_of buf)) [
  | none ↦ if ltb max_header (length buf) then malformed else partial
  | some end ↦ if ltb max_header end then malformed else parse_header buf end
]
