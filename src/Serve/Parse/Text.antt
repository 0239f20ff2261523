-- ===== src/Serve/Parse/Text.antt =====
-- src/lserve.c: the texts and the tests of bytes that `parse_request` uses.
use boggart.Base.{
  ℕ, suc, List, [], ◌∷◌, length, take, ltb, leb, ◌==◌, ◌&&◌, ◌||◌, Bool, true, false, Option, none,
  some, bytes_eq, memchr, if◌then◌else◌,
}

-- What is before the first zero
unfoldable pub text_of : List ℕ → List ℕ
text_of [] = []
text_of (c ∷ cs) = let rest = text_of cs in if c == 0 then [] else c ∷ rest

abbrev pub next_match : Option ℕ → Option ℕ
next_match none = none
next_match (some k) = some (suc k)

-- `strstr`, for a text that is not empty
unfoldable pub strstr : List ℕ → List ℕ → Option ℕ
unfolding bytes_eq
strstr n [] = none
strstr n (c ∷ cs) =
    let later = strstr n cs in
    if bytes_eq (take (length n) (c ∷ cs)) n then some 0 else next_match later

abbrev pub crlf : List ℕ
crlf = 13 ∷ 10 ∷ []

abbrev pub blank_line : List ℕ
blank_line = 13 ∷ 10 ∷ 13 ∷ 10 ∷ []

-- "!#$%&'*+-.^_`|~"
abbrev pub token_marks : List ℕ
token_marks = 33 ∷ 35 ∷ 36 ∷ 37 ∷ 38 ∷ 39 ∷ 42 ∷ 43 ∷ 45 ∷ 46 ∷ 94 ∷ 95 ∷ 96 ∷ 124 ∷ 126 ∷ []

abbrev pub found : Option ℕ → Bool
found none = false
found (some k) = true

-- `strchr` finds the zero at the end too.
unfoldable pub is_token : ℕ → Bool
unfolding memchr
is_token c =
    (leb b'a' c && leb c b'z')
    || ((leb b'A' c && leb c b'Z')
        || ((leb b'0' c && leb c b'9') || ((c == 0) || found (memchr c token_marks))))

unfoldable pub is_control : ℕ → Bool
is_control c = ltb c 32 || (c == 127)

unfoldable pub any : (ℕ → Bool) → List ℕ → Bool
any test [] = false
any test (c ∷ cs) = test c || any test cs

abbrev is_blank : ℕ → Bool
is_blank c = (c == b' ') || (c == 9)

unfoldable pub trim_lead : List ℕ → List ℕ
trim_lead [] = []
trim_lead (c ∷ cs) = let rest = trim_lead cs in if is_blank c then rest else c ∷ cs

unfoldable pub trim_end : List ℕ → List ℕ
trim_end [] = []
trim_end (c ∷ cs) =
    let rest = trim_end cs in if (length rest == 0) && is_blank c then [] else c ∷ rest

unfoldable pub trim : List ℕ → List ℕ
unfolding trim_lead trim_end
trim cs = trim_end (trim_lead cs)

-- The names of the fields, in small letters
abbrev pub content_length : List ℕ
content_length =
    b'c' ∷ b'o' ∷ b'n' ∷ b't' ∷ b'e' ∷ b'n' ∷ b't' ∷ b'-' ∷ b'l' ∷ b'e' ∷ b'n' ∷ b'g' ∷ b't' ∷ b'h'
    ∷ []

abbrev pub transfer_encoding : List ℕ
transfer_encoding =
    b't' ∷ b'r' ∷ b'a' ∷ b'n' ∷ b's' ∷ b'f' ∷ b'e' ∷ b'r' ∷ b'-' ∷ b'e' ∷ b'n' ∷ b'c' ∷ b'o' ∷ b'd'
    ∷ b'i' ∷ b'n' ∷ b'g' ∷ []

abbrev pub authorization : List ℕ
authorization =
    b'a' ∷ b'u' ∷ b't' ∷ b'h' ∷ b'o' ∷ b'r' ∷ b'i' ∷ b'z' ∷ b'a' ∷ b't' ∷ b'i' ∷ b'o' ∷ b'n' ∷ []

abbrev pub host_name : List ℕ
host_name = b'h' ∷ b'o' ∷ b's' ∷ b't' ∷ []

abbrev pub origin_name : List ℕ
origin_name = b'o' ∷ b'r' ∷ b'i' ∷ b'g' ∷ b'i' ∷ b'n' ∷ []
