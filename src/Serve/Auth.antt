-- ===== src/Serve/Auth.antt =====
-- src/lserve.c: the checks of `handle_request` before the handler: host, origin and token. A string is its
-- bytes; `%d` of the port is a field.
pub mod Admission
use boggart.Base.{
  ℕ, zero, suc, ◌+◌, ◌≡◌, List, [], ◌∷◌, ◌++◌, map, length, take, drop, leb, ◌==◌, ◌&&◌, ◌||◌, not,
  Bool, true, false, Option, none, some, memchr, bytes_eq, bit_or, bit_xor, if◌then◌else◌,
}

-- `Req`; a field that the request did not have is `none`.
pub record Req : Type 0 where
  pub method : List ℕ
  pub path : List ℕ
  pub query : Option (List ℕ)
  pub body : Option (List ℕ)
  pub auth : Option (List ℕ)
  pub host : Option (List ℕ)
  pub origin : Option (List ℕ)

-- What the checks need of `Server`
pub record Listener : Type 0 where
  pub bound : List ℕ
  pub port : List ℕ
  pub token : Option (List ℕ)

pub data Gate : Type 0 where
  forbidden : Gate
  unauthorized : Gate
  admitted : Gate

-- The loop of `ct_equal`, over two strings of the same length
unfoldable pub ct_differ : ℕ → List ℕ → List ℕ → ℕ
ct_differ d [] ys = d
ct_differ d (x ∷ xs) [] = d
ct_differ d (x ∷ xs) (y ∷ ys) = ct_differ (bit_or d (bit_xor x y)) xs ys

unfoldable pub ct_equal : List ℕ → List ℕ → Bool
unfolding ct_differ
ct_equal xs ys = if length xs == length ys then ct_differ 0 xs ys == 0 else false

abbrev pub lower_letter : ℕ → ℕ
lower_letter c = if leb b'A' c && leb c b'Z' then c + 32 else c

-- "bearer "
abbrev pub bearer : List ℕ
bearer = b'b' ∷ b'e' ∷ b'a' ∷ b'r' ∷ b'e' ∷ b'r' ∷ b' ' ∷ []

-- "localhost" and "127.0.0.1"
abbrev pub localhost : List ℕ
localhost = b'l' ∷ b'o' ∷ b'c' ∷ b'a' ∷ b'l' ∷ b'h' ∷ b'o' ∷ b's' ∷ b't' ∷ []

abbrev pub loopback : List ℕ
loopback = b'1' ∷ b'2' ∷ b'7' ∷ b'.' ∷ b'0' ∷ b'.' ∷ b'0' ∷ b'.' ∷ b'1' ∷ []

-- "http://"
abbrev pub http : List ℕ
http = b'h' ∷ b't' ∷ b't' ∷ b'p' ∷ b':' ∷ b'/' ∷ b'/' ∷ []

abbrev pub with_port : List ℕ → Listener → List ℕ
with_port name s = name ++ b':' ∷ s.port

-- The first `expected`: an address with a colon is put into brackets.
unfoldable pub authority : Listener → List ℕ
unfolding memchr
authority s = elim (memchr b':' s.bound) [
  | none ↦ with_port s.bound s
  | some k ↦ with_port (b'[' ∷ s.bound ++ b']' ∷ []) s
]

unfoldable pub valid_host : Listener → List ℕ → Bool
unfolding authority bytes_eq
valid_host s host =
    bytes_eq host (authority s)
    || ((bytes_eq s.bound loopback || bytes_eq s.bound localhost)
        && (bytes_eq host (with_port localhost s) || bytes_eq host (with_port loopback s)))

-- `origin` has room for 175 bytes.
unfoldable pub valid_origin : List ℕ → Option (List ℕ) → Bool
unfolding bytes_eq
valid_origin host none = true
valid_origin host (some origin) = bytes_eq origin (take 175 (http ++ host))

unfoldable pub valid_token : List ℕ → Option (List ℕ) → Bool
unfolding bytes_eq ct_equal
valid_token token none = false
valid_token token (some got) =
    bytes_eq (map lower_letter (take 7 got)) bearer && ct_equal (drop 7 got) token

unfoldable pub gate_token : Option (List ℕ) → Option (List ℕ) → Gate
unfolding valid_token
gate_token none auth = admitted
gate_token (some token) auth = if valid_token token auth then admitted else unauthorized

-- `handle_request` up to the handler
unfoldable pub gate_host : Listener → Option (List ℕ) → Req → Gate
unfolding valid_host valid_origin gate_token
gate_host s none r = forbidden
gate_host s (some host) r =
    if valid_host s host && valid_origin host r.origin then gate_token s.token r.auth else forbidden

unfoldable pub gate : Listener → Req → Gate
unfolding gate_host
gate s r = gate_host s r.host r
