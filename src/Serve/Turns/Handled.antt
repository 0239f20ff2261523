-- ===== src/Serve/Turns/Handled.antt =====
-- src/lserve.c: whatever arrives, only a request that carries the token gets to the handler.
use boggart.Base.{
  ℕ, ◌≡◌, refl, subst, List, [], ◌∷◌, Bool, true, false, Option, none, some, inl, inr, arith,
}
use boggart.Serve.Auth.{Req, Listener, Gate, forbidden, unauthorized, admitted, gate}
use boggart.Serve.Auth.Admission.{IsAdmitted, gate-admitted}
use boggart.Serve.Buffer.{Received}
use boggart.Serve.Buffer.Room.{IsRoomy, conn_append-IsRoomy}
use boggart.Serve.Parse.{ParsedReq, malformed, partial, whole, parse_request}
use boggart.Serve.Turns.{
  Connection, Turn, handles, gate_turn, after_parse, take_in, after_append, on_read,
}

-- The buffer is as it should be, and what is handled is admitted, read once, and then forgotten.
abbrev pub IsSafe : Listener → Connection × Turn → Type 0
IsSafe s (c, t) =
    IsRoomy c.received
    × ((r : Req)
        → t ≡ handles r
        → IsAdmitted s r.host r × (c.reading ≡ false) × (c.received.bytes ≡ []))

gate_turn-admitted : (g : Gate) (q r : Req) → gate_turn g q ≡ handles r → (g ≡ admitted) × (q ≡ r)
gate_turn-admitted forbidden q r e = cc (e)
gate_turn-admitted unauthorized q r e = cc (e)
gate_turn-admitted admitted q r e = (refl, cc (e))

after_parse-IsSafe :
    (s : Listener) (c : Connection) (p : ParsedReq)
    → IsRoomy c.received
    → IsSafe s (after_parse s c p)
unfolding after_parse
after_parse-IsSafe s c malformed h = (h, λ r e. cc (e))
after_parse-IsSafe s c partial h = (h, λ r e. cc (e))
after_parse-IsSafe s c (whole q n) h = (
  roomy h,
  λ r e.
      let (g, same) = gate_turn-admitted (gate s q) q r e in
      (subst (λ r. IsAdmitted s r.host r) same ((gate-admitted s q).0 g), refl, refl),
)
  where
    roomy : IsRoomy c.received → IsRoomy (record { bytes = []; room = c.received.room })
    roomy (inl l, k, m) = (inl (omega arith), omega arith, m)
    roomy (inr (b, z), k, m) = (inr (refl, z), omega arith, m)

take_in-IsRoomy :
    (alloc : ℕ → Bool) (c : Received) (arrived : List ℕ)
    → IsRoomy c
    → IsRoomy (take_in alloc c arrived).0
take_in-IsRoomy alloc c [] h = h
take_in-IsRoomy alloc c (x ∷ xs) h = (conn_append-IsRoomy alloc c (x ∷ xs) h).0

after_append-IsSafe :
    (s : Listener) (c : Connection) (r : Received) (ok : Bool)
    → IsRoomy r
    → IsSafe s (after_append s c r ok)
after_append-IsSafe s c r true h =
    after_parse-IsSafe s (record c { received = r }) (parse_request r.bytes) h
after_append-IsSafe s c r false h = (h, λ q e. cc (e))

-- Whatever arrives on a connection, its buffer stays within its room and its limit, and when the handler is
-- called then the request names this listener, comes from no other origin and carries the token, if there is
-- one; and nothing more is read behind it.
pub on_read-IsSafe :
    (alloc : ℕ → Bool) (s : Listener) (c : Connection) (arrived : Option (List ℕ))
    → IsRoomy c.received
    → IsSafe s (on_read alloc s c arrived)
unfolding on_read
on_read-IsSafe alloc s c none h = (h, λ r e. cc (e))
on_read-IsSafe alloc s c (some more) h =
    after_append-IsSafe s c (take_in alloc c.received more).0 (take_in alloc c.received more).1
      (take_in-IsRoomy alloc c.received more h)
