-- ===== src/Serve/Turns.antt =====
-- src/lserve.c: `on_read`, what a connection does with the bytes that arrive.
pub mod Handled
use boggart.Base.{ℕ, List, [], ◌∷◌, Bool, true, false, Option, none, some}
use boggart.Serve.Auth.{Req, Listener, Gate, forbidden, unauthorized, admitted, gate}
use boggart.Serve.Buffer.{Received, conn_append}
use boggart.Serve.Parse.{ParsedReq, malformed, partial, whole, parse_request}

-- The parts of `Conn` that `on_read` changes
pub record Connection : Type 0 where
  pub received : Received
  pub reading : Bool
  pub closing : Bool

-- What happens: the connection is closed, a status is answered, more bytes are waited for, or the handler is
-- called.
pub data Turn : Type 0 where
  closed : Turn
  replies : ℕ → Turn
  waits : Turn
  handles : Req → Turn

abbrev pub gate_turn : Gate → Req → Turn
gate_turn forbidden r = replies 403
gate_turn unauthorized r = replies 401
gate_turn admitted r = handles r

-- What is done with the answer of `parse_request`; one request per connection is read.
unfoldable pub after_parse : Listener → Connection → ParsedReq → Connection × Turn
unfolding gate
after_parse s c malformed = (c, replies 400)
after_parse s c partial = (c, waits)
after_parse s c (whole r n) = (
  record c { reading = false; received = record { bytes = []; room = c.received.room } },
  gate_turn (gate s r) r,
)

-- Nothing may have arrived.
abbrev pub take_in : (ℕ → Bool) → Received → List ℕ → Received × Bool
take_in alloc c [] = (c, true)
take_in alloc c (x ∷ xs) = conn_append alloc c (x ∷ xs)

abbrev pub after_append : Listener → Connection → Received → Bool → Connection × Turn
after_append s c r true = after_parse s (record c { received = r }) (parse_request r.bytes)
after_append s c r false = (record c { received = r }, replies 413)

-- `none` is an error of the stream or its end.
unfoldable pub on_read : (ℕ → Bool) → Listener → Connection → Option (List ℕ) → Connection × Turn
unfolding conn_append parse_request after_parse
on_read alloc s c none = (record c { reading = false; closing = true }, closed)
on_read alloc s c (some more) = let r = take_in alloc c.received more in after_append s c r.0 r.1
