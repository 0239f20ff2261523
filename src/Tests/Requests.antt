-- ===== src/Tests/Requests.antt =====
-- Runs of the model of src/lserve.c.
use boggart.Base.{ℕ, ◌≡◌, refl, ◌↔◌, List, [], ◌∷◌, ◌++◌, Bool, true, false, none, some, inr, arith}
use boggart.Serve.Auth.{Req, Listener, admitted, gate, loopback, bearer}
use boggart.Serve.Auth.Admission.{IsAdmitted, gate-admitted}
use boggart.Serve.Parse.{partial, whole, parse_request}
use boggart.Serve.Parse.Text.{text_of, strstr, crlf, blank_line}
use boggart.Serve.Parse.More.{parse_request-append}
use boggart.Serve.Parse.Bounds.{IsAccepted, parse_request-IsAccepted, parse_request-zero}
use boggart.Serve.Turns.{Connection, handles, on_read}
use boggart.Serve.Turns.Handled.{IsSafe, on_read-IsSafe}
use boggart.Serve.Clients.{
  Client, Clients, l_broadcast, l_clients, connects, disconnects, stops, server_events,
}

abbrev memory : ℕ → Bool
memory n = true

-- "127.0.0.1:80"
abbrev authority_bytes : List ℕ
authority_bytes = loopback ++ b':' ∷ b'8' ∷ b'0' ∷ []

abbrev listener : Listener
listener = record { bound = loopback; port = b'8' ∷ b'0' ∷ []; token = some (b'k' ∷ []) }

-- "POST /a?q x" "Host: ..." "Authorization: Bearer k" "Content-Length: 2", and the body
abbrev post_bytes : List ℕ
post_bytes =
    (b'P' ∷ b' ' ∷ b'/' ∷ b'a' ∷ b'?' ∷ b'q' ∷ b' ' ∷ b'x' ∷ crlf)
    ++ (b'H' ∷ b'o' ∷ b's' ∷ b't' ∷ b':' ∷ b' ' ∷ authority_bytes)
    ++ crlf
    ++ (b'A' ∷ b'u' ∷ b't' ∷ b'h' ∷ b'o' ∷ b'r' ∷ b'i' ∷ b'z' ∷ b'a' ∷ b't' ∷ b'i' ∷ b'o' ∷ b'n'
        ∷ b':' ∷ bearer)
    ++ (b'k' ∷ crlf)
    ++ (b'C' ∷ b'o' ∷ b'n' ∷ b't' ∷ b'e' ∷ b'n' ∷ b't' ∷ b'-' ∷ b'l' ∷ b'e' ∷ b'n' ∷ b'g' ∷ b't'
        ∷ b'h' ∷ b':' ∷ b' ' ∷ b'2' ∷ blank_line)
    ++ (b'h' ∷ b'i' ∷ [])

abbrev post : Req
post = record {
  method = b'P' ∷ [];
  path = b'/' ∷ b'a' ∷ [];
  query = some (b'q' ∷ []);
  body = some (b'h' ∷ b'i' ∷ []);
  auth = some (bearer ++ b'k' ∷ []);
  host = some authority_bytes;
  origin = none;
}

abbrev opened_connection : Connection
opened_connection = record {
  received = record { bytes = []; room = 0 };
  reading = true;
  closing = false;
}

post_parsed : parse_request post_bytes ≡ whole post 77
unfolding parse_request
post_parsed = refl

post_handled : (on_read memory listener opened_connection (some post_bytes)).1 ≡ handles post
unfolding on_read
post_handled = refl

on_read-IsSafe_example :
    IsSafe listener (on_read memory listener opened_connection (some post_bytes))
on_read-IsSafe_example =
    on_read-IsSafe memory listener opened_connection (some post_bytes)
      (inr (refl, refl), omega arith, omega arith)

gate-admitted_example :
    (gate listener post ≡ admitted) ↔ IsAdmitted listener (some authority_bytes) post
gate-admitted_example = gate-admitted listener post

parse_request-IsAccepted_example : IsAccepted post_bytes (whole post 77)
parse_request-IsAccepted_example = parse_request-IsAccepted post_bytes post 77 post_parsed

parse_request-zero_example : parse_request (b'G' ∷ 0 ∷ blank_line) ≡ partial
unfolding text_of strstr
parse_request-zero_example = parse_request-zero (b'G' ∷ []) blank_line refl refl (omega arith)

parse_request-append_example : parse_request (post_bytes ++ b'G' ∷ []) ≡ whole post 77
parse_request-append_example = parse_request-append post_bytes (b'G' ∷ []) post 77 post_parsed

abbrev stream : Client
stream = record { id = 1; is_stream = true; closing = false; sent = [] }

abbrev caller : Client
caller = record { id = 2; is_stream = false; closing = false; sent = [] }

abbrev two_clients : Clients
two_clients = record { conns = caller ∷ stream ∷ []; nconns = 2; stopped = false }

only_streams : (l_broadcast memory (b'e' ∷ []) [] two_clients).1 ≡ l_clients two_clients.conns
unfolding l_broadcast l_clients
only_streams = refl

nobody_after_stop :
    server_events two_clients (stops ∷ disconnects 2 ∷ connects true true 3 ∷ [])
    ≡ record { conns = record stream { closing = true } ∷ []; nconns = 1; stopped = true }
unfolding server_events
nobody_after_stop = refl
