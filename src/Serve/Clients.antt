-- ===== src/Serve/Clients.antt =====
-- src/lserve.c: the connections of a server, and the event streams among them. Whether a connection can be
-- set up and accepted, and whether a write is taken, are the answers of libuv.
pub mod Counted
use boggart.Base.{
  ℕ, suc, ◌+◌, ◌-◌, List, [], ◌∷◌, ◌++◌, map, length, leb, ◌==◌, ◌&&◌, ◌||◌, not, Bool, true, false,
  if◌then◌else◌,
}

-- MAX_CONNS
abbrev pub max_conns : ℕ
max_conns = 256

-- The parts of `Conn` that the server looks at; `id` stands for its address, and `sent` is what was written.
pub record Client : Type 0 where
  pub id : ℕ
  pub is_stream : Bool
  pub closing : Bool
  pub sent : List (List ℕ)

pub record Clients : Type 0 where
  pub conns : List Client
  pub nconns : ℕ
  pub stopped : Bool

-- The loop of `unlink_conn`, for the list and for the count
unfoldable pub unlink_list : ℕ → List Client → List Client
unlink_list id [] = []
unlink_list id (c ∷ cs) = let rest = unlink_list id cs in if c.id == id then cs else c ∷ rest

unfoldable pub unlink_count : ℕ → List Client → ℕ → ℕ
unlink_count id [] n = n
unlink_count id (c ∷ cs) n = let rest = unlink_count id cs n in if c.id == id then n - 1 else rest

unfoldable pub unlink_conn : ℕ → Clients → Clients
unfolding unlink_list unlink_count
unlink_conn id s = record s {
  conns = unlink_list id s.conns;
  nconns = unlink_count id s.conns s.nconns;
}

-- `on_connection`, with whether all went well up to the accepting
unfoldable pub on_connection : Bool → Bool → ℕ → Clients → Clients
on_connection status_ok accepted id s =
    if not status_ok || s.stopped
    then s
    else if leb max_conns s.nconns
    then s
    else if not accepted
    then s
    else record s {
      conns = record { id = id; is_stream = false; closing = false; sent = [] } ∷ s.conns;
      nconns = s.nconns + 1;
    }

abbrev pub close_client : Client → Client
close_client c = record c { closing = true }

-- `l_stop`; the flag is what it answers.
unfoldable pub l_stop : Clients → Clients × Bool
l_stop s =
    if s.stopped
    then (s, false)
    else (record s { stopped = true; conns = map close_client s.conns }, true)

abbrev pub is_attached : Client → Bool
is_attached c = c.is_stream && not c.closing

unfoldable pub l_clients : List Client → ℕ
l_clients [] = 0
l_clients (c ∷ cs) = let rest = l_clients cs in if is_attached c then rest + 1 else rest

-- "event: ", "\ndata: " and the empty line
abbrev pub event_frame : List ℕ → List ℕ → List ℕ
event_frame event text =
    b'e' ∷ b'v' ∷ b'e' ∷ b'n' ∷ b't' ∷ b':' ∷ b' ' ∷ event
    ++ (b'\n' ∷ b'd' ∷ b'a' ∷ b't' ∷ b'a' ∷ b':' ∷ b' ' ∷ text ++ b'\n' ∷ b'\n' ∷ [])

-- The loop of `l_broadcast`: every connection, and how many got the frame
unfoldable pub broadcast : (ℕ → Bool) → List ℕ → List Client → List Client × ℕ
broadcast takes bytes [] = ([], 0)
broadcast takes bytes (c ∷ cs) =
    let (rest, n) = broadcast takes bytes cs in
    if is_attached c && takes c.id
    then (record c { sent = c.sent ++ bytes ∷ [] } ∷ rest, n + 1)
    else (c ∷ rest, n)

unfoldable pub l_broadcast : (ℕ → Bool) → List ℕ → List ℕ → Clients → Clients × ℕ
unfolding broadcast
l_broadcast takes event text s =
    let r = broadcast takes (event_frame event text) s.conns in (record s { conns = r.0 }, r.1)

-- What happens to the list, event by event
pub data ServerEvent : Type 0 where
  connects : Bool → Bool → ℕ → ServerEvent
  disconnects : ℕ → ServerEvent
  stops : ServerEvent

unfoldable pub server_event : Clients → ServerEvent → Clients
unfolding on_connection unlink_conn l_stop
server_event s (connects status_ok accepted id) = on_connection status_ok accepted id s
server_event s (disconnects id) = unlink_conn id s
server_event s stops = (l_stop s).0

unfoldable pub server_events : Clients → List ServerEvent → Clients
unfolding server_event
server_events s [] = s
server_events s (e ∷ es) = server_events (server_event s e) es
