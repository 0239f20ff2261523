-- ===== src/Serve/Clients/Counted.antt =====
-- src/lserve.c: how many connections there are, and who gets a broadcast.
use boggart.Base.{
  ℕ, suc, ◌+◌, ◌≤◌, ◌≡◌, refl, ◌∙◌, sym, ap, List, [], ◌∷◌, ◌++◌, map, length, leb, ◌==◌, ◌&&◌,
  ◌||◌, not, Bool, true, Bool-cases, inl, inr, if◌then◌else◌, arith,
}
use boggart.Serve.Clients.{
  max_conns, Client, Clients, unlink_list, unlink_count, unlink_conn, on_connection, close_client,
  l_stop, l_clients, is_attached, broadcast, ServerEvent, connects, disconnects, stops,
  server_event, server_events,
}

-- The count is that of the list, within the limit.
abbrev pub IsCounted : Clients → Type 0
IsCounted s = (s.nconns ≡ length s.conns) × (s.nconns ≤ max_conns)

-- `k` connections are in front of the list.
unlink_count-length :
    (id n k : ℕ) (cs : List Client)
    → n ≡ length cs + k
    → (unlink_count id cs n ≡ length (unlink_list id cs) + k) × (unlink_count id cs n ≤ n)
unfolding unlink_count unlink_list
unlink_count-length id n k [] e = (e, omega arith)
unlink_count-length id n k (c ∷ cs) e =
    let (a, b) = unlink_count-length id n (k + 1) cs (omega arith) in
    elim (Bool-cases (c.id == id)) [
      | inl t ↦ rw t (omega arith, omega arith)
      | inr t ↦ rw t (omega arith, b)
    ]

length-map : (cs : List Client) → length (map close_client cs) ≡ length cs
length-map [] = refl
length-map (c ∷ cs) = ap suc (length-map cs)

server_event-IsCounted :
    (s : Clients) (e : ServerEvent) → IsCounted s → IsCounted (server_event s e)
unfolding server_event on_connection unlink_conn l_stop
server_event-IsCounted s (connects status_ok accepted id) (n, l) =
    elim (Bool-cases (not status_ok || s.stopped)) [
      | inl t ↦ rw (t, on_connection) (n, l)
      | inr t ↦ elim (Bool-cases (leb max_conns s.nconns)) [
        | inl f ↦ rw (t, f, on_connection) (n, l)
        | inr f ↦ elim (Bool-cases (not accepted)) [
          | inl a ↦ rw (t, f, a, on_connection) (n, l)
          | inr a ↦ rw (t, f, a, on_connection) (omega arith, ground arith)
        ]
      ]
    ]
server_event-IsCounted s (disconnects id) (n, l) =
    let (a, b) = unlink_count-length id s.nconns 0 s.conns (omega arith) in
    (omega arith, omega arith)
server_event-IsCounted s stops (n, l) = elim (Bool-cases s.stopped) [
  | inl t ↦ rw (t, server_event) (n, l)
  | inr t ↦ rw (t, server_event) (n ∙ sym (length-map s.conns), l)
]

-- Whoever connects, leaves or is turned away, in whatever order, a server has as many connections as it counts,
-- and no more than it may have.
pub server_events-IsCounted :
    (s : Clients) (es : List ServerEvent) → IsCounted s → IsCounted (server_events s es)
unfolding server_events
server_events-IsCounted s [] h = h
server_events-IsCounted s (e ∷ es) h =
    server_events-IsCounted (server_event s e) es (server_event-IsCounted s e h)

-- A stream that is not closing and whose write is taken gets the frame; nobody else gets anything.
abbrev pub gets : (ℕ → Bool) → List ℕ → Client → Client
gets takes bytes c =
    if is_attached c && takes c.id then record c { sent = c.sent ++ bytes ∷ [] } else c

-- A broadcast writes the frame to every attached stream whose write is taken, and to nobody else, and when
-- every write is taken then it answers the number that `l_clients` tells.
pub broadcast-l_clients :
    (takes : ℕ → Bool) (bytes : List ℕ) (cs : List Client)
    → ((broadcast takes bytes cs).0 ≡ map (gets takes bytes) cs)
      × (((id : ℕ) → takes id ≡ true) → (broadcast takes bytes cs).1 ≡ l_clients cs)
unfolding broadcast l_clients
broadcast-l_clients takes bytes [] = (refl, λ h. refl)
broadcast-l_clients takes bytes (c ∷ cs) =
    let (a, b) = broadcast-l_clients takes bytes cs in
    elim (Bool-cases (is_attached c)) [
      | inr t ↦ rw t (ap (λ xs. c ∷ xs) a, b)
      | inl t ↦ elim (Bool-cases (takes c.id)) [
        | inl q ↦
            rw (t, q)
              (
                ap (λ xs. record c { sent = c.sent ++ bytes ∷ [] } ∷ xs) a,
                λ h. ap (λ n. n + 1) (b h),
              )
        | inr q ↦ rw (t, q) (ap (λ xs. c ∷ xs) a, λ h. cc (h c.id, q))
      ]
    ]
