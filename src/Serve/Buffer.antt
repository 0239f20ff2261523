-- ===== src/Serve/Buffer.antt =====
-- src/lserve.c: `conn_append`, the bytes of a connection. Whether an allocation of so many bytes succeeds is a
-- parameter.
pub mod Room
use boggart.Base.{
  ℕ, zero, suc, ◌+◌, ◌*◌, List, [], ◌++◌, length, ltb, ◌==◌, Bool, true, false, if◌then◌else◌,
}

-- MAX_HEADER_BYTES and MAX_BODY_BYTES
abbrev pub max_header : ℕ
max_header = 64 * 1024

abbrev pub max_body : ℕ
max_body = 8 * 1024 * 1024

-- The bytes of `Conn`; `len` is the length of `bytes`.
pub record Received : Type 0 where
  pub bytes : List ℕ
  pub room : ℕ

-- The loop that doubles the room, on fuel
unfoldable pub double_room : ℕ → ℕ → ℕ → ℕ
double_room zero want need = want
double_room (suc fuel) want need =
    let larger = double_room fuel (want * 2) need in if ltb want need then larger else want

abbrev pub first_room : ℕ → ℕ
first_room room = if room == 0 then 4096 else room

-- The flag tells of success.
unfoldable pub conn_append : (ℕ → Bool) → Received → List ℕ → Received × Bool
unfolding double_room
conn_append alloc c more =
    let need = length c.bytes + length more + 1 in
    let want = double_room need (first_room c.room) need in
    if ltb (max_header + max_body) (length c.bytes + length more)
    then (c, false)
    else if ltb c.room need
    then (if alloc want
        then (record { bytes = c.bytes ++ more; room = want }, true)
        else (record { bytes = []; room = 0 }, false))
    else (record c { bytes = c.bytes ++ more }, true)
