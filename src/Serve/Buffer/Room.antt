-- ===== src/Serve/Buffer/Room.antt =====
-- src/lserve.c: what a connection has received fits its buffer, and the buffer stays small.
use boggart.Base.{
  ℕ, zero, suc, ◌+◌, ◌*◌, ◌≤◌, ◌<◌, ◌≡◌, refl, List, [], ◌++◌, length, length-append, ltb, Bool,
  true, false, Bool-cases, ◌⊎◌, inl, inr, arith,
}
use boggart.Serve.Buffer.{max_header, max_body, Received, double_room, first_room, conn_append}

double_room-enough :
    (fuel want need : ℕ)
    → 0 < want
    → need ≤ want + fuel
    → (need ≤ double_room fuel want need)
      × ((double_room fuel want need ≡ want) ⊎ (double_room fuel want need < need * 2))
unfolding double_room
double_room-enough zero want need h f = (omega arith, inl refl)
double_room-enough (suc fuel) want need h f =
    let more = double_room-enough fuel (want * 2) need (omega arith) (omega arith) in ground arith

-- There is room for the bytes and the zero behind them, or there is no buffer; and no more than the requests need.
abbrev pub IsRoomy : Received → Type 0
IsRoomy c =
    ((length c.bytes < c.room) ⊎ ((c.bytes ≡ []) × (c.room ≡ 0)))
    × (length c.bytes ≤ max_header + max_body)
    × (c.room ≤ (max_header + max_body + 1) * 2)

-- Receiving keeps to the buffer, whatever arrives: the bytes are appended; or there are too many and nothing
-- changes; or memory is out and the buffer is gone.
pub conn_append-IsRoomy :
    (alloc : ℕ → Bool) (c : Received) (arrived : List ℕ)
    → IsRoomy c
    → (let r = conn_append alloc c arrived in
        IsRoomy r.0
        × (((r.1 ≡ true) × (r.0.bytes ≡ c.bytes ++ arrived))
            ⊎ (((r.1 ≡ false)
                  × (r.0 ≡ c)
                  × (max_header + max_body < length c.bytes + length arrived))
                ⊎ ((r.1 ≡ false) × (r.0.bytes ≡ []) × (r.0.room ≡ 0)))))
unfolding conn_append
conn_append-IsRoomy alloc c arrived (h, k, l) =
    let need = length c.bytes + length arrived + 1 in
    let want = double_room need (first_room c.room) need in
    let (enough, small) =
      double_room-enough need (first_room c.room) need (ground arith) (omega arith) in
    let n = length-append c.bytes arrived in
    elim (Bool-cases (ltb (max_header + max_body) (length c.bytes + length arrived))) [
      | inl e ↦ rw (e, conn_append) ((h, k, l), inr (inl (refl, refl, ground arith)))
      | inr e ↦ elim (Bool-cases (ltb c.room need)) [
        | inl f ↦ elim (Bool-cases (alloc want)) [
          | inl a ↦
              rw (e, f, a, conn_append)
                ((inl (omega arith), ground arith, ground arith), inl (refl, refl))
          | inr a ↦
              rw (e, f, a, conn_append)
                ((inr (refl, refl), omega arith, omega arith), inr (inr (refl, refl, refl)))
        ]
        | inr f ↦ rw (e, f, conn_append) ((inl (ground arith), ground arith, l), inl (refl, refl))
      ]
    ]
