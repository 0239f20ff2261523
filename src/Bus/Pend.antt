-- ===== src/Bus/Pend.antt =====
-- src/lbus.c, `enqueue_cross`: what other threads publish before the main thread drains.
use native.Mathlib.Decide.{dec_lt}
use boggart.Base.{
  ◌+◌, ◌-◌, ◌≤◌, ◌<◌, ◌≡◌, List, [], ◌∷◌, ◌++◌, append-nil, append_assoc, length, take, take-nil,
  take-cons, arith,
}
use boggart.Bus.State.{Pending, Bus, pend_max}
use boggart.Bus.Dispatch.{publish_cross}
use boggart.Bus.Valid.{IsValid}
use boggart.Bus.Keep.{publish_cross-IsValid}

-- Publications of other threads, one after another.
unfoldable pub offer_all : List Pending → Bus → Bus
offer_all [] b = b
offer_all (p ∷ ps) b = offer_all ps (publish_cross p.topic p.payload b).0

room_step :
    (p : Pending) (b : Bus)
    → b.pend_n < pend_max
    → let c = (publish_cross p.topic p.payload b).0 in
      (c.pending ≡ b.pending ++ (p ∷ [])) × (c.pend_n ≡ b.pend_n + 1) × (c.dropped ≡ b.dropped)
unfolding publish_cross
room_step p b h = ground arith

full_step :
    (p : Pending) (b : Bus)
    → pend_max ≤ b.pend_n
    → let c = (publish_cross p.topic p.payload b).0 in
      (c.pending ≡ b.pending) × (c.pend_n ≡ b.pend_n) × (c.dropped ≡ b.dropped + 1)
unfolding publish_cross
full_step p b h = ground arith

-- On a valid bus, what other threads publish is queued in order while there is room for it, the rest
-- is shed and counted in `dropped`, and the bus stays valid.
pub offer_all_lem :
    (ps : List Pending) (b : Bus)
    → IsValid b
    → ((offer_all ps b).pending ≡ b.pending ++ take (pend_max - b.pend_n) ps)
      × ((offer_all ps b).dropped ≡ b.dropped + (length ps - (pend_max - b.pend_n)))
      × IsValid (offer_all ps b)
unfolding offer_all
offer_all_lem [] b v = (rw (take-nil Pending (pend_max - b.pend_n), append-nil), omega arith, v)
offer_all_lem (p ∷ ps) b v = elim (dec_lt b.pend_n pend_max) [
  | yes h ↦ ground (
    arith,
    publish_cross-IsValid p.topic p.payload b v,
    room_step p b h,
    offer_all_lem ps (publish_cross p.topic p.payload b).0,
    append_assoc b.pending (p ∷ []) (take (pend_max - b.pend_n - 1) ps),
    take-cons (pend_max - b.pend_n) p ps,
  )
  | no h ↦ ground (
    arith,
    publish_cross-IsValid p.topic p.payload b v,
    full_step p b,
    offer_all_lem ps (publish_cross p.topic p.payload b).0,
  )
]
