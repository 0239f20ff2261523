-- ===== src/Bus/Fifo.antt =====
-- src/lbus.c: the named work queues are independent FIFO queues of byte strings.
use boggart.Base.{
  ◌≡◌, refl, List, [], ◌∷◌, ◌++◌, none, some, length, arith, if◌then◌else◌, bytes_eq, bytes_eq_iff,
}
use boggart.Bus.State.{Bytes, Queue, Bus}
use boggart.Bus.Queues.{
  find_queue, with_queue, update_queue, append_item, drop_item, first, rest, push, pull, qlen,
}
use boggart.Bus.Valid.{IsValid, Sized}

-- What a name stands for: a queue that was never pushed to is empty.
unfoldable pub items_of : Bytes → List Queue → List Bytes
items_of name [] = []
items_of name (q ∷ qs) = if bytes_eq q.name name then q.items else items_of name qs

pub contents : Bytes → Bus → List Bytes
contents name b = items_of name b.queues

items_of-with_queue :
    (n j item : Bytes) (qs : List Queue)
    → items_of j (with_queue n (append_item item) qs)
      ≡ (if bytes_eq n j then items_of n qs ++ (item ∷ []) else items_of j qs)
unfolding items_of with_queue
items_of-with_queue n j item [] = ground arith
items_of-with_queue n j item (q ∷ qs) = ground (
  arith,
  items_of-with_queue n j item qs,
  bytes_eq_iff q.name n,
  bytes_eq_iff q.name j,
  bytes_eq_iff n j,
)

items_of-update_queue :
    (n j : Bytes) (qs : List Queue)
    → items_of j (update_queue n drop_item qs)
      ≡ (if bytes_eq n j then rest (items_of n qs) else items_of j qs)
unfolding items_of update_queue
items_of-update_queue n j [] = ground arith
items_of-update_queue n j (q ∷ qs) = ground (
  arith,
  items_of-update_queue n j qs,
  bytes_eq_iff q.name n,
  bytes_eq_iff q.name j,
  bytes_eq_iff n j,
)

items_of-find :
    (n : Bytes) (qs : List Queue)
    → items_of n qs ≡ elim (find_queue n qs) [ none ↦ [] | some q ↦ q.items ]
unfolding items_of find_queue
items_of-find n [] = refl
items_of-find n (q ∷ qs) = ground (arith, items_of-find n qs)

find_queue-Sized :
    (n : Bytes) (qs : List Queue)
    → Sized qs
    → elim (find_queue n qs) [ none ↦ 0 | some q ↦ q.depth ] ≡ length (items_of n qs)
unfolding items_of find_queue
find_queue-Sized n [] h = refl
find_queue-Sized n (q ∷ qs) h = ground (arith, find_queue-Sized n qs h.1)

-- A push appends to the queue of that name, made where it is missing, and leaves the others alone.
pub contents-push :
    (n j item : Bytes) (b : Bus)
    → contents j (push n item b)
      ≡ (if bytes_eq n j then contents n b ++ (item ∷ []) else contents j b)
unfolding contents push
contents-push n j item b = items_of-with_queue n j item b.queues

-- A pull takes the first item, or nothing from an empty or unknown queue, and leaves the others alone.
pub pull_lem :
    (n j : Bytes) (b : Bus)
    → let (c, got) = pull n b in
      (got ≡ first (contents n b))
      × (contents j c ≡ (if bytes_eq n j then rest (contents n b) else contents j b))
unfolding contents pull
pull_lem n j b =
    ground (arith, items_of-update_queue n j b.queues, items_of-find n b.queues, bytes_eq_iff n j)

-- On a valid bus the counted depth is the number of items.
pub qlen-length : (n : Bytes) (b : Bus) → IsValid b → qlen n b ≡ length (contents n b)
unfolding contents qlen
qlen-length n b v = find_queue-Sized n b.queues v.sized
