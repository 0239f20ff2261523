-- ===== src/Bus/Queues.antt =====
-- src/lbus.c: the named work queues, `find_queue_locked`, `l_push`, `l_pull` and `l_qlen`.
use boggart.Base.{ℕ, ◌+◌, ◌-◌, List, [], ◌∷◌, ◌++◌, Option, none, some, if◌then◌else◌, bytes_eq}
use boggart.Bus.State.{Bytes, Queue, Bus}

-- `find_queue_locked` with `create` 0.
unfoldable pub find_queue : Bytes → List Queue → Option Queue
find_queue name [] = none
find_queue name (q ∷ qs) = if bytes_eq q.name name then some q else find_queue name qs

-- `find_queue_locked` with `create` 1, and the update of the queue that it returns.
unfoldable pub with_queue : Bytes → (Queue → Queue) → List Queue → List Queue
with_queue name f [] = f (record { name = name; items = []; depth = 0 }) ∷ []
with_queue name f (q ∷ qs) = if bytes_eq q.name name then f q ∷ qs else q ∷ with_queue name f qs

-- The update of an existing queue only.
unfoldable pub update_queue : Bytes → (Queue → Queue) → List Queue → List Queue
update_queue name f [] = []
update_queue name f (q ∷ qs) = if bytes_eq q.name name then f q ∷ qs else q ∷ update_queue name f qs

abbrev pub append_item : Bytes → Queue → Queue
append_item item q = record q { items = q.items ++ (item ∷ []); depth = q.depth + 1 }

abbrev pub first : List Bytes → Option Bytes
first [] = none
first (x ∷ xs) = some x

abbrev pub rest : List Bytes → List Bytes
rest [] = []
rest (x ∷ xs) = xs

abbrev pub drop_item : Queue → Queue
drop_item q = elim q.items [ [] ↦ q | x ∷ xs ↦ record q { items = xs; depth = q.depth - 1 } ]

-- `l_push`
unfoldable pub push : Bytes → Bytes → Bus → Bus
unfolding with_queue
push name item b = record b { queues = with_queue name (append_item item) b.queues }

-- `l_pull`
unfoldable pub pull : Bytes → Bus → Bus × Option Bytes
unfolding find_queue update_queue
pull name b = elim (find_queue name b.queues) [
  | none ↦ (b, none)
  | some q ↦ (record b { queues = update_queue name drop_item b.queues }, first q.items)
]

-- `l_qlen`
unfoldable pub qlen : Bytes → Bus → ℕ
unfolding find_queue
qlen name b = elim (find_queue name b.queues) [ none ↦ 0 | some q ↦ q.depth ]
