-- ===== src/Bus/State.antt =====
-- src/lbus.c: the state `B`, and the operations on subscribers. The mutex is not modelled: each
-- operation below is one critical section, or a sequence of them as in the source. Counters and ids
-- are numbers (`int` and `uint64_t` in C, far from their limits).
use boggart.Base.{
  ℕ, suc, ◌+◌, ◌==◌, List, [], ◌∷◌, ◌++◌, Bool, true, false, not, ◌&&◌, if◌then◌else◌,
}
use boggart.Bus.Glob.{globs}

-- A C string or a payload, as bytes.
abbrev pub Bytes : Type 0
Bytes = List ℕ

-- `ref` is the registry reference of the Lua callback.
pub record Sub : Type 0 where
  pub id : ℕ
  pub pat : Bytes
  pub ref : ℕ
  pub dead : Bool

-- A work queue: the linked list from `head` to `tail`, and its count.
pub record Queue : Type 0 where
  pub name : Bytes
  pub items : List Bytes
  pub depth : ℕ

-- A publication of another thread that waits for the main thread.
pub record Pending : Type 0 where
  pub topic : Bytes
  pub payload : Bytes

pub record Bus : Type 0 where
  pub subs : List Sub
  pub next_id : ℕ
  pub disp_depth : ℕ
  pub queues : List Queue
  pub published : ℕ
  pub delivered : ℕ
  pub dropped : ℕ
  pub pending : List Pending
  pub pend_n : ℕ
  pub attached : Bool

abbrev pub pend_max : ℕ
pend_max = 4096

-- `ensure_init` on the zeroed struct.
unfoldable pub init : Bus
init = record {
  subs = [];
  next_id = 1;
  disp_depth = 0;
  queues = [];
  published = 0;
  delivered = 0;
  dropped = 0;
  pending = [];
  pend_n = 0;
  attached = false;
}

unfoldable pub keep_live : List Sub → List Sub
keep_live [] = []
keep_live (s ∷ ss) = if s.dead then keep_live ss else s ∷ keep_live ss

-- `compact_locked`: nothing is freed while a dispatch walks the list.
unfoldable pub compact : Bus → Bus
unfolding keep_live
compact b = if b.disp_depth == 0 then record b { subs = keep_live b.subs } else b

-- `l_subscribe`
unfoldable pub subscribe : Bytes → ℕ → Bus → Bus × ℕ
subscribe pat ref b =
    let entry : Sub = record { id = b.next_id; pat = pat; ref = ref; dead = false } in
    (record b { subs = b.subs ++ (entry ∷ []); next_id = b.next_id + 1 }, b.next_id)

-- The loop of `l_unsubscribe`: the first live entry with this id is marked.
unfoldable pub mark_dead : ℕ → List Sub → List Sub × Bool
mark_dead i [] = ([], false)
mark_dead i (s ∷ ss) =
    let (rest, found) = mark_dead i ss in
    if (s.id == i) && not s.dead then (record s { dead = true } ∷ ss, true) else (s ∷ rest, found)

-- `l_unsubscribe`
unfoldable pub unsubscribe : ℕ → Bus → Bus × Bool
unfolding mark_dead compact
unsubscribe i b = let (ss, found) = mark_dead i b.subs in (compact (record b { subs = ss }), found)

-- `l_has`
unfoldable pub has : Bytes → List Sub → Bool
has topic [] = false
has topic (s ∷ ss) = if not s.dead && globs s.pat topic then true else has topic ss

-- The references that `deliver` collects under the lock.
unfoldable pub snapshot : Bytes → List Sub → List ℕ
snapshot topic [] = []
snapshot topic (s ∷ ss) =
    if not s.dead && globs s.pat topic then s.ref ∷ snapshot topic ss else snapshot topic ss

-- `l_stats`, the fields that are counted there.
unfoldable pub live_count : List Sub → ℕ
live_count [] = 0
live_count (s ∷ ss) = if s.dead then live_count ss else suc (live_count ss)
