-- ===== src/Journal/State.antt =====
-- src/jwriter.c: records, the ring and the two threads' program counters. SQLite and its
-- database are parameters. A semaphore is its count. Counters and journal ids are numbers.
use boggart.Base.{ℕ, ◌-◌, List, Option, none, Bool, true, false, bit_and, replicate}

-- `jw_kind`
pub data Kind : Type 0 where
  insert processed flush stop : Kind

-- `jw_rec`; `to_id` is `none` where `has_to` is 0, and a null pointer is `none`.
pub record Rec : Type 0 where
  pub kind : Kind
  pub id : ℕ
  pub ts : ℕ
  pub from_id : ℕ
  pub to_id : Option ℕ
  pub topic : Option (List ℕ)
  pub kind_s : Option (List ℕ)
  pub payload : Option (List ℕ)
  pub processed : Bool

abbrev pub is_data : Kind → Bool
is_data insert = true
is_data processed = true
is_data flush = false
is_data stop = false

-- JW_CAP, JW_MASK and JW_BATCH
abbrev pub jw_cap : ℕ
jw_cap = 8192

abbrev pub jw_mask : ℕ
jw_mask = jw_cap - 1

abbrev pub jw_batch : ℕ
jw_batch = 4096

-- A record of zeros, as `calloc` and `memset` leave it; JW_INSERT is 0.
abbrev pub blank : Rec
blank = record {
  kind = insert;
  id = 0;
  ts = 0;
  from_id = 0;
  to_id = none;
  topic = none;
  kind_s = none;
  payload = none;
  processed = false;
}

-- `push_control`
abbrev pub control : Kind → Rec
control k = record blank { kind = k }

-- What the call that pushes does next: return, wait for the flush, or join the thread.
pub data After : Type 0 where
  returns : After
  awaits : Bool → After
  joins : After

-- Where the Lua thread is. In `awaiting b`, b says that `jwriter_stop` is the caller.
pub data Producer : Type 0 where
  idle : Producer
  entering : Rec → After → Producer
  stalled : Rec → After → Producer
  holding : Rec → After → Producer
  posting : Rec → After → Producer
  awaiting : Bool → Producer
  joining : Producer

-- Where the writer thread is: in `drain_batch` with `n` records claimed, or with `n` left to
-- write and the two flags, or past it, about to acknowledge.
pub data Consumer : Type 0 where
  waiting : Consumer
  gathering : ℕ → Consumer
  working : ℕ → Bool → Bool → Consumer
  acking : Bool → Bool → Consumer
  ended : Consumer

-- What a call of SQLite on the writer's connection leaves, if it succeeds and if it fails: the code does
-- not look at its result. A `Db` is all that this depends on, the disk and the other connection too.
pub record Sqlite (Db : Type 0) : Type 0 where
  pub exec_begin : Db → Db
  pub step_insert : Rec → Db → Db
  pub step_update : Rec → Db → Db
  pub exec_commit : Db → Db

-- `opened` says that the writer got its connection and its statements.
pub record Writer (Db : Type 0) : Type 0 where
  pub slots : List Rec
  pub head : ℕ
  pub tail : ℕ
  pub space : ℕ
  pub items : ℕ
  pub flush_done : ℕ
  pub pushed : ℕ
  pub written : ℕ
  pub stalls : ℕ
  pub running : Bool
  pub opened : Bool
  pub db : Db
  pub producer : Producer
  pub consumer : Consumer

-- `jwriter_start`, with its allocations and the thread made.
unfoldable pub start : {Db : Type 0} → Bool → Db → Writer Db
start opened db = record {
  slots = replicate jw_cap blank;
  head = 0;
  tail = 0;
  space = jw_cap;
  items = 0;
  flush_done = 0;
  pushed = 0;
  written = 0;
  stalls = 0;
  running = true;
  opened = opened;
  db = db;
  producer = idle;
  consumer = waiting;
}

-- `g_head & JW_MASK`
unfoldable pub slot_of : ℕ → ℕ
slot_of i = bit_and i jw_mask
