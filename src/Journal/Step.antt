-- ===== src/Journal/Step.antt =====
-- src/jwriter.c: the steps of the two threads, between any two of which the other may run.
-- `produce` and `consume` make one step, and are `none` where the thread is blocked or has nothing to do.
use boggart.Base.{
  ℕ, zero, suc, ◌+◌, ◌-◌, ◌%◌, ◌^◌, ltb, ◌==◌, List, [], ◌∷◌, Option, none, some, Bool, true, false,
  ◌||◌, get_or, set, if◌then◌else◌,
}
use boggart.Journal.State.{
  Kind, insert, processed, flush, stop, Rec, is_data, jw_batch, blank, control, After, returns,
  awaits, joins, Producer, idle, entering, stalled, holding, posting, awaiting, joining, Consumer,
  waiting, gathering, working, acking, ended, Sqlite, Writer, slot_of,
}

-- The calls of the Lua thread: `jwriter_push`, `jwriter_flush` and `jwriter_stop`.
pub data Call : Type 0 where
  push : Rec → Call
  flushes : Call
  stops : Call

pub data Move : Type 0 where
  issue : Call → Move
  produce : Move
  consume : Move

abbrev pub entry : Call → Producer
entry (push r) = entering r returns
entry flushes = entering (control flush) (awaits false)
entry stops = entering (control flush) (awaits true)

abbrev pub resume : After → Producer
resume returns = idle
resume (awaits stopping) = awaiting stopping
resume joins = joining

abbrev pub is_stop : Kind → Bool
is_stop stop = true
is_stop _ = false

abbrev pub is_flush : Kind → Bool
is_flush flush = true
is_flush _ = false

module _ {Db : Type 0} where
  -- A call is made when the last one has returned, and does nothing when the writer is not running.
  unfoldable pub call : Call → Writer Db → Option (Writer Db)
  call c w = elim w.producer [
    | idle ↦ some (if w.running then record w { producer = entry c } else w)
    | _ ↦ none
  ]

  -- `uv_sem_trywait(&g_space)`, and the count of stalls
  unfoldable pub try_reserve : Rec → After → Writer Db → Writer Db
  try_reserve r a w =
      if w.space == 0
      then record w { stalls = w.stalls + 1; producer = stalled r a }
      else record w { space = w.space - 1; producer = holding r a }

  -- `uv_sem_wait(&g_space)`
  unfoldable pub reserve : Rec → After → Writer Db → Option (Writer Db)
  reserve r a w =
      if w.space == 0 then none else some (record w { space = w.space - 1; producer = holding r a })

  -- The slot, `g_head` (a `uint32_t`) and the count of data records
  unfoldable pub fill : Rec → After → Writer Db → Writer Db
  unfolding slot_of
  fill r a w = record w {
    slots = set w.slots (slot_of w.head) r;
    head = (w.head + 1) % 2 ^ 32;
    pushed = if is_data r.kind then w.pushed + 1 else w.pushed;
    producer = posting r a;
  }

  -- `uv_sem_post(&g_items)`
  unfoldable pub post : After → Writer Db → Writer Db
  post a w = record w { items = w.items + 1; producer = resume a }

  -- `uv_sem_wait(&g_flush_done)`; `jwriter_stop` goes on to push the STOP record.
  unfoldable pub await_flush : Bool → Writer Db → Option (Writer Db)
  await_flush stopping w =
      if w.flush_done == 0
      then none
      else some (record w {
        flush_done = w.flush_done - 1;
        producer = if stopping then entering (control stop) joins else idle;
      })

  -- `uv_thread_join`, and `g_running = 0`
  unfoldable pub join : Writer Db → Option (Writer Db)
  join w = elim w.consumer [
    | ended ↦ some (record w { running = false; producer = idle })
    | _ ↦ none
  ]

  unfoldable pub produce_at : Producer → Writer Db → Option (Writer Db)
  unfolding try_reserve reserve fill post await_flush join
  produce_at idle w = none
  produce_at (entering r a) w = some (try_reserve r a w)
  produce_at (stalled r a) w = reserve r a w
  produce_at (holding r a) w = some (fill r a w)
  produce_at (posting r a) w = some (post a w)
  produce_at (awaiting stopping) w = await_flush stopping w
  produce_at joining w = join w

  -- The rest of the loop of `writer_main`
  unfoldable pub ack : Bool → Bool → Writer Db → Writer Db
  ack saw_stop saw_flush w = record w {
    flush_done = if saw_flush then w.flush_done + 1 else w.flush_done;
    consumer = if saw_stop then ended else waiting;
  }

  unfoldable pub claim : Writer Db → Option (Writer Db)
  claim w =
      if w.items == 0 then none else some (record w { items = w.items - 1; consumer = gathering 1 })

module _ {Db : Type 0} (sql : Sqlite Db) where
  -- `BEGIN IMMEDIATE`, behind the loop that claims records
  unfoldable pub begin : ℕ → Writer Db → Writer Db
  begin n w = record w {
    db = if w.opened then sql.exec_begin w.db else w.db;
    consumer = working n false false;
  }

  -- The loop that claims more records, and then `BEGIN IMMEDIATE`.
  unfoldable pub gather : ℕ → Writer Db → Writer Db
  unfolding begin
  gather n w =
      if ltb n jw_batch
      then (if w.items == 0
          then begin n w
          else record w { items = w.items - 1; consumer = gathering (n + 1) })
      else begin n w

  -- `COMMIT`
  unfoldable pub commit : Bool → Bool → Writer Db → Writer Db
  commit saw_stop saw_flush w = record w {
    db = if w.opened then sql.exec_commit w.db else w.db;
    consumer = acking saw_stop saw_flush;
  }

  -- The statement that is run for a record.
  abbrev pub run_statement : Kind → Rec → Db → Db
  run_statement insert r d = sql.step_insert r d
  run_statement processed r d = sql.step_update r d
  run_statement flush r d = d
  run_statement stop r d = d

  abbrev pub store : Bool → Rec → Db → Db
  store false r d = d
  store true r d = run_statement r.kind r d

  -- One round of the loop of `drain_batch`.
  unfoldable pub write_one : ℕ → Bool → Bool → Writer Db → Writer Db
  unfolding slot_of
  write_one left saw_stop saw_flush w =
      let r = get_or w.slots (slot_of w.tail) blank in
      record w {
        db = store w.opened r w.db;
        written =
            if is_data r.kind then (if w.opened then w.written + 1 else w.written) else w.written;
        tail = (w.tail + 1) % 2 ^ 32;
        space = w.space + 1;
        consumer = working left (saw_stop || is_stop r.kind) (saw_flush || is_flush r.kind);
      }

  unfoldable pub consume_at : Consumer → Writer Db → Option (Writer Db)
  unfolding claim gather write_one commit ack
  consume_at waiting w = claim w
  consume_at (gathering n) w = some (gather n w)
  consume_at (working zero saw_stop saw_flush) w = some (commit saw_stop saw_flush w)
  consume_at (working (suc left) saw_stop saw_flush) w = some (write_one left saw_stop saw_flush w)
  consume_at (acking saw_stop saw_flush) w = some (ack saw_stop saw_flush w)
  consume_at ended w = none

  unfoldable pub step : Move → Writer Db → Option (Writer Db)
  unfolding call produce_at consume_at
  step (issue c) w = call c w
  step produce w = produce_at w.producer w
  step consume w = consume_at w.consumer w

  -- Any interleaving of the two threads.
  unfoldable pub run : List Move → Writer Db → Option (Writer Db)
  unfolding step
  run [] w = some w
  run (m ∷ ms) w = elim (step m w) [ none ↦ none | some v ↦ run ms v ]
