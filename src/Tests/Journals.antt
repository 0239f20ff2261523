-- ===== src/Tests/Journals.antt =====
-- Runs of src/jwriter.c: two records and a flush, then a stop.
use boggart.Base.{
  ℕ, ◌+◌, ◌≤◌, length, ◌++◌, ◌≡◌, refl, ◌⊎◌, List, [], ◌∷◌, Option, none, some, Bool, true, false,
}
use boggart.Journal.State.{processed, Rec, blank, Writer, start, jw_cap, idle, Sqlite}
use boggart.Journal.Step.{push, flushes, stops, Move, issue, produce, consume, produce_at, run}
use boggart.Journal.Inv.{asks, store_all, view, Effects}
use boggart.Journal.Run.{asked_by}
use boggart.Journal.Durable.{
  AllStored, flush-AllStored, stop-AllStored, committed_prefix, unopened_loses_all, Refuses,
  refused_loses_all,
}
use boggart.Journal.Progress.{never_blocked, CanStep}

abbrev row : Rec
row = record blank { id = 7; ts = 100; processed = true }

abbrev stamp : Rec
stamp = record blank { kind = processed; id = 7; ts = 101 }

-- A database of timestamps: what is committed, and what the transaction sees.
abbrev Journal : Type 0
Journal = List ℕ × List ℕ

abbrev sql : Sqlite Journal
sql = record {
  exec_begin = λ d. (d.0, d.0);
  step_insert = λ r d. (d.0, r.ts ∷ d.1);
  step_update = λ r d. (d.0, r.ts ∷ d.1);
  exec_commit = λ d. (d.1, d.1);
}

abbrev fx : Effects sql (List ℕ)
fx = record {
  table = λ d. d.0;
  txn = λ d. d.1;
  insert_row = λ r t. r.ts ∷ t;
  stamp_row = λ r t. r.ts ∷ t;
  begin_table = λ d. refl;
  begin_txn = λ d. refl;
  insert_txn = λ r d. refl;
  update_txn = λ r d. refl;
  commit_table = λ d. refl;
}

-- Every `COMMIT` fails, and the transaction is rolled back.
abbrev full : Sqlite Journal
full = record sql { exec_commit = λ d. (d.0, d.0) }

abbrev full-Refuses : Refuses full (λ d. d.0)
full-Refuses = record {
  at_begin = λ d. refl;
  at_insert = λ r d. refl;
  at_update = λ r d. refl;
  at_commit = λ d. refl;
}

abbrev empty : Journal
empty = ([], [])

-- Both records are pushed and the flush record is posted; then the writer takes them all.
abbrev to_flush : List Move
to_flush =
    issue (push row)
    ∷ produce
    ∷ produce
    ∷ produce
    ∷ issue (push stamp)
    ∷ produce
    ∷ produce
    ∷ produce
    ∷ issue flushes
    ∷ produce
    ∷ produce
    ∷ produce
    ∷ consume
    ∷ consume
    ∷ consume
    ∷ consume
    ∷ consume
    ∷ consume
    ∷ consume
    ∷ consume
    ∷ consume
    ∷ []

abbrev or_start : Bool → Option (Writer Journal) → Writer Journal
or_start opened none = start opened empty
or_start opened (some w) = w

abbrev flushed : Writer Journal
flushed = or_start true (run sql to_flush (start true empty))

abbrev flushed_next : Writer Journal
flushed_next = or_start true (produce_at flushed.producer flushed)

flush-AllStored_example : AllStored sql fx empty true (row ∷ stamp ∷ []) flushed_next
unfolding run start asked_by produce_at asks
flush-AllStored_example =
    flush-AllStored sql fx empty true false to_flush flushed flushed_next (refl, (refl, tt)) refl
      refl refl

-- One record, and a stop: its flush first, then the stop record.
abbrev to_stop : List Move
to_stop =
    issue (push row)
    ∷ produce
    ∷ produce
    ∷ produce
    ∷ issue stops
    ∷ produce
    ∷ produce
    ∷ produce
    ∷ consume
    ∷ consume
    ∷ consume
    ∷ consume
    ∷ consume
    ∷ consume
    ∷ consume
    ∷ produce
    ∷ produce
    ∷ produce
    ∷ produce
    ∷ consume
    ∷ consume
    ∷ consume
    ∷ consume
    ∷ consume
    ∷ []

abbrev stopped : Writer Journal
stopped = or_start true (run sql to_stop (start true empty))

abbrev stopped_next : Writer Journal
stopped_next = or_start true (produce_at stopped.producer stopped)

stop-AllStored_example :
    AllStored sql fx empty true (row ∷ []) stopped_next × (stopped_next.running ≡ false)
unfolding run start asked_by produce_at asks
stop-AllStored_example =
    stop-AllStored sql fx empty true to_stop stopped stopped_next (refl, tt) refl refl refl

-- The state after the flush is acknowledged, with a third record in the caller's hand.
abbrev to_third : List Move
to_third =
    issue (push row)
    ∷ produce
    ∷ produce
    ∷ produce
    ∷ consume
    ∷ consume
    ∷ consume
    ∷ consume
    ∷ consume
    ∷ issue (push stamp)
    ∷ []

abbrev third : Writer Journal
third = or_start true (run sql to_third (start true empty))

committed_prefix_example :
    (done : List Rec) × (later : List Rec) × ((row ∷ stamp ∷ []) ≡ done ++ later)
    × (view sql fx third.consumer true third.db ≡ store_all sql fx true done [])
    × (length later ≤ jw_cap + 1)
unfolding run start asked_by asks
committed_prefix_example =
    committed_prefix sql fx empty true to_third third (refl, (refl, tt)) refl refl

never_blocked_example :
    (third.producer ≡ idle) ⊎ CanStep sql produce third ⊎ CanStep sql consume third
unfolding run start asked_by asks
never_blocked_example = never_blocked sql empty true to_third third (refl, (refl, tt)) refl

abbrev lost : Writer Journal
lost = or_start false (run sql to_flush (start false empty))

abbrev lost_next : Writer Journal
lost_next = or_start false (produce_at lost.producer lost)

unopened_loses_all_example : (lost_next.db ≡ empty) × (lost_next.pushed ≡ 2)
unfolding run start asked_by produce_at asks
unopened_loses_all_example =
    unopened_loses_all sql empty false to_flush lost lost_next (refl, (refl, tt)) refl refl refl

abbrev refused : Writer Journal
refused = or_start true (run full to_flush (start true empty))

abbrev refused_next : Writer Journal
refused_next = or_start true (produce_at refused.producer refused)

refused_loses_all_example : (refused_next.db.0 ≡ []) × (refused_next.written ≡ 2)
unfolding run start asked_by produce_at asks
refused_loses_all_example =
    refused_loses_all full (λ d. d.0) full-Refuses empty false to_flush refused refused_next
      (refl, (refl, tt)) refl refl refl
