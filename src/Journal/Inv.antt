-- ===== src/Journal/Inv.antt =====
-- The invariant of the two threads of src/jwriter.c.
use boggart.Base.{
  refl, ℕ, suc, ◌+◌, ◌%◌, ◌^◌, ◌≡◌, ◌⊎◌, List, [], ◌∷◌, ◌++◌, Bool, true, false, length, get_or,
  if◌then◌else◌,
}
use boggart.Journal.State.{
  Kind, insert, processed, flush, stop, Rec, is_data, jw_cap, blank, After, returns, awaits, joins,
  Producer, idle, entering, stalled, holding, posting, awaiting, joining, Consumer, waiting,
  gathering, working, acking, ended, Sqlite, Writer,
}
use boggart.Journal.Step.{push, flushes, stops, Move, issue, produce, consume}

-- The ring holds these records from counter `c` on.
abbrev pub Holds : List Rec → ℕ → List Rec → Type 0
Holds slots c [] = Unit {0}
Holds slots c (r ∷ rs) = (get_or slots (c % jw_cap) blank ≡ r) × Holds slots (suc c) rs

abbrev pub held : Producer → ℕ
held (holding r a) = 1
held _ = 0

abbrev pub unposted : Producer → ℕ
unposted (posting r a) = 1
unposted _ = 0

abbrev pub claimed : Consumer → ℕ
claimed (gathering n) = n
claimed (working n saw_stop saw_flush) = n
claimed _ = 0

abbrev pub saw_stop : Consumer → Bool
saw_stop (working n s f) = s
saw_stop (acking s f) = s
saw_stop _ = false

abbrev pub saw_flush : Consumer → Bool
saw_flush (working n s f) = f
saw_flush (acking s f) = f
saw_flush _ = false

abbrev pub is_ended : Consumer → Bool
is_ended ended = true
is_ended _ = false

-- The data record that a call has handed over and that is not in the ring yet.
abbrev pub data_part : Kind → Rec → List Rec
data_part insert r = r ∷ []
data_part processed r = r ∷ []
data_part flush r = []
data_part stop r = []

abbrev pub in_hand : Producer → List Rec
in_hand (entering r a) = data_part r.kind r
in_hand (stalled r a) = data_part r.kind r
in_hand (holding r a) = data_part r.kind r
in_hand _ = []

abbrev pub data_of : List Rec → List Rec
data_of [] = []
data_of (r ∷ rs) = data_part r.kind r ++ data_of rs

-- What a record is for decides what the caller does after it.
abbrev pub Suits : Rec → After → Type 0
Suits r returns = is_data r.kind ≡ true
Suits r (awaits b) = r.kind ≡ flush
Suits r joins = r.kind ≡ stop

abbrev pub Ready : Producer → Type 0
Ready (entering r a) = Suits r a
Ready (stalled r a) = Suits r a
Ready (holding r a) = Suits r a
Ready _ = Unit {0}

pub data Phase : Type 0 where
  calm flushing stopping over : Phase

abbrev pub after_phase : After → Phase
after_phase returns = calm
after_phase (awaits b) = flushing
after_phase joins = stopping

abbrev pub phase : Producer → Bool → Phase
phase idle true = calm
phase idle false = over
phase (posting r a) _ = after_phase a
phase (awaiting b) _ = flushing
phase joining _ = stopping
phase _ _ = calm

abbrev pub AllData : List Rec → Type 0
AllData [] = Unit {0}
AllData (r ∷ rs) = (is_data r.kind ≡ true) × AllData rs

-- Data records, and one control record behind them.
abbrev pub Closes : Kind → List Rec → Type 0
Closes k [] = ⊥
Closes k (r ∷ []) = r.kind ≡ k
Closes k (r ∷ s ∷ rs) = (is_data r.kind ≡ true) × Closes k (s ∷ rs)

abbrev pub Quiet : Consumer → Type 0
Quiet c = (saw_stop c ≡ false) × (saw_flush c ≡ false) × (is_ended c ≡ false)

-- Where the control record is, if the producer has sent one: in the ring, seen, or acknowledged.
abbrev pub Tidy : Phase → List Rec → Consumer → ℕ → Type 0
Tidy calm ring c done = AllData ring × Quiet c × (done ≡ 0)
Tidy flushing ring c done =
    (Closes flush ring × Quiet c × (done ≡ 0))
    ⊎ ((ring ≡ [])
        × (saw_stop c ≡ false)
        × (saw_flush c ≡ true)
        × (is_ended c ≡ false)
        × (done ≡ 0))
    ⊎ ((ring ≡ []) × (c ≡ waiting) × (done ≡ 1))
Tidy stopping ring c done =
    (Closes stop ring × Quiet c × (done ≡ 0))
    ⊎ ((ring ≡ [])
        × (saw_stop c ≡ true)
        × (saw_flush c ≡ false)
        × (is_ended c ≡ false)
        × (done ≡ 0))
    ⊎ ((ring ≡ []) × (c ≡ ended) × (done ≡ 0))
Tidy over ring c done = (ring ≡ []) × (c ≡ ended) × (done ≡ 0)

-- What SQLite is documented to do while no call fails: `table` is what is committed, `txn` what the open
-- transaction sees, and `insert_row` and `stamp_row` are what the two statements do to a table.
pub record Effects {Db : Type 0} (sql : Sqlite Db) (Table : Type 0) : Type 0 where
  pub table : Db → Table
  pub txn : Db → Table
  pub insert_row : Rec → Table → Table
  pub stamp_row : Rec → Table → Table
  pub begin_table : (d : Db) → table (sql.exec_begin d) ≡ table d
  pub begin_txn : (d : Db) → txn (sql.exec_begin d) ≡ table d
  pub insert_txn : (r : Rec) (d : Db) → txn (sql.step_insert r d) ≡ insert_row r (txn d)
  pub update_txn : (r : Rec) (d : Db) → txn (sql.step_update r d) ≡ stamp_row r (txn d)
  pub commit_table : (d : Db) → table (sql.exec_commit d) ≡ txn d

-- A view of any database that sees nothing
abbrev pub no_view : {Db : Type 0} (sql : Sqlite Db) → Effects sql (Unit {0})
no_view sql = record {
  table = λ d. tt;
  txn = λ d. tt;
  insert_row = λ r t. t;
  stamp_row = λ r t. t;
  begin_table = λ d. refl;
  begin_txn = λ d. refl;
  insert_txn = λ r d. refl;
  update_txn = λ r d. refl;
  commit_table = λ d. refl;
}

module _ {Db Table : Type 0} (sql : Sqlite Db) (fx : Effects sql Table) where
  abbrev pub apply : Kind → Rec → Table → Table
  apply insert r t = fx.insert_row r t
  apply processed r t = fx.stamp_row r t
  apply flush r t = t
  apply stop r t = t

  abbrev pub store_row : Bool → Rec → Table → Table
  store_row false r t = t
  store_row true r t = apply r.kind r t

  -- What the statements of these records do to a table, in order.
  abbrev pub store_all : Bool → List Rec → Table → Table
  store_all opened [] t = t
  store_all opened (r ∷ rs) t = store_all opened rs (store_row opened r t)

  -- What the writer thread sees
  abbrev pub view : Consumer → Bool → Db → Table
  view (working n s f) opened d = if opened then fx.txn d else fx.table d
  view _ opened d = fx.table d

-- `asked` are the data records that the program has handed over, of which `done` are with the
-- database; `n` counts all records taken out of the ring, and `ring` are those in it.
module _ {Db Table : Type 0} (sql : Sqlite Db) (fx : Effects sql Table) (base : Db) where
  pub record Inv (asked done : List Rec) (n : ℕ) (ring : List Rec) (w : Writer Db) : Type 0 where
    pub asked_eq : asked ≡ done ++ (data_of ring ++ in_hand w.producer)
    pub head_eq : w.head ≡ (n + length ring) % 2 ^ 32
    pub tail_eq : w.tail ≡ n % 2 ^ 32
    pub slots_len : length w.slots ≡ jw_cap
    pub holds : Holds w.slots n ring
    pub space_eq : w.space + held w.producer + length ring ≡ jw_cap
    pub items_eq : w.items + unposted w.producer + claimed w.consumer ≡ length ring
    pub seen : view sql fx w.consumer w.opened w.db ≡ store_all sql fx w.opened done (fx.table base)
    pub pushed_eq : w.pushed ≡ length done + length (data_of ring)
    pub written_eq : w.opened ≡ true → w.written ≡ length done
    pub ready : Ready w.producer
    pub tidy : Tidy (phase w.producer w.running) ring w.consumer w.flush_done
    pub up : (w.running ≡ true) ⊎ (w.producer ≡ idle)

-- The data record that a move hands over.
unfoldable pub asks : {Db : Type 0} → Move → Writer Db → List Rec
asks (issue (push r)) w = if w.running then r ∷ [] else []
asks (issue flushes) w = []
asks (issue stops) w = []
asks produce w = []
asks consume w = []
