-- ===== src/Journal/Durable.antt =====
-- src/jwriter.c: when `jwriter_flush` and `jwriter_stop` return, what is committed.
use boggart.Base.{
  ◌+◌, ◌≤◌, ◌≡◌, refl, ◌∙◌, ap, subst, List, [], ◌∷◌, ◌++◌, some, Bool, true, false, length,
  length-append, append-nil, arith,
}
use boggart.Journal.State.{
  Kind, insert, processed, flush, stop, Rec, jw_cap, Sqlite, Writer, start, Producer, entering,
  stalled, holding, awaiting, joining,
}
use boggart.Journal.Step.{Move, run, produce_at, await_flush, join}
use boggart.Journal.Inv.{
  Effects, no_view, AllData, store_all, apply, data_of, claimed, view, in_hand, data_part,
}
use boggart.Journal.Opened.{run-opened, run-db, produce-db}
use boggart.Journal.Run.{asked_by, start-Reached, Reached}

length-data_part : (k : Kind) (r : Rec) → length (data_part k r) ≤ 1
length-data_part insert r = omega arith
length-data_part _ r = omega arith

length-data_of : (ring : List Rec) → length (data_of ring) ≤ length ring
length-data_of [] = omega arith
length-data_of (r ∷ rs) = omega (
  arith,
  length-append (data_part r.kind r) (data_of rs),
  length-data_part r.kind r,
  length-data_of rs,
)

length-in_hand : (p : Producer) → length (in_hand p) ≤ 1
length-in_hand (entering r a) = length-data_part r.kind r
length-in_hand (stalled r a) = length-data_part r.kind r
length-in_hand (holding r a) = length-data_part r.kind r
length-in_hand _ = omega arith

module _ {Db Table : Type 0} (sql : Sqlite Db) (fx : Effects sql Table) (base : Db) where
  -- The database holds just what was handed over, and the counts agree.
  pub record AllStored (opened : Bool) (asked : List Rec) (w : Writer Db) : Type 0 where
    pub table_eq : fx.table w.db ≡ store_all sql fx opened asked (fx.table base)
    pub pushed_eq : w.pushed ≡ length asked
    pub written_eq : opened ≡ true → w.written ≡ length asked

  still :
      (opened : Bool) (ms : List Move) (w : Writer Db)
      → run sql ms (start opened base) ≡ some w
      → w.opened ≡ opened
  unfolding start
  still opened ms w r = run-opened sql ms (start opened base) w r

  flush_returns :
      (opened : Bool) (asked : List Rec) (w w' : Writer Db) (b : Bool)
      → w.opened ≡ opened
      → w.producer ≡ awaiting b
      → await_flush b w ≡ some w'
      → Reached sql fx base asked w
      → AllStored opened asked w'
  unfolding await_flush
  flush_returns opened asked w w' b o e q (done, n, ring, v) = ground (arith, append-nil done)

  stop_returns :
      (opened : Bool) (asked : List Rec) (w w' : Writer Db)
      → w.opened ≡ opened
      → w.producer ≡ joining
      → join w ≡ some w'
      → Reached sql fx base asked w
      → AllStored opened asked w'
  unfolding join
  stop_returns opened asked w w' o e q (done, n, ring, v) = ground (arith, append-nil done)

  -- Along any interleaving of the two threads, where only data records are pushed and no call of SQLite
  -- fails: when the semaphore wait of a flush returns, the table is the old one with every record that was handed over stored in
  -- order, if the writer has its database, and the old one if not; the counters agree.
  pub flush-AllStored :
      (opened b : Bool) (ms : List Move) (w w' : Writer Db)
      → AllData (asked_by sql ms (start opened base))
      → run sql ms (start opened base) ≡ some w
      → w.producer ≡ awaiting b
      → produce_at w.producer w ≡ some w'
      → AllStored opened (asked_by sql ms (start opened base)) w'
  unfolding produce_at
  flush-AllStored opened b ms w w' d r e q =
      flush_returns opened _ w w' b (still opened ms w r) e
        (subst (λ p. produce_at p w ≡ some w') e q) (start-Reached sql fx base opened ms w d r)

  -- Along any interleaving of the two threads, where only data records are pushed and no call of SQLite
  -- fails: when `jwriter_stop` has joined the writer thread, the table is the old one with every record that was handed over stored
  -- in order, if the writer has its database, and the old one if not; the counters agree, and the writer
  -- is not running.
  pub stop-AllStored :
      (opened : Bool) (ms : List Move) (w w' : Writer Db)
      → AllData (asked_by sql ms (start opened base))
      → run sql ms (start opened base) ≡ some w
      → w.producer ≡ joining
      → produce_at w.producer w ≡ some w'
      → AllStored opened (asked_by sql ms (start opened base)) w' × (w'.running ≡ false)
  unfolding produce_at
  stop-AllStored opened ms w w' d r e q = (
    stop_returns opened _ w w' (still opened ms w r) e (subst (λ p. produce_at p w ≡ some w') e q)
        (start-Reached sql fx base opened ms w d r),
    stopped w w' (subst (λ p. produce_at p w ≡ some w') e q),
  )
    where
      stopped : (w w' : Writer Db) → join w ≡ some w' → w'.running ≡ false
      stopped w w' q = ground arith

  -- Along any interleaving of the two threads, where only data records are pushed and no call of SQLite
  -- fails: while the writer thread holds no claimed record, the table that it sees has stored the first records handed over, in
  -- order, and at most the ring and one record are behind.
  pub committed_prefix :
      (opened : Bool) (ms : List Move) (w : Writer Db)
      → AllData (asked_by sql ms (start opened base))
      → run sql ms (start opened base) ≡ some w
      → claimed w.consumer ≡ 0
      → (done : List Rec) × (later : List Rec) × (asked_by sql ms (start opened base)
          ≡ done ++ later)
        × (view sql fx w.consumer opened w.db ≡ store_all sql fx opened done (fx.table base))
        × (length later ≤ jw_cap + 1)
  committed_prefix opened ms w d r e =
      let (done, n, ring, v) = start-Reached sql fx base opened ms w d r in
      (
        done,
        data_of ring ++ in_hand w.producer,
        v.asked_eq,
        subst (λ o. view sql fx w.consumer o w.db ≡ store_all sql fx o done (fx.table base))
            (still opened ms w r) v.seen,
        omega (
          arith,
          v.space_eq,
          length-append (data_of ring) (in_hand w.producer),
          length-data_of ring,
          length-in_hand w.producer,
        ),
      )

module _ {Db : Type 0} (sql : Sqlite Db) (base : Db) where
  -- Whatever SQLite does, where the writer has no database a flush returns with the database unchanged, and
  -- the records handed over are counted as pushed.
  pub unopened_loses_all :
      (b : Bool) (ms : List Move) (w w' : Writer Db)
      → AllData (asked_by sql ms (start false base))
      → run sql ms (start false base) ≡ some w
      → w.producer ≡ awaiting b
      → produce_at w.producer w ≡ some w'
      → (w'.db ≡ base) × (w'.pushed ≡ length (asked_by sql ms (start false base)))
  unfolding start
  unopened_loses_all b ms w w' d r e q = (
    produce-db w.producer w w' q ∙ run-db sql ms (start false base) w refl r,
    (flush-AllStored sql (no_view sql) base false b ms w w' d r e q).pushed_eq,
  )

-- What is committed stays as it is at every call: no transaction begins, or none is committed.
pub record Refuses {Db Table : Type 0} (sql : Sqlite Db) (table : Db → Table) : Type 0 where
  pub at_begin : (d : Db) → table (sql.exec_begin d) ≡ table d
  pub at_insert : (r : Rec) (d : Db) → table (sql.step_insert r d) ≡ table d
  pub at_update : (r : Rec) (d : Db) → table (sql.step_update r d) ≡ table d
  pub at_commit : (d : Db) → table (sql.exec_commit d) ≡ table d

module _ {Db Table : Type 0} (sql : Sqlite Db) (table : Db → Table) (no : Refuses sql table) where
  -- Nothing that the transaction does is seen.
  abbrev unseen : Effects sql Table
  unseen = record {
    table = table;
    txn = table;
    insert_row = λ r t. t;
    stamp_row = λ r t. t;
    begin_table = no.at_begin;
    begin_txn = no.at_begin;
    insert_txn = no.at_insert;
    update_txn = no.at_update;
    commit_table = no.at_commit;
  }

  row-unseen : (k : Kind) (r : Rec) (t : Table) → apply sql unseen k r t ≡ t
  row-unseen insert r t = refl
  row-unseen processed r t = refl
  row-unseen flush r t = refl
  row-unseen stop r t = refl

  store_all-unseen : (rs : List Rec) (t : Table) → store_all sql unseen true rs t ≡ t
  store_all-unseen [] t = refl
  store_all-unseen (r ∷ rs) t =
      ap (store_all sql unseen true rs) (row-unseen r.kind r t) ∙ store_all-unseen rs t

  -- Where SQLite leaves what is committed as it is, as a `COMMIT` that fails does, a flush returns all the
  -- same: nothing new is committed, and the records handed over are counted as written.
  pub refused_loses_all :
      (base : Db) (b : Bool) (ms : List Move) (w w' : Writer Db)
      → AllData (asked_by sql ms (start true base))
      → run sql ms (start true base) ≡ some w
      → w.producer ≡ awaiting b
      → produce_at w.producer w ≡ some w'
      → (table w'.db ≡ table base) × (w'.written ≡ length (asked_by sql ms (start true base)))
  refused_loses_all base b ms w w' d r e q =
      let s = flush-AllStored sql unseen base true b ms w w' d r e q in
      (
        s.table_eq ∙ store_all-unseen (asked_by sql ms (start true base)) (table base),
        s.written_eq refl,
      )
