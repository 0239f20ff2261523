-- ===== src/Journal/Opened.antt =====
-- src/jwriter.c: whether the writer has its database is settled when its thread starts.
use boggart.Base.{
  false, zero, suc, ◌≡◌, ◌∙◌, sym, inl, inr, List, [], ◌∷◌, some, arith, Option-cases,
}
use boggart.Journal.State.{Sqlite, Writer, Producer, idle, awaiting, Consumer, working}
use boggart.Journal.Step.{
  Move, issue, produce, consume, Call, call, step, run, produce_at, consume_at, gather, begin,
  commit, write_one,
}
use boggart.Journal.Run.{run-step, stuck}

module _ {Db : Type 0} where
  produce-opened :
      (p : Producer) (w w' : Writer Db) → produce_at p w ≡ some w' → w'.opened ≡ w.opened
  unfolding produce_at
  produce-opened idle w w' q = cc
  produce-opened (awaiting b) w w' q = ground arith
  produce-opened _ w w' q = ground arith

  pub produce-db : (p : Producer) (w w' : Writer Db) → produce_at p w ≡ some w' → w'.db ≡ w.db
  unfolding produce_at
  produce-db idle w w' q = cc
  produce-db (awaiting b) w w' q = ground arith
  produce-db _ w w' q = ground arith

module _ {Db : Type 0} (sql : Sqlite Db) where
  consume-opened :
      (c : Consumer) (w w' : Writer Db) → consume_at sql c w ≡ some w' → w'.opened ≡ w.opened
  unfolding consume_at
  consume-opened (working zero s f) w w' q = ground arith
  consume-opened (working (suc n) s f) w w' q = ground arith
  consume-opened _ w w' q = ground arith

  step-opened : (m : Move) (w w' : Writer Db) → step sql m w ≡ some w' → w'.opened ≡ w.opened
  unfolding step
  step-opened (issue c) w w' q = call-opened c w w' q
    where
      call-opened : (c : Call) (w w' : Writer Db) → call c w ≡ some w' → w'.opened ≡ w.opened
      call-opened c w w' q = ground arith
  step-opened produce w w' q = produce-opened w.producer w w' q
  step-opened consume w w' q = consume-opened w.consumer w w' q

  consume-db :
      (c : Consumer) (w w' : Writer Db)
      → w.opened ≡ false
      → consume_at sql c w ≡ some w'
      → w'.db ≡ w.db
  unfolding consume_at gather begin commit write_one
  consume-db (working zero s f) w w' o r = ground arith
  consume-db (working (suc n) s f) w w' o r = ground arith
  consume-db _ w w' o r = ground arith

  step-db : (m : Move) (w w' : Writer Db) → w.opened ≡ false → step sql m w ≡ some w' → w'.db ≡ w.db
  unfolding step
  step-db (issue c) w w' o r = call-db c w w' r
    where
      call-db : (c : Call) (w w' : Writer Db) → call c w ≡ some w' → w'.db ≡ w.db
      call-db c w w' r = ground arith
  step-db produce w w' o r = produce-db w.producer w w' r
  step-db consume w w' o r = consume-db w.consumer w w' o r

  -- Without its connection the writer does nothing to the database.
  pub run-db :
      (ms : List Move) (w w' : Writer Db) → w.opened ≡ false → run sql ms w ≡ some w' → w'.db ≡ w.db
  unfolding run
  run-db [] w w' o r = ground arith
  run-db (m ∷ ms) w w' o r = elim (Option-cases (step sql m w)) [
    | inl e ↦ absurd (stuck sql ms m w' w e r)
    | inr (u, e) ↦
        run-db ms u w' (step-opened m w u e ∙ o) (sym (run-step sql ms m w u e) ∙ r)
        ∙ step-db m w u o e
  ]

  pub run-opened :
      (ms : List Move) (w w' : Writer Db) → run sql ms w ≡ some w' → w'.opened ≡ w.opened
  unfolding run
  run-opened [] w w' q = ground arith
  run-opened (m ∷ ms) w w' q = elim (Option-cases (step sql m w)) [
    | inl e ↦ absurd (stuck sql ms m w' w e q)
    | inr (u, e) ↦ run-opened ms u w' (sym (run-step sql ms m w u e) ∙ q) ∙ step-opened m w u e
  ]
