-- ===== src/Journal/Consume.antt =====
-- The steps of the writer thread of src/jwriter.c keep the invariant.
use mathlib.Core.Option.{some-injective}
use boggart.Base.{
  ℕ, zero, suc, ◌≡◌, ◌∙◌, ap, sym, subst, List, [], ◌∷◌, ◌++◌, some, Bool, ◌||◌, get_or,
  length-append, append_assoc, append-nil, arith,
}
use boggart.Journal.State.{
  Rec, blank, Consumer, waiting, gathering, working, acking, ended, Sqlite, Writer, slot_of,
}
use boggart.Journal.Step.{
  claim, gather, begin, commit, ack, write_one, consume_at, is_stop, is_flush,
}
use boggart.Journal.Inv.{
  Inv, Effects, data_of, data_part, Tidy, Phase, calm, flushing, stopping, over, phase, store_all,
  store_row, view, in_hand,
}
use boggart.Journal.Ring.{slot_of-mod, store_all-snoc, store-seen}

module _ {Db Table : Type 0} (sql : Sqlite Db) (fx : Effects sql Table) (base : Db) where
  claim-Inv :
      (asked done : List Rec) (n : ℕ) (ring : List Rec) (w w' : Writer Db)
      → w.consumer ≡ waiting
      → claim w ≡ some w'
      → Inv sql fx base asked done n ring w
      → Inv sql fx base asked done n ring w'
  unfolding claim
  claim-Inv asked done n ring w w' e q v = ground arith

  gather-Inv :
      (asked done : List Rec) (n : ℕ) (ring : List Rec) (k : ℕ) (w : Writer Db)
      → w.consumer ≡ gathering k
      → Inv sql fx base asked done n ring w
      → Inv sql fx base asked done n ring (gather sql k w)
  unfolding gather begin
  gather-Inv asked done n ring k w e v = ground (arith, fx.begin_txn w.db)

  commit-Inv :
      (asked done : List Rec) (n : ℕ) (ring : List Rec) (s f : Bool) (w : Writer Db)
      → w.consumer ≡ working 0 s f
      → Inv sql fx base asked done n ring w
      → Inv sql fx base asked done n ring (commit sql s f w)
  unfolding commit
  commit-Inv asked done n ring s f w e v = ground (arith, fx.commit_table w.db)

  ack-Inv :
      (asked done : List Rec) (n : ℕ) (ring : List Rec) (s f : Bool) (w : Writer Db)
      → w.consumer ≡ acking s f
      → Inv sql fx base asked done n ring w
      → Inv sql fx base asked done n ring (ack s f w)
  unfolding ack
  ack-Inv asked done n ring s f w e v = ground arith

-- Where the control record goes when the oldest record is taken out.
write-Tidy :
    (p : Phase) (r : Rec) (rs : List Rec) (left : ℕ) (s f : Bool) (d : ℕ)
    → Tidy p (r ∷ rs) (working (suc left) s f) d
    → Tidy p rs (working left (s || is_stop r.kind) (f || is_flush r.kind)) d
write-Tidy calm r rs left s f d t = ground arith
write-Tidy flushing r [] left s f d t = ground arith
write-Tidy flushing r (x ∷ rs) left s f d t = ground arith
write-Tidy stopping r [] left s f d t = ground arith
write-Tidy stopping r (x ∷ rs) left s f d t = ground arith
write-Tidy over r rs left s f d t = ground arith

store_all-data :
    {Db Table : Type 0} (sql : Sqlite Db) (fx : Effects sql Table) (opened : Bool) (done : List Rec)
    (r : Rec) (t : Table)
    → store_all sql fx opened (done ++ data_part r.kind r) t
      ≡ store_row sql fx opened r (store_all sql fx opened done t)
store_all-data sql fx opened done r t =
    ground (arith, store_all-snoc sql fx opened done r t, append-nil done)

module _ {Db Table : Type 0} (sql : Sqlite Db) (fx : Effects sql Table) (base : Db) where
  write_one-Inv :
      (asked done : List Rec) (n : ℕ) (r : Rec) (rs : List Rec) (left : ℕ) (s f : Bool)
      (w : Writer Db)
      → w.consumer ≡ working (suc left) s f
      → Inv sql fx base asked done n (r ∷ rs) w
      → get_or w.slots (slot_of w.tail) blank ≡ r
      → Inv sql fx base asked (done ++ data_part r.kind r) (suc n) rs (write_one sql left s f w)
  unfolding write_one
  write_one-Inv asked done n r rs left s f w e v got = record {
    asked_eq =
        v.asked_eq
        ∙ ground (
          arith,
          append_assoc (data_part r.kind r) (data_of rs) (in_hand w.producer),
          append_assoc done (data_part r.kind r) (data_of rs ++ in_hand w.producer),
        );
    head_eq = ground arith;
    tail_eq = ground arith;
    slots_len = v.slots_len;
    holds = v.holds.1;
    space_eq = ground arith;
    items_eq = ground arith;
    seen = rw got (
        store-seen sql fx w.opened r w.db
        ∙ ap (store_row sql fx w.opened r) (
            subst
              (λ c. view sql fx c w.opened w.db ≡ store_all sql fx w.opened done (fx.table base)) e
              v.seen)
        ∙ sym (store_all-data sql fx w.opened done r (fx.table base)));
    pushed_eq = ground (
      arith,
      length-append done (data_part r.kind r),
      length-append (data_part r.kind r) (data_of rs),
    );
    written_eq = ground (arith, length-append done (data_part r.kind r));
    ready = v.ready;
    tidy = rw got (
        write-Tidy (phase w.producer w.running) r rs left s f w.flush_done
          (subst (λ c. Tidy (phase w.producer w.running) (r ∷ rs) c w.flush_done) e v.tidy));
    up = v.up;
  }

  no_claim :
      (asked done : List Rec) (n left : ℕ) (s f : Bool) (w : Writer Db)
      → w.consumer ≡ working (suc left) s f
      → ¬ Inv sql fx base asked done n [] w
  no_claim asked done n left s f w e v = ground arith

  -- A step of the writer thread, with what is done and in the ring after it.
  pub consume-Inv :
      (asked done : List Rec) (n : ℕ) (ring : List Rec) (c : Consumer) (w w' : Writer Db)
      → w.consumer ≡ c
      → consume_at sql c w ≡ some w'
      → Inv sql fx base asked done n ring w
      → (done' : List Rec) × (n' : ℕ) × (ring' : List Rec) × Inv sql fx base asked done' n' ring' w'
  unfolding consume_at
  consume-Inv asked done n ring waiting w w' e q v =
      (done, n, ring, claim-Inv sql fx base asked done n ring w w' e q v)
  consume-Inv asked done n ring (gathering k) w w' e q v = (
    done,
    n,
    ring,
    subst (Inv sql fx base asked done n ring) (some-injective _ _ q)
        (gather-Inv sql fx base asked done n ring k w e v),
  )
  consume-Inv asked done n ring (working zero s f) w w' e q v = (
    done,
    n,
    ring,
    subst (Inv sql fx base asked done n ring) (some-injective _ _ q)
        (commit-Inv sql fx base asked done n ring s f w e v),
  )
  consume-Inv asked done n [] (working (suc left) s f) w w' e q v =
      absurd (no_claim asked done n left s f w e v)
  consume-Inv asked done n (r ∷ rs) (working (suc left) s f) w w' e q v = (
    done ++ data_part r.kind r,
    suc n,
    rs,
    subst (Inv sql fx base asked (done ++ data_part r.kind r) (suc n) rs) (some-injective _ _ q) (
        write_one-Inv asked done n r rs left s f w e v (
          ap (λ (k : ℕ). get_or w.slots k blank) (ap slot_of v.tail_eq ∙ slot_of-mod n)
          ∙ v.holds.0)),
  )
  consume-Inv asked done n ring (acking s f) w w' e q v = (
    done,
    n,
    ring,
    subst (Inv sql fx base asked done n ring) (some-injective _ _ q)
        (ack-Inv sql fx base asked done n ring s f w e v),
  )
  consume-Inv asked done n ring ended w w' e q v = cc
