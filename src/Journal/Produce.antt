-- ===== src/Journal/Produce.antt =====
-- The steps of the Lua thread of src/jwriter.c keep the invariant.
use mathlib.Core.Option.{some-injective}
use boggart.Base.{
  ℕ, ◌+◌, ◌≡◌, ◌∙◌, ap, sym, subst, List, [], ◌∷◌, ◌++◌, some, Bool, true, length, set, inl,
  length-append, length-set, append_assoc, append-nil, arith,
}
use boggart.Journal.State.{
  flush, stop, Rec, After, returns, awaits, joins, Producer, idle, entering, stalled, holding,
  posting, awaiting, joining, Consumer, Sqlite, Writer, slot_of,
}
use boggart.Journal.Step.{
  Call, push, flushes, stops, issue, call, try_reserve, reserve, fill, post, await_flush, join,
  produce_at,
}
use boggart.Journal.Inv.{
  Inv, Effects, Holds, data_of, data_part, AllData, Tidy, phase, Suits, Ready, asks,
}
use boggart.Journal.Ring.{slot_of-mod, Holds-fill, data_of-snoc, AllData-snoc, Closes-snoc}

module _ {Db Table : Type 0} (sql : Sqlite Db) (fx : Effects sql Table) (base : Db) where
  try_reserve-Inv :
      (asked done : List Rec) (n : ℕ) (ring : List Rec) (r : Rec) (a : After) (w : Writer Db)
      → w.producer ≡ entering r a
      → Inv sql fx base asked done n ring w
      → Inv sql fx base asked done n ring (try_reserve r a w)
  unfolding try_reserve
  try_reserve-Inv asked done n ring r a w e v = ground arith

  reserve-Inv :
      (asked done : List Rec) (n : ℕ) (ring : List Rec) (r : Rec) (a : After) (w w' : Writer Db)
      → w.producer ≡ stalled r a
      → reserve r a w ≡ some w'
      → Inv sql fx base asked done n ring w
      → Inv sql fx base asked done n ring w'
  unfolding reserve
  reserve-Inv asked done n ring r a w w' e q v = ground arith

  post-Inv :
      (asked done : List Rec) (n : ℕ) (ring : List Rec) (r : Rec) (a : After) (w : Writer Db)
      → w.producer ≡ posting r a
      → Inv sql fx base asked done n ring w
      → Inv sql fx base asked done n ring (post a w)
  unfolding post
  post-Inv asked done n ring r returns w e v = ground arith
  post-Inv asked done n ring r (awaits b) w e v = ground arith
  post-Inv asked done n ring r joins w e v = ground arith

  await_flush-Inv :
      (asked done : List Rec) (n : ℕ) (ring : List Rec) (b : Bool) (w w' : Writer Db)
      → w.producer ≡ awaiting b
      → await_flush b w ≡ some w'
      → Inv sql fx base asked done n ring w
      → Inv sql fx base asked done n ring w'
  unfolding await_flush
  await_flush-Inv asked done n ring b w w' e q v = ground arith

  join-Inv :
      (asked done : List Rec) (n : ℕ) (ring : List Rec) (w w' : Writer Db)
      → w.producer ≡ joining
      → join w ≡ some w'
      → Inv sql fx base asked done n ring w
      → Inv sql fx base asked done n ring w'
  unfolding join
  join-Inv asked done n ring w w' e q v = ground arith

  -- What is filled in is the window with one record more.
  fill-Tidy :
      (ring : List Rec) (r : Rec) (a : After) (c : Consumer) (done : ℕ)
      → Suits r a
      → Tidy (phase (holding r a) true) ring c done
      → Tidy (phase (posting r a) true) (ring ++ (r ∷ [])) c done
  fill-Tidy ring r returns c done s (d, q, z) = (AllData-snoc ring r d s, q, z)
  fill-Tidy ring r (awaits b) c done s (d, q, z) = inl (Closes-snoc ring r flush d s, q, z)
  fill-Tidy ring r joins c done s (d, q, z) = inl (Closes-snoc ring r stop d s, q, z)

  fill-Inv :
      (asked done : List Rec) (n : ℕ) (ring : List Rec) (r : Rec) (a : After) (w : Writer Db)
      → w.producer ≡ holding r a
      → Inv sql fx base asked done n ring w
      → Inv sql fx base asked done n (ring ++ (r ∷ [])) (fill r a w)
  unfolding fill
  fill-Inv asked done n ring r a w e v = record {
    asked_eq = ground (arith, data_of-snoc ring r, append-nil (data_of ring ++ data_part r.kind r));
    head_eq = ground (arith, length-append ring (r ∷ []));
    tail_eq = v.tail_eq;
    slots_len = length-set w.slots (slot_of w.head) r ∙ v.slots_len;
    holds =
        subst (λ k. Holds (set w.slots k r) n (ring ++ (r ∷ [])))
          (sym (ap slot_of v.head_eq ∙ slot_of-mod (n + length ring)))
          (Holds-fill w.slots n ring r v.slots_len (ground arith) v.holds);
    space_eq = ground (arith, length-append ring (r ∷ []));
    items_eq = ground (arith, length-append ring (r ∷ []));
    seen = v.seen;
    pushed_eq =
        ground (
          arith,
          ap length (data_of-snoc ring r),
          length-append (data_of ring) (data_part r.kind r),
        );
    written_eq = v.written_eq;
    ready = tt;
    tidy =
        fill-Tidy ring r a w.consumer w.flush_done (subst Ready e v.ready)
          (subst (λ p. Tidy (phase p w.running) ring w.consumer w.flush_done) e v.tidy);
    up = ground arith;
  }

  pub call-Inv :
      (asked done : List Rec) (n : ℕ) (ring : List Rec) (c : Call) (w w' : Writer Db)
      → AllData (asks (issue c) w)
      → call c w ≡ some w'
      → Inv sql fx base asked done n ring w
      → Inv sql fx base (asked ++ asks (issue c) w) done n ring w'
  unfolding call asks
  call-Inv asked done n ring (push r) w w' d q v = ground (
    arith,
    append-nil asked,
    append-nil (data_of ring),
    append_assoc done (data_of ring) (r ∷ []),
    append_assoc done (data_of ring ++ []) (r ∷ []),
  )
  call-Inv asked done n ring flushes w w' d q v = ground (arith, append-nil asked)
  call-Inv asked done n ring stops w w' d q v = ground (arith, append-nil asked)

  -- A step of the Lua thread, with the records that it puts into the ring.
  pub produce-Inv :
      (asked done : List Rec) (n : ℕ) (ring : List Rec) (p : Producer) (w w' : Writer Db)
      → w.producer ≡ p
      → produce_at p w ≡ some w'
      → Inv sql fx base asked done n ring w
      → (ring' : List Rec) × Inv sql fx base asked done n ring' w'
  unfolding produce_at
  produce-Inv asked done n ring idle w w' e q v = cc
  produce-Inv asked done n ring (entering r a) w w' e q v = (
    ring,
    subst (Inv sql fx base asked done n ring) (some-injective _ _ q)
        (try_reserve-Inv asked done n ring r a w e v),
  )
  produce-Inv asked done n ring (stalled r a) w w' e q v =
      (ring, reserve-Inv asked done n ring r a w w' e q v)
  produce-Inv asked done n ring (holding r a) w w' e q v = (
    ring ++ (r ∷ []),
    subst (Inv sql fx base asked done n (ring ++ (r ∷ []))) (some-injective _ _ q)
        (fill-Inv asked done n ring r a w e v),
  )
  produce-Inv asked done n ring (posting r a) w w' e q v = (
    ring,
    subst (Inv sql fx base asked done n ring) (some-injective _ _ q)
        (post-Inv asked done n ring r a w e v),
  )
  produce-Inv asked done n ring (awaiting b) w w' e q v =
      (ring, await_flush-Inv asked done n ring b w w' e q v)
  produce-Inv asked done n ring joining w w' e q v = (ring, join-Inv asked done n ring w w' e q v)
