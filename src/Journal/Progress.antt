-- ===== src/Journal/Progress.antt =====
-- src/jwriter.c: the two threads never block each other.
use native.Mathlib.Decide.{ℕ_discrete}
use boggart.Base.{
  ℕ, zero, suc, ◌-◌, ◌<◌, ◌≡◌, ◌≢◌, refl, subst, ◌⊎◌, inl, inr, List, [], ◌∷◌, some, Bool, true,
  false, arith, Bool-cases, if◌then◌else◌,
}
use boggart.Journal.State.{
  After, joins, control, stop, Rec, Sqlite, Writer, start, Producer, idle, entering, stalled,
  holding, posting, awaiting, joining, Consumer, waiting, gathering, working, acking, ended,
}
use boggart.Journal.Step.{
  Move, produce, consume, run, step, produce_at, consume_at, try_reserve, reserve, fill, post,
  await_flush, join, claim, gather, commit, ack, write_one,
}
use boggart.Journal.Inv.{Inv, no_view, AllData, Tidy, phase, is_ended, flushing, stopping}
use boggart.Journal.Run.{asked_by, start-Reached}

module _ {Db : Type 0} (sql : Sqlite Db) where
  abbrev pub CanStep : Move → Writer Db → Type 0
  CanStep m w = (w' : Writer Db) × (step sql m w ≡ some w')

  consumer_steps :
      (c : Consumer) (w : Writer Db)
      → (c ≡ waiting → 0 < w.items)
      → c ≢ ended
      → (w' : Writer Db) × (consume_at sql c w ≡ some w')
  unfolding consume_at claim
  consumer_steps waiting w h ne =
      (record w { items = w.items - 1; consumer = gathering 1 }, ground (arith, h refl))
  consumer_steps (gathering n) w h ne = (gather sql n w, refl)
  consumer_steps (working zero s f) w h ne = (commit sql s f w, refl)
  consumer_steps (working (suc n) s f) w h ne = (write_one sql n s f w, refl)
  consumer_steps (acking s f) w h ne = (ack s f w, refl)
  consumer_steps ended w h ne = absurd (ne refl)

  module _ (base : Db) where
    -- A producer that waits leaves the writer thread something to do.
    stalled_live :
        (asked done : List Rec) (n : ℕ) (ring : List Rec) (w : Writer Db) (r : Rec) (a : After)
        → w.producer ≡ stalled r a
        → w.space ≡ 0
        → Inv sql (no_view sql) base asked done n ring w
        → (w.consumer ≡ waiting → 0 < w.items) × (w.consumer ≢ ended)
    stalled_live asked done n ring w r a e z v = ground arith

    awaiting_live :
        (asked done : List Rec) (n : ℕ) (ring : List Rec) (w : Writer Db) (b : Bool)
        → w.producer ≡ awaiting b
        → w.flush_done ≡ 0
        → Inv sql (no_view sql) base asked done n ring w
        → Tidy flushing ring w.consumer w.flush_done
        → (w.consumer ≡ waiting → 0 < w.items) × (w.consumer ≢ ended)
    awaiting_live asked done n [] w b e z v t = ground arith
    awaiting_live asked done n (r ∷ rs) w b e z v t = ground arith

    joining_live :
        (asked done : List Rec) (n : ℕ) (ring : List Rec) (w : Writer Db)
        → w.producer ≡ joining
        → w.consumer ≢ ended
        → Inv sql (no_view sql) base asked done n ring w
        → Tidy stopping ring w.consumer w.flush_done
        → (w.consumer ≡ waiting → 0 < w.items) × (w.consumer ≢ ended)
    joining_live asked done n [] w e ne v t = ground arith
    joining_live asked done n (r ∷ rs) w e ne v t = ground arith

    moves_at :
        (asked done : List Rec) (n : ℕ) (ring : List Rec) (w : Writer Db) (p : Producer)
        → w.producer ≡ p
        → Inv sql (no_view sql) base asked done n ring w
        → (p ≡ idle)
          ⊎ ((w' : Writer Db) × (produce_at p w ≡ some w'))
          ⊎ ((w' : Writer Db) × (consume_at sql w.consumer w ≡ some w'))
    unfolding produce_at
    moves_at asked done n ring w idle e v = inl refl
    moves_at asked done n ring w (entering r a) e v = inr (inl (try_reserve r a w, refl))
    moves_at asked done n ring w (stalled r a) e v = elim (ℕ_discrete w.space 0) [
      | yes z ↦
          let (h, ne) = stalled_live asked done n ring w r a e z v in
          inr (inr (consumer_steps w.consumer w h ne))
      | no z ↦ inr (inl (reserved r a w z))
    ]
      where
        reserved :
            (r : Rec) (a : After) (w : Writer Db)
            → w.space ≢ 0
            → (w' : Writer Db) × (reserve r a w ≡ some w')
        reserved r a w z = (record w { space = w.space - 1; producer = holding r a }, ground arith)
    moves_at asked done n ring w (holding r a) e v = inr (inl (fill r a w, refl))
    moves_at asked done n ring w (posting r a) e v = inr (inl (post a w, refl))
    moves_at asked done n ring w (awaiting b) e v = elim (ℕ_discrete w.flush_done 0) [
      | yes z ↦
          let t = subst (λ p. Tidy (phase p w.running) ring w.consumer w.flush_done) e v.tidy in
          let (h, ne) = awaiting_live asked done n ring w b e z v t in
          inr (inr (consumer_steps w.consumer w h ne))
      | no z ↦ inr (inl (awaited b w z))
    ]
      where
        awaited :
            (b : Bool) (w : Writer Db)
            → w.flush_done ≢ 0
            → (w' : Writer Db) × (await_flush b w ≡ some w')
        awaited b w z = (
          record w {
            flush_done = w.flush_done - 1;
            producer = if b then entering (control stop) joins else idle;
          },
          ground arith,
        )
    moves_at asked done n ring w joining e v = elim (Bool-cases (is_ended w.consumer)) [
      | inl z ↦ inr (inl (joined w z))
      | inr z ↦
          let t = subst (λ p. Tidy (phase p w.running) ring w.consumer w.flush_done) e v.tidy in
          let (h, ne) = joining_live asked done n ring w e (λ q. open_end w q z) v t in
          inr (inr (consumer_steps w.consumer w h ne))
    ]
      where
        joined :
            (w : Writer Db) → is_ended w.consumer ≡ true → (w' : Writer Db) × (join w ≡ some w')
        joined w z = (record w { running = false; producer = idle }, ground arith)

        open_end : (w : Writer Db) → w.consumer ≡ ended → is_ended w.consumer ≡ false → ⊥
        open_end w q z = ground arith

    -- From any state that the two threads reach, where only data records are pushed, one of the threads
    -- can go on, unless the Lua thread is not inside a call.
    pub never_blocked :
        (opened : Bool) (ms : List Move) (w : Writer Db)
        → AllData (asked_by sql ms (start opened base))
        → run sql ms (start opened base) ≡ some w
        → (w.producer ≡ idle) ⊎ CanStep produce w ⊎ CanStep consume w
    unfolding step
    never_blocked opened ms w d r =
        let (done, n, ring, v) = start-Reached sql (no_view sql) base opened ms w d r in
        moves_at _ done n ring w w.producer refl v
