-- ===== src/Journal/Run.antt =====
-- Every interleaving of the two threads of src/jwriter.c, from the start of the writer.
use mathlib.Core.Option.{some-injective}
use boggart.Base.{
  ℕ, ◌≡◌, ◌≢◌, refl, ◌∙◌, sym, ap, subst, inl, inr, List, [], ◌∷◌, ◌++◌, none, some, Bool,
  length-replicate, append_assoc, append-nil, arith, Option-cases,
}
use boggart.Journal.State.{Rec, jw_cap, blank, Sqlite, Writer, start}
use boggart.Journal.Step.{Move, issue, produce, consume, step, run}
use boggart.Journal.Inv.{Effects, Inv, AllData, asks}
use boggart.Journal.Produce.{call-Inv, produce-Inv}
use boggart.Journal.Consume.{consume-Inv}

module _ {Db : Type 0} (sql : Sqlite Db) where
  -- What the program hands over along a schedule, in order.
  unfoldable pub asked_by : List Move → Writer Db → List Rec
  asked_by [] w = []
  asked_by (m ∷ ms) w = asks m w ++ elim (step sql m w) [ none ↦ [] | some v ↦ asked_by ms v ]

  asked_by-step :
      (ms : List Move) (m : Move) (w u : Writer Db)
      → step sql m w ≡ some u
      → asked_by (m ∷ ms) w ≡ asks m w ++ asked_by ms u
  unfolding asked_by
  asked_by-step ms m w u e = rw e

  pub run-step :
      (ms : List Move) (m : Move) (w u : Writer Db)
      → step sql m w ≡ some u
      → run sql (m ∷ ms) w ≡ run sql ms u
  unfolding run
  run-step ms m w u e = rw (e, run)

  pub stuck :
      (ms : List Move) (m : Move) (w' w : Writer Db)
      → step sql m w ≡ none
      → run sql (m ∷ ms) w ≢ some w'
  unfolding run
  stuck ms m w' w e q = ground arith

  module _ {Table : Type 0} (fx : Effects sql Table) (base : Db) where
    start-Inv : (opened : Bool) → Inv sql fx base [] [] 0 [] (start opened base)
    unfolding start
    start-Inv opened = record {
      asked_eq = refl;
      head_eq = refl;
      tail_eq = refl;
      slots_len = length-replicate jw_cap blank;
      holds = tt;
      space_eq = refl;
      items_eq = refl;
      seen = refl;
      pushed_eq = refl;
      written_eq = λ e. refl;
      ready = tt;
      tidy = (tt, (refl, refl, refl), refl);
      up = inl refl;
    }

    -- What the two threads have come to, when this much has been handed over.
    abbrev pub Reached : List Rec → Writer Db → Type 0
    Reached asked w =
        (done : List Rec) × (n : ℕ) × (ring : List Rec) × Inv sql fx base asked done n ring w

    step-Reached :
        (m : Move) (asked : List Rec) (w w' : Writer Db)
        → AllData (asks m w)
        → step sql m w ≡ some w'
        → Reached asked w
        → Reached (asked ++ asks m w) w'
    unfolding step asks
    step-Reached (issue c) asked w w' d q (done, n, ring, v) =
        (done, n, ring, call-Inv sql fx base asked done n ring c w w' d q v)
    step-Reached produce asked w w' d q (done, n, ring, v) =
        let (ring', v') = produce-Inv sql fx base asked done n ring w.producer w w' refl q v in
        rw (append-nil asked) (done, n, ring', v')
    step-Reached consume asked w w' d q (done, n, ring, v) =
        rw (append-nil asked) (consume-Inv sql fx base asked done n ring w.consumer w w' refl q v)

    AllData-append : (xs ys : List Rec) → AllData (xs ++ ys) → AllData xs × AllData ys
    AllData-append [] ys h = (tt, h)
    AllData-append (x ∷ xs) ys h = let (a, b) = AllData-append xs ys h.1 in ((h.0, a), b)

    run-Reached :
        (ms : List Move) (asked : List Rec) (w w' : Writer Db)
        → AllData (asked_by ms w)
        → run sql ms w ≡ some w'
        → Reached asked w
        → Reached (asked ++ asked_by ms w) w'
    unfolding run asked_by
    run-Reached [] asked w w' d q r =
        rw (append-nil asked) (subst (Reached asked) (some-injective _ _ q) r)
    run-Reached (m ∷ ms) asked w w' d q r = elim (Option-cases (step sql m w)) [
      | inl e ↦ absurd (stuck ms m w' w e q)
      | inr (u, e) ↦
          let a = asked_by-step ms m w u e in
          let d' = AllData-append (asks m w) (asked_by ms u) (subst AllData a d) in
          let r' = step-Reached m asked w u d'.0 e r in
          let r'' =
            run-Reached ms (asked ++ asks m w) u w' d'.1 (sym (run-step ms m w u e) ∙ q) r' in
          subst (λ x. Reached x w')
            (append_assoc asked (asks m w) (asked_by ms u) ∙ ap (◌++◌ asked) (sym a)) r''
    ]

    pub start-Reached :
        (opened : Bool) (ms : List Move) (w : Writer Db)
        → AllData (asked_by ms (start opened base))
        → run sql ms (start opened base) ≡ some w
        → Reached (asked_by ms (start opened base)) w
    start-Reached opened ms w d q =
        run-Reached ms [] (start opened base) w d q ([], 0, [], start-Inv opened)
