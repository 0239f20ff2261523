-- ===== src/Views/Life/Worker.antt =====
-- src/lview.c: the background job ends, with the whole index, where allocations succeed.
use boggart.Base.{
  ℕ, zero, suc, ◌+◌, ◌≤◌, ◌≡◌, refl, ◌∙◌, sym, ap, subst, ◌++◌, append-nil, length, Bool, true,
  false, Bool-cases, inl, inr, arith,
}
use boggart.Views.Lines.{starts}
use boggart.Views.State.{View}
use boggart.Views.Index.{all_lines, chunk, index_locked}
use boggart.Views.Index.Indexed.{IsIndexed, IsIndexed-IsBeginning}
use boggart.Views.Find.Places.{IsIndexed-full, index_locked-further}
use boggart.Views.Life.{work_done, work_cb}
use boggart.Views.Life.Held.{index_locked-Keeps}

module _ (alloc : ℕ → Bool) (enough : (n : ℕ) → alloc n ≡ true) where
  -- What the loop leaves behind
  abbrev Worked : View → View × Bool → Type 0
  Worked st r =
      (r.1 ≡ true)
      × IsIndexed r.0
      × (r.0.base ≡ st.base)
      × (r.0.closing ≡ st.closing)
      × (work_done r.0 ≡ true)

  work_cb-over : (fuel : ℕ) (st : View) → work_done st ≡ true → work_cb alloc fuel st ≡ (st, true)
  unfolding work_cb
  work_cb-over zero st e = ap (λ b. (st, b)) e
  work_cb-over (suc fuel) st e = rw (e, work_cb) refl

  work_cb-Worked :
      (fuel : ℕ) (st : View)
      → IsIndexed st
      → length st.base ≤ all_lines
      → length st.base ≤ st.scanned + fuel
      → Worked st (work_cb alloc fuel st)
  unfolding work_cb
  work_cb-Worked zero st i n f =
      let d : work_done st ≡ true = ground (arith, IsIndexed-full st i (omega arith)) in
      (d, i, refl, refl, d)
  work_cb-Worked (suc fuel) st i n f = elim (Bool-cases (work_done st)) [
    | inl t ↦ rw (t, work_cb) (refl, i, refl, refl, t)
    | inr t ↦
        let next = index_locked alloc all_lines chunk st in
        let (ok, b, w) = index_locked-further alloc enough st i n in
        let (a, c, d) = index_locked-Keeps alloc all_lines chunk st in
        let room = ap length b in
        let done : Worked next (work_cb alloc fuel next) = elim w [
          | inl e ↦
              let over : work_done next ≡ true = ground (arith, e) in
              subst (Worked next) (sym (work_cb-over fuel next over)) (refl, ok, refl, refl, over)
          | inr e ↦ work_cb-Worked fuel next ok (omega arith) (omega arith)
        ] in
        rw (t, work_cb) (done.0, done.1, done.2 ∙ b, done.3 ∙ d, done.4)
  ]

  -- Where allocations succeed: from any state between the calls, of a file that a size_t can count, the loop of
  -- the background job ends within as many rounds as there are bytes, and if the view was not closed then its
  -- index is complete and has the start of every line.
  pub work_cb-ends :
      (st : View)
      → IsIndexed st
      → length st.base ≤ all_lines
      → (let r = work_cb alloc (length st.base) st in
          (r.1 ≡ true) × (st.closing ≡ false → (r.0.complete ≡ true) × (r.0.offs ≡ starts st.base)))
  work_cb-ends st i n =
      let (ends, ok, b, c, d) = work_cb-Worked (length st.base) st i n (omega arith) in
      (ends, λ o. whole (work_cb alloc (length st.base) st).0 ok b (ground (arith, c, o, d)))
    where
      whole :
          (r : View)
          → IsIndexed r
          → r.base ≡ st.base
          → r.complete ≡ true
          → (r.complete ≡ true) × (r.offs ≡ starts st.base)
      whole r ok b done =
          let (rest, e, none_left, some_left) = IsIndexed-IsBeginning r ok in
          (
            done,
            sym (append-nil r.offs)
                ∙ sym (e ∙ ap (λ x. r.offs ++ x) (none_left done))
                ∙ ap starts b,
          )
