-- ===== src/Views/Index/Calls.antt =====
-- src/lview.c: how far a call of `index_locked` gets, where allocations succeed.
use boggart.Base.{
  ℕ, ◌+◌, ◌*◌, ◌≤◌, ◌<◌, ◌≡◌, refl, ◌∙◌, sym, ap, subst, [], ◌∷◌, length, take, leb, ◌==◌, Bool,
  true, false, Bool-cases, inl, inr, ◌⊎◌, arith,
}
use boggart.Views.Lines.{marks}
use boggart.Views.State.{View}
use boggart.Views.Index.{index_stop, index_scan, index_bytes, index_locked}
use boggart.Views.Index.Marks.{IsFound, scan_lines-IsFound}
use boggart.Views.Index.Indexed.{scan_of, IsFresh, IsBegun, IsIndexed}

index_stop-cases :
    (limit : ℕ) (st : View)
    → st.scanned ≤ length st.base
    → (st.scanned ≤ index_stop limit st)
      × (index_stop limit st ≤ length st.base)
      × ((index_stop limit st ≡ length st.base)
          ⊎ ((0 < limit) × (index_stop limit st ≡ st.scanned + limit)))
unfolding index_stop
index_stop-cases limit st h = ground arith

-- How far a call gets: to the end, to the line wanted, or as far as it may
abbrev pub GetsTo : ℕ → ℕ → View → View → Type 0
GetsTo want limit st r =
    (r.base ≡ st.base)
    × (st.scanned ≤ r.scanned)
    × ((r.complete ≡ true)
        ⊎ ((want < length r.offs) ⊎ ((0 < limit) × (r.scanned ≡ st.scanned + limit))))

module _ (alloc : ℕ → Bool) (enough : (n : ℕ) → alloc n ≡ true) where
  index_bytes-found :
      (want limit : ℕ) (st : View)
      → (let s = index_scan alloc want limit st in
          s.failed ≡ false
          → index_bytes alloc want limit st ≡ record st {
            offs = s.offs;
            cap = s.cap;
            scanned = s.at;
            complete = leb (length st.base) s.at;
          })
  unfolding index_bytes
  index_bytes-found want limit st e = rw (e, index_bytes) refl

  index_bytes-IsBegun :
      (want limit : ℕ) (st : View)
      → 0 < length st.base
      → IsFound st.base (scan_of st)
      → IsBegun (index_bytes alloc want limit st)
        × GetsTo want limit st (index_bytes alloc want limit st)
  index_bytes-IsBegun want limit st h (a, o, g, l, c) =
      let (x, y, z) = index_stop-cases limit st a in
      let ((at, f, ok, room, cap), m, n, w) =
        scan_lines-IsFound alloc enough (length st.base) st.base (index_stop limit st) want
          (scan_of st) (omega arith) x y (a, o, g, l, c) in
      subst (λ r. IsBegun r × GetsTo want limit st r) (sym (index_bytes-found want limit st ok))
        ((h, (at, f, refl, room, cap), refl), (refl, m, ground arith))

  index_locked-fresh :
      (want limit : ℕ) (st : View)
      → 0 < length st.base
      → IsFresh st
      → index_locked alloc want limit st
        ≡ index_bytes alloc want limit (record st { has_offs = true; cap = 1024; offs = 0 ∷ [] })
  unfolding index_locked
  index_locked-fresh want limit st h (o, z, c, e) =
      let q : (length st.base == 0) ≡ false = ground arith in
      let f = e ∙ q in
      let l : length st.offs ≡ 0 = ap length o in rw (f, l, z, q, c, enough (1024 * 8)) refl

  index_locked-complete :
      (want limit : ℕ) (st : View) → st.complete ≡ true → index_locked alloc want limit st ≡ st
  unfolding index_locked
  index_locked-complete want limit st e = rw e refl

  index_locked-begun :
      (want limit : ℕ) (st : View)
      → st.complete ≡ false
      → 0 < length st.offs
      → index_locked alloc want limit st ≡ index_bytes alloc want limit st
  unfolding index_locked
  index_locked-begun want limit st e h =
      let q : (length st.offs == 0) ≡ false = ground arith in rw (e, q) refl

  -- Whatever was asked before, an index stays right, and a call gets as far as it may.
  pub index_locked-IsIndexed :
      (want limit : ℕ) (st : View)
      → IsIndexed st
      → IsIndexed (index_locked alloc want limit st)
        × GetsTo want limit st (index_locked alloc want limit st)
  unfolding marks
  index_locked-IsIndexed want limit st i = elim i [
    | inl (o, z, c, e) ↦ elim (Bool-cases (length st.base == 0)) [
      | inl n ↦
          subst (λ r. IsIndexed r × GetsTo want limit st r)
            (sym (index_locked-complete want limit st (e ∙ n)))
            (inl (o, z, c, e), (refl, omega arith, inl (e ∙ n)))
      | inr n ↦
          let h : 0 < length st.base = ground arith in
          let (b, g) =
            index_bytes-IsBegun want limit
              (record st { has_offs = true; cap = 1024; offs = 0 ∷ [] }) h
              (
                omega arith,
                ap (λ n. 0 ∷ marks (length st.base) 0 (take n st.base)) (sym z),
                refl,
                omega arith,
                omega arith,
              ) in
          subst (λ r. IsIndexed r × GetsTo want limit st r)
            (sym (index_locked-fresh want limit st h (o, z, c, e))) (inr b, g)
    ]
    | inr (h, (a, o, g, l, c), e) ↦ elim (Bool-cases st.complete) [
      | inl t ↦
          subst (λ r. IsIndexed r × GetsTo want limit st r)
            (sym (index_locked-complete want limit st t))
            (inr (h, (a, o, g, l, c), e), (refl, omega arith, inl t))
      | inr t ↦
          let (b, g) = index_bytes-IsBegun want limit st h (a, o, g, l, c) in
          subst (λ r. IsIndexed r × GetsTo want limit st r)
            (sym (index_locked-begun want limit st t (omega (arith, ap length o)))) (inr b, g)
    ]
  ]
