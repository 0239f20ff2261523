-- ===== src/Views/Index/Marks.antt =====
-- src/lview.c: the loop of `index_locked` finds the marks of the bytes that it passes, where allocations
-- succeed.
use boggart.Base.{
  ℕ, zero, suc, ◌+◌, ◌-◌, ◌*◌, ◌≤◌, ◌<◌, ◌≡◌, refl, ◌∙◌, sym, ap, List, [], ◌∷◌, ◌++◌, append-nil,
  length, length-take, take, take-add, take-take, length-append, drop, ltb, ◌&&◌, not, Bool, true,
  false, none, some, Option-cases, Bool-cases, inl, inr, ◌⊎◌, memchr, memchr-lt, memchr-cases,
  if◌then◌else◌, arith,
}
use boggart.Views.Lines.{marks, marks-append}
use boggart.Views.Index.{LineScan, add_line, scan_line, scan_lines}

memchr-marks-none : (size at : ℕ) (xs : List ℕ) → memchr b'\n' xs ≡ none → marks size at xs ≡ []
unfolding memchr marks
memchr-marks-none size at [] e = refl
memchr-marks-none size at (x ∷ xs) e = elim (Option-cases (memchr b'\n' xs)) [
  | inl h ↦ ground (arith, memchr-marks-none size (at + 1) xs h)
  | inr (j, h) ↦ ground arith
]

memchr-marks-some :
    (size at k : ℕ) (xs : List ℕ)
    → memchr b'\n' xs ≡ some k
    → marks size at (take (suc k) xs) ≡ (if ltb (at + k + 1) size then (at + k + 1) ∷ [] else [])
unfolding memchr marks
memchr-marks-some size at k [] e = cc (e)
memchr-marks-some size at k (x ∷ xs) e = elim (memchr-cases b'\n' x xs k e) [
  | inl (t, z) ↦ let same : at + k + 1 ≡ at + 1 = omega (arith, z) in rw (same, z, t) (ground arith)
  | inr (j, t, h, z) ↦
      let same : at + k + 1 ≡ at + 1 + j + 1 = omega (arith, z) in
      rw (same, z, t) (memchr-marks-some size (at + 1) j xs h)
]

pub marks-further :
    (base : List ℕ) (at n : ℕ)
    → at ≤ length base
    → marks (length base) 0 (take (at + n) base)
      ≡ marks (length base) 0 (take at base) ++ marks (length base) at (take n (drop at base))
marks-further base at n h =
    ap (marks (length base) 0) (take-add at n base)
    ∙ marks-append (length base) 0 (take at base) (take n (drop at base))
    ∙ ap
        (λ i. marks (length base) 0 (take at base) ++ marks (length base) i (take n (drop at base)))
        (omega (arith, length-take at base))

-- Up to the end, where there is no newline any more, and up to behind the next one
marks-end :
    (base : List ℕ) (at stop : ℕ)
    → at ≤ stop
    → stop ≤ length base
    → memchr b'\n' (take (stop - at) (drop at base)) ≡ none
    → marks (length base) 0 (take stop base) ≡ marks (length base) 0 (take at base)
marks-end base at stop h k e =
    ap (λ n. marks (length base) 0 (take n base)) (omega arith)
    ∙ marks-further base at (stop - at) (omega arith)
    ∙ ap (λ z. marks (length base) 0 (take at base) ++ z)
        (memchr-marks-none (length base) at (take (stop - at) (drop at base)) e)
    ∙ append-nil (marks (length base) 0 (take at base))

marks-line :
    (base : List ℕ) (at stop j : ℕ)
    → at ≤ length base
    → memchr b'\n' (take (stop - at) (drop at base)) ≡ some j
    → marks (length base) 0 (take (at + j + 1) base)
      ≡ marks (length base) 0 (take at base)
        ++ (if ltb (at + j + 1) (length base) then (at + j + 1) ∷ [] else [])
marks-line base at stop j h e =
    let l = memchr-lt b'\n' (take (stop - at) (drop at base)) j e in
    ap (λ n. marks (length base) 0 (take n base)) (omega arith)
    ∙ marks-further base at (suc j) h
    ∙ ap (λ z. marks (length base) 0 (take at base) ++ marks (length base) at z)
        (sym (
          take-take (suc j) (stop - at) (drop at base)
            (omega (arith, length-take (stop - at) (drop at base)))))
    ∙ ap (λ z. marks (length base) 0 (take at base) ++ z)
        (memchr-marks-some (length base) at j (take (stop - at) (drop at base)) e)

-- The index holds what there is up to `at`, and there is room for it.
abbrev pub IsFound : List ℕ → LineScan → Type 0
IsFound base s =
    (s.at ≤ length base)
    × (s.offs ≡ 0 ∷ marks (length base) 0 (take s.at base))
    × (s.failed ≡ false)
    × (length s.offs ≤ s.cap)
    × (0 < s.cap)

module _ (alloc : ℕ → Bool) (enough : (n : ℕ) → alloc n ≡ true) where
  add_line_lem :
      (next : ℕ) (s : LineScan)
      → length s.offs ≤ s.cap
      → 0 < s.cap
      → (let r = add_line alloc next s in
          (r.at ≡ s.at)
          × (r.offs ≡ s.offs ++ next ∷ [])
          × (r.failed ≡ s.failed)
          × (length r.offs ≤ r.cap)
          × (0 < r.cap))
  unfolding add_line
  add_line_lem next s h k =
      let e = enough (s.cap * 2 * 8) in let l = length-append s.offs (next ∷ []) in ground arith

  scan_line-IsFound :
      (base : List ℕ) (stop : ℕ) (s : LineScan)
      → s.at < stop
      → stop ≤ length base
      → IsFound base s
      → (let r = scan_line alloc base stop s in IsFound base r × (s.at < r.at) × (r.at ≤ stop))
  unfolding scan_line
  scan_line-IsFound base stop s h k (a, f, g, c, d) =
      elim (Option-cases (memchr b'\n' (take (stop - s.at) (drop s.at base)))) [
        | inl e ↦
            rw (e, scan_line)
              (
                (
                  k,
                  f ∙ ap (λ z. 0 ∷ z) (sym (marks-end base s.at stop (omega arith) k e)),
                  g,
                  c,
                  d,
                ),
                h,
                omega arith,
              )
        | inr (j, e) ↦
            let l = memchr-lt b'\n' (take (stop - s.at) (drop s.at base)) j e in
            let within : s.at + j + 1 ≤ stop =
              omega (arith, l, length-take (stop - s.at) (drop s.at base)) in
            let ms = marks-line base s.at stop j a e in
            elim (Bool-cases (ltb (s.at + j + 1) (length base))) [
              | inl t ↦
                  let (p, q, r, u, v) =
                    add_line_lem (s.at + j + 1) (record s { at = s.at + j + 1 }) c d in
                  let m : (add_line alloc (s.at + j + 1) (record s { at = s.at + j + 1 })).offs
                      ≡ 0 ∷ marks (length base) 0 (take (s.at + j + 1) base) =
                    q
                    ∙ ap (λ z. z ++ (s.at + j + 1) ∷ []) f
                    ∙ ap (λ z. 0 ∷ z)
                        (sym (
                          ms
                          ∙ ap
                              (λ b.
                                marks (length base) 0 (take s.at base)
                                ++ (if b then (s.at + j + 1) ∷ [] else []))
                              t)) in
                  rw (e, t, scan_line)
                    (
                      (
                        omega arith,
                        m ∙ ap (λ n. 0 ∷ marks (length base) 0 (take n base)) (sym p),
                        r ∙ g,
                        u,
                        v,
                      ),
                      omega arith,
                      omega arith,
                    )
              | inr t ↦
                  let m : s.offs ≡ 0 ∷ marks (length base) 0 (take (s.at + j + 1) base) =
                    f
                    ∙ ap (λ z. 0 ∷ z)
                        (sym (
                          ms
                          ∙ ap
                              (λ b.
                                marks (length base) 0 (take s.at base)
                                ++ (if b then (s.at + j + 1) ∷ [] else []))
                              t
                          ∙ append-nil (marks (length base) 0 (take s.at base)))) in
                  rw (e, t, scan_line) ((omega arith, m, g, c, d), omega arith, omega arith)
            ]
      ]

  pub scan_lines-IsFound :
      (fuel : ℕ) (base : List ℕ) (stop want : ℕ) (s : LineScan)
      → stop - s.at ≤ fuel
      → s.at ≤ stop
      → stop ≤ length base
      → IsFound base s
      → (let r = scan_lines alloc fuel base stop want s in
          IsFound base r × (s.at ≤ r.at) × (r.at ≤ stop) × ((r.at ≡ stop) ⊎ (want < length r.offs)))
  unfolding scan_lines
  scan_lines-IsFound zero base stop want s h i k f =
      (f, omega arith, omega arith, inl (omega arith))
  scan_lines-IsFound (suc fuel) base stop want s h i k (a, m, g, c, d) =
      let f : IsFound base s = (a, m, g, c, d) in
      elim (Bool-cases (ltb s.at stop && (ltb (length s.offs) (want + 1) && not s.failed))) [
        | inl e ↦
            let (g, l, m) = scan_line-IsFound base stop s (ground arith) k f in
            let (u, v, w, x) =
              scan_lines-IsFound fuel base stop want (scan_line alloc base stop s) (omega arith) m k
                g in
            rw (e, scan_lines) (u, omega arith, w, x)
        | inr e ↦ rw (e, scan_lines) (f, omega arith, i, ground arith)
      ]
