-- ===== src/Views/Life/Held.antt =====
-- src/lview.c: the references to a view, and that it is there as long as somebody holds it, where allocations
-- succeed.
use boggart.Base.{
  ℕ, suc, ◌+◌, ◌-◌, ◌<◌, ◌≡◌, ◌↔◌, refl, get_elem?, ◌∙◌, sym, subst, length, ltb, ◌==◌, ◌||◌, ◌&&◌,
  not, Bool, true, false, Bool-cases, Option, none, some, inl, inr, if◌then◌else◌, arith,
}
use boggart.Views.Lines.{lines}
use boggart.Views.State.{View, File, Stat, vstate_open}
use boggart.Views.Read.{l_line}
use boggart.Views.Read.Answers.{Answers, l_line-lines}
use boggart.Views.Index.{
  all_lines, sync_index_below, chunk, begin_index, index_scan, index_bytes, index_locked,
}
use boggart.Views.Index.Indexed.{IsIndexed}
use boggart.Views.Index.Calls.{index_locked-IsIndexed}
use boggart.Views.Life.{
  Work, idle, running, ended, Holders, vstate_unref, after_work_cb, close_view, open_view,
  open_answer, l_open, Step, reads, round, ends, after, closes, Reached, opened, stepped,
}

abbrev pub holds_user : Bool → ℕ
holds_user true = 1
holds_user false = 0

abbrev pub holds_work : Work → ℕ
holds_work idle = 0
holds_work running = 1
holds_work ended = 1

abbrev is_busy : Work → Bool
is_busy idle = false
is_busy running = true
is_busy ended = true

-- The memory is there as long as somebody holds it, with a reference for each, and it is freed when nobody does.
abbrev pub IsHeld : Option View → Bool → Work → Type 0
IsHeld none user work = holds_user user + holds_work work ≡ 0
IsHeld (some st) user work =
    IsIndexed st
    × (st.refs ≡ holds_user user + holds_work work)
    × (0 < st.refs)
    × (st.job ≡ is_busy work)
    × (st.closing ≡ not user)

-- The index does not touch what the references are.
abbrev pub Keeps : View → View → Type 0
Keeps st r = (r.refs ≡ st.refs) × (r.job ≡ st.job) × (r.closing ≡ st.closing)

Keeps-if :
    (st : View) (b : Bool) (x y : View) → Keeps st x → Keeps st y → Keeps st (if b then x else y)
Keeps-if st true x y h k = h
Keeps-if st false x y h k = k

module _ (alloc : ℕ → Bool) where
  index_bytes-Keeps : (want limit : ℕ) (st : View) → Keeps st (index_bytes alloc want limit st)
  unfolding index_bytes
  index_bytes-Keeps want limit st = elim (Bool-cases (index_scan alloc want limit st).failed) [
    | inl e ↦ rw (e, index_bytes) (refl, refl, refl)
    | inr e ↦ rw (e, index_bytes) (refl, refl, refl)
  ]

  pub index_locked-Keeps :
      (want limit : ℕ) (st : View) → Keeps st (index_locked alloc want limit st)
  unfolding index_locked
  index_locked-Keeps want limit st =
      let begun = begin_index alloc st in
      let first = (length st.offs == 0) && ((st.scanned == 0) && not (length st.base == 0)) in
      let indexed = index_bytes alloc want limit begun in
      let further = index_bytes alloc want limit st in
      Keeps-if st st.complete st
        (if first then (if begun.has_offs then indexed else begun) else further) (refl, refl, refl)
        (Keeps-if st first (if begun.has_offs then indexed else begun) further
          (Keeps-if st begun.has_offs indexed begun (index_bytes-Keeps want limit begun)
            (refl, refl, refl))
          (index_bytes-Keeps want limit st))

-- A view that was just opened
abbrev Opens : Option View → Type 0
Opens none = Unit {0}
Opens (some st) = IsHeld (some st) true idle

vstate_open-Opens : (file : Option File) → Opens (vstate_open file)
unfolding vstate_open
vstate_open-Opens none = tt
vstate_open-Opens (some file) =
    elim (Bool-cases
      (not file.regular || (not (length file.bytes == 0) && (not file.maps && not file.reads)))) [
        | inl e ↦ rw (e, vstate_open) tt
        | inr e ↦ rw (e, vstate_open) (inl (refl, refl, refl, refl), refl, omega arith, refl, refl)
      ]

-- Dropping a reference frees the memory when it is the last one.
vstate_unref-IsHeld :
    (st : View) (user : Bool) (work : Work)
    → IsIndexed st
    → st.refs ≡ suc (holds_user user + holds_work work)
    → st.job ≡ is_busy work
    → st.closing ≡ not user
    → IsHeld (vstate_unref st) user work
unfolding vstate_unref
vstate_unref-IsHeld st user work i r j c = elim (Bool-cases (ltb 0 (st.refs - 1))) [
  | inl t ↦ rw (t, vstate_unref) (i, omega arith, ground arith, j, c)
  | inr t ↦ rw (t, vstate_unref) (ground arith)
]

module _ (alloc : ℕ → Bool) (enough : (n : ℕ) → alloc n ≡ true) where
  index_locked-IsHeld :
      (want limit : ℕ) (st : View) (user : Bool) (work : Work)
      → IsHeld (some st) user work
      → IsHeld (some (index_locked alloc want limit st)) user work
  index_locked-IsHeld want limit st user work (i, r, p, j, c) =
      let (a, b, d) = index_locked-Keeps alloc want limit st in
      ((index_locked-IsIndexed alloc enough want limit st i).0, a ∙ r, omega arith, b ∙ j, d ∙ c)

  Step-IsHeld :
      (h k : Holders) → Step alloc h k → IsHeld h.view h.user h.work → IsHeld k.view k.user k.work
  unfolding after_work_cb close_view
  Step-IsHeld _ _ (reads h st want limit v u) s =
      index_locked-IsHeld want limit st h.user h.work (subst (λ o. IsHeld o h.user h.work) v s)
  Step-IsHeld _ _ (round h st v w d) s =
      index_locked-IsHeld all_lines chunk st h.user h.work (subst (λ o. IsHeld o h.user h.work) v s)
  Step-IsHeld _ _ (ends h st v w d) s =
      let t : IsHeld (some st) h.user ended =
        subst (λ x. IsHeld (some st) h.user x) w (subst (λ o. IsHeld o h.user h.work) v s) in
      subst (λ o. IsHeld o h.user ended) (sym v) t
  Step-IsHeld _ _ (after h st v w) s =
      let (i, r, p, j, c) =
        subst (λ x. IsHeld (some st) h.user x) w (subst (λ o. IsHeld o h.user h.work) v s) in
      vstate_unref-IsHeld (record st { job = false }) h.user idle i (omega arith) refl c
  Step-IsHeld _ _ (closes h st v u) s =
      let (i, r, p, j, c) =
        subst (λ x. IsHeld (some st) x h.work) u (subst (λ o. IsHeld o h.user h.work) v s) in
      vstate_unref-IsHeld (record st { closing = true }) false h.work i (omega arith) j refl

  open_view-IsHeld :
      (has_loop queued : Bool) (st : View)
      → IsHeld (some st) true idle
      → (let h = open_view alloc has_loop queued st in IsHeld h.view h.user h.work)
  unfolding open_view
  open_view-IsHeld has_loop queued st (i, r, p, j, c) =
      elim (Bool-cases (ltb (length st.base) sync_index_below)) [
        | inl t ↦ rw (t, open_view) (index_locked-IsHeld all_lines 0 st true idle (i, r, p, j, c))
        | inr t ↦ elim (Bool-cases has_loop) [
          | inr l ↦ rw (t, l, open_view) (i, r, p, j, c)
          | inl l ↦ elim (Bool-cases queued) [
            | inl q ↦ rw (t, l, q, open_view) (i, omega arith, omega arith, refl, c)
            | inr q ↦ rw (t, l, q, open_view) (i, omega arith, omega arith, refl, c)
          ]
        ]
      ]

  open_answer-IsHeld :
      (has_loop queued : Bool) (o : Option View) (h : Holders)
      → Opens o
      → open_answer alloc has_loop queued o ≡ some h
      → IsHeld h.view h.user h.work
  unfolding open_answer
  open_answer-IsHeld has_loop queued none h s e = cc (e)
  open_answer-IsHeld has_loop queued (some st) h s e =
      let same : open_view alloc has_loop queued st ≡ h = cc (e) in
      subst (λ h. IsHeld h.view h.user h.work) same (open_view-IsHeld has_loop queued st s)

  -- Everything that can happen keeps the references as they should be.
  pub Reached-IsHeld : (h : Holders) → Reached alloc h → IsHeld h.view h.user h.work
  unfolding l_open
  Reached-IsHeld h (opened has_loop queued file _ e) =
      open_answer-IsHeld has_loop queued (vstate_open file) h (vstate_open-Opens file) e
  Reached-IsHeld h (stepped k _ r s) = Step-IsHeld k h s (Reached-IsHeld k r)

  -- Where allocations succeed: whatever happened to a view since it was opened, its memory is freed exactly when
  -- the userdata does not point to it any more and no background job is left.
  pub Reached-freed :
      (h : Holders) → Reached alloc h → ((h.view ≡ none) ↔ ((h.user ≡ false) × (h.work ≡ idle)))
  Reached-freed h r = freed h.view h.user h.work (Reached-IsHeld h r)
    where
      freed :
          (view : Option View) (user : Bool) (work : Work)
          → IsHeld view user work
          → ((view ≡ none) ↔ ((user ≡ false) × (work ≡ idle)))
      freed none true work s = absurd (omega arith)
      freed none false idle s = (λ e. (refl, refl), λ e. refl)
      freed none false running s = absurd (omega arith)
      freed none false ended s = absurd (omega arith)
      freed (some st) true work s = (λ e. cc (e), λ (e, f). cc (e))
      freed (some st) false idle (i, r, p, j, c) = absurd (omega arith)
      freed (some st) false running s = (λ e. cc (e), λ (e, f). cc (f))
      freed (some st) false ended s = (λ e. cc (e), λ (e, f). cc (f))

  -- Where allocations succeed: whatever happened to a view since it was opened, in whatever order, a line that
  -- Lua asks for is that line of the text, or none behind the last one; or an error if the file shrank.
  pub Reached-l_line :
      (h : Holders) (st : View) (now : Option Stat) (i : ℕ)
      → Reached alloc h
      → h.view ≡ some st
      → Answers now st (get_elem? (lines st.base) i) (l_line alloc now st (suc i))
  Reached-l_line h st now i r v =
      let s = subst (λ o. IsHeld o h.user h.work) v (Reached-IsHeld h r) in
      l_line-lines alloc enough now i st s.0
