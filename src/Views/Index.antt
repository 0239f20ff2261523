-- ===== src/Views/Index.antt =====
-- src/lview.c: `index_locked`. Whether an allocation of so many bytes succeeds is a parameter.
pub mod Marks
pub mod Indexed
pub mod Calls
use boggart.Base.{
  ℕ, zero, suc, ◌+◌, ◌-◌, ◌*◌, ◌^◌, List, [], ◌∷◌, ◌++◌, length, take, drop, ltb, leb, ◌==◌, ◌&&◌,
  not, Bool, true, false, Option, none, some, memchr, if◌then◌else◌,
}
use boggart.Views.State.{View}

-- `(size_t)-2`
abbrev pub all_lines : ℕ
all_lines = 2 ^ 64 - 2

-- SYNC_INDEX_BELOW and CHUNK
abbrev pub sync_index_below : ℕ
sync_index_below = 4 * 2 ^ 20

abbrev pub chunk : ℕ
chunk = 8 * 2 ^ 20

-- The loop's variables: `p`, the index, and whether its growth failed
pub record LineScan : Type 0 where
  pub at : ℕ
  pub offs : List ℕ
  pub cap : ℕ
  pub failed : Bool

-- `end`: `limit` bytes further, 0 for all
unfoldable pub index_stop : ℕ → View → ℕ
index_stop limit st =
    if not (limit == 0) && ltb (st.scanned + limit) (length st.base)
    then st.scanned + limit
    else length st.base

module _ (alloc : ℕ → Bool) where
  -- A line that starts at `next`
  unfoldable pub add_line : ℕ → LineScan → LineScan
  add_line next s =
      if length s.offs == s.cap
      then (if alloc (s.cap * 2 * 8)
          then record s { offs = s.offs ++ next ∷ []; cap = s.cap * 2 }
          else record s { failed = true })
      else record s { offs = s.offs ++ next ∷ [] }

  -- The body of the loop, over `base` up to `stop`
  unfoldable pub scan_line : List ℕ → ℕ → LineScan → LineScan
  unfolding add_line memchr
  scan_line base stop s = elim (memchr b'\n' (take (stop - s.at) (drop s.at base))) [
    | none ↦ record s { at = stop }
    | some k ↦
        let next = s.at + k + 1 in
        if ltb next (length base)
        then add_line next (record s { at = next })
        else record s { at = next }
  ]

  unfoldable pub scan_lines : ℕ → List ℕ → ℕ → ℕ → LineScan → LineScan
  unfolding scan_line
  scan_lines zero base stop want s = s
  scan_lines (suc fuel) base stop want s =
      elim (ltb s.at stop && (ltb (length s.offs) (want + 1) && not s.failed)) [
        | true ↦ scan_lines fuel base stop want (scan_line base stop s)
        | false ↦ s
      ]

  -- The index is begun: the first line starts at 0, if there is memory.
  unfoldable pub begin_index : View → View
  begin_index st =
      let has = if st.cap == 0 then alloc (1024 * 8) else st.has_offs in
      let cap = if st.cap == 0 then 1024 else st.cap in
      record st { has_offs = has; cap = cap; offs = if has then 0 ∷ [] else st.offs }

  -- The bytes up to `index_stop`; a round of the loop moves on by a byte at least.
  abbrev pub index_scan : ℕ → ℕ → View → LineScan
  index_scan want limit st =
      scan_lines (length st.base) st.base (index_stop limit st) want
        (record { at = st.scanned; offs = st.offs; cap = st.cap; failed = false })

  unfoldable pub index_bytes : ℕ → ℕ → View → View
  unfolding scan_lines index_stop
  index_bytes want limit st =
      let s = index_scan want limit st in
      if s.failed then record st { offs = s.offs; cap = s.cap; complete = true } else record st {
        offs = s.offs;
        cap = s.cap;
        scanned = s.at;
        complete = leb (length st.base) s.at;
      }

  unfoldable pub index_locked : ℕ → ℕ → View → View
  unfolding begin_index index_bytes
  index_locked want limit st =
      if st.complete
      then st
      else if (length st.offs == 0) && ((st.scanned == 0) && not (length st.base == 0))
      then (if (begin_index st).has_offs
          then index_bytes want limit (begin_index st)
          else begin_index st)
      else index_bytes want limit st
