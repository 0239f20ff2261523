-- ===== src/Views/Life.antt =====
-- src/lview.c: how a view is opened, indexed in the background and closed, and when its memory is freed.
pub mod Held
pub mod Worker
use boggart.Base.{
  ℕ, zero, suc, ◌+◌, ◌-◌, ◌≡◌, List, length, ltb, ◌||◌, not, Bool, true, false, Option, none, some,
  if◌then◌else◌,
}
use boggart.Views.State.{View, File, vstate_open}
use boggart.Views.Index.{all_lines, sync_index_below, chunk, index_locked}

-- Where the background job is: there is none, `work_cb` runs, or `after_work_cb` is still to come.
pub data Work : Type 0 where
  idle : Work
  running : Work
  ended : Work

-- The memory of a view, `none` when it is freed; whether the userdata points to it; and the job
pub record Holders : Type 0 where
  pub view : Option View
  pub user : Bool
  pub work : Work

unfoldable pub vstate_unref : View → Option View
vstate_unref st = if ltb 0 (st.refs - 1) then some (record st { refs = st.refs - 1 }) else none

unfoldable pub after_work_cb : View → Option View
unfolding vstate_unref
after_work_cb st = vstate_unref (record st { job = false })

-- `closing` is set before the reference of the userdata is dropped.
unfoldable pub close_view : View → Option View
unfolding vstate_unref
close_view st = vstate_unref (record st { closing = true })

-- The test with which a round of `work_cb` begins
abbrev pub work_done : View → Bool
work_done st = st.complete || st.closing

module _ (alloc : ℕ → Bool) where
  -- The loop of `work_cb` while nobody else has the lock; the flag tells that it ended.
  unfoldable pub work_cb : ℕ → View → View × Bool
  unfolding index_locked
  work_cb zero st = (st, work_done st)
  work_cb (suc fuel) st =
      let rest = work_cb fuel (index_locked alloc all_lines chunk st) in
      if work_done st then (st, true) else rest

  -- Whether there is a loop and whether it takes the job are the answers of the event loop.
  unfoldable pub open_view : Bool → Bool → View → Holders
  unfolding index_locked
  open_view has_loop queued st =
      if ltb (length st.base) sync_index_below
      then record { view = some (index_locked alloc all_lines 0 st); user = true; work = idle }
      else if not has_loop
      then record { view = some st; user = true; work = idle }
      else if queued
      then record {
        view = some (record st { refs = st.refs + 1; job = true });
        user = true;
        work = running;
      }
      else record {
        view = some (record st { refs = st.refs + 1 - 1; job = false });
        user = true;
        work = idle;
      }

  -- `l_open` with what `vstate_open` answers; `none` is an error.
  unfoldable pub open_answer : Bool → Bool → Option View → Option Holders
  unfolding open_view
  open_answer has_loop queued none = none
  open_answer has_loop queued (some st) = some (open_view has_loop queued st)

  unfoldable pub l_open : Bool → Bool → Option File → Option Holders
  unfolding vstate_open open_answer
  l_open has_loop queued file = open_answer has_loop queued (vstate_open file)

  -- What may happen to a view, in any order: Lua reads it, a round of the job, the end of the job, the loop's
  -- turn after it, and `l_close`
  pub data Step : Holders → Holders → Type 0 where
    reads :
        (h : Holders) (st : View) (want limit : ℕ)
        → h.view ≡ some st
        → h.user ≡ true
        → Step h (record h { view = some (index_locked alloc want limit st) })
    round :
        (h : Holders) (st : View)
        → h.view ≡ some st
        → h.work ≡ running
        → work_done st ≡ false
        → Step h (record h { view = some (index_locked alloc all_lines chunk st) })
    ends :
        (h : Holders) (st : View)
        → h.view ≡ some st
        → h.work ≡ running
        → work_done st ≡ true
        → Step h (record h { work = ended })
    after :
        (h : Holders) (st : View)
        → h.view ≡ some st
        → h.work ≡ ended
        → Step h (record h { view = after_work_cb st; work = idle })
    closes :
        (h : Holders) (st : View)
        → h.view ≡ some st
        → h.user ≡ true
        → Step h (record h { view = close_view st; user = false })

  pub data Reached : Holders → Type 0 where
    opened :
        (has_loop queued : Bool) (file : Option File) (h : Holders)
        → l_open has_loop queued file ≡ some h
        → Reached h
    stepped : (h i : Holders) → Reached h → Step h i → Reached i
