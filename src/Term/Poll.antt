-- ===== src/Term/Poll.antt =====
-- src/termctl.c: `tc_poll`. What the system answers during one call is a parameter: the size of the
-- terminal, whether a resize arrives while it waits, what `poll` says, and the bytes that `read` has.
pub mod Bounded
pub mod Stuck
use boggart.Base.{
  ℕ, ◌+◌, ◌-◌, ltb, leb, ◌==◌, List, [], ◌∷◌, ◌++◌, take, drop, length, Bool, true, false, Option,
  none, some, if◌then◌else◌,
}
use boggart.Term.Grid.{Screen, update_size}
use boggart.Term.Input.{Event, ev_none, ev_resize, no_event, Input, inbuf_size}
use boggart.Term.Input.Parse.{take_event}

-- The fields of `T` that `tc_poll` uses
pub record Terminal : Type 0 where
  pub input : Input
  pub screen : Screen
  pub resized : Bool
  pub attached : Bool

-- What `poll` returns
pub data Polled : Type 0 where
  interrupted failed timed_out readable : Polled

-- The system during a call; `has` is empty at the end of the input and where `read` fails.
pub record System : Type 0 where
  pub cols : ℕ
  pub rows : ℕ
  pub resizes : Bool
  pub polled : Polled
  pub has : List ℕ

-- `read` into `inbuf` behind the unread bytes, of at most `space` bytes
unfoldable pub receive : ℕ → List ℕ → Input → Input
receive space bytes t =
    let got = take space bytes in
    record t {
      inbuf = take t.inlen t.inbuf ++ (got ++ drop (t.inlen + length got) t.inbuf);
      inlen = t.inlen + length got;
    }

unfoldable pub inbuf_fill : List ℕ → Input → Input
unfolding receive
inbuf_fill bytes t = if leb inbuf_size t.inlen then t else receive (inbuf_size - t.inlen) bytes t

-- `on_stdin_readable`, where libuv reports no error
unfoldable pub on_stdin_readable : List ℕ → Terminal → Terminal
unfolding inbuf_fill
on_stdin_readable bytes t = record t { input = inbuf_fill bytes t.input }

-- A resize that is pending, reported
unfoldable pub report_resize : System → Terminal → Event × Terminal
unfolding update_size
report_resize sys t =
    let s = update_size sys.cols sys.rows t.screen in
    (
      record no_event { type = ev_resize; mx = s.w; my = s.h },
      record t { screen = s; resized = false },
    )

-- `take_event`, with no event where it has none
unfoldable pub take_or_none : Terminal → Event × Terminal
unfolding take_event
take_or_none t =
    let (e, i) = take_event t.input in
    (elim e [ none ↦ no_event | some ev ↦ ev ], record t { input = i })

-- After `poll` says that there is input
unfoldable pub read_input : System → Terminal → Event × Terminal
unfolding receive take_or_none
read_input sys t =
    let i : Input =
      if leb inbuf_size t.input.inlen then record t.input { inlen = 0 } else t.input in
    let j = receive (inbuf_size - i.inlen) sys.has i in
    if length sys.has == 0
    then (no_event, record t { input = record i { eof = true } })
    else take_or_none (record t { input = j })

-- The wait, where no event is buffered; a resize that arrives meanwhile and is not reported stays pending.
unfoldable pub wait_input : System → Terminal → Event × Terminal
unfolding inbuf_fill take_or_none report_resize read_input
wait_input sys t =
    let later : Terminal = record t { resized = sys.resizes } in
    if t.attached
    then take_or_none (if t.input.eof then t else record t { input = inbuf_fill sys.has t.input })
    else if t.input.eof
    then (if sys.resizes then report_resize sys t else (no_event, t))
    else elim sys.polled [
      | interrupted ↦ if sys.resizes then report_resize sys t else (no_event, t)
      | failed ↦ (no_event, later)
      | timed_out ↦ (no_event, later)
      | readable ↦ read_input sys later
    ]

unfoldable pub tc_poll : System → Terminal → Event × Terminal
unfolding report_resize take_event wait_input
tc_poll sys t = if t.resized then report_resize sys t else elim (take_event t.input).0 [
  | some ev ↦ (ev, record t { input = (take_event t.input).1 })
  | none ↦ wait_input sys (record t { input = (take_event t.input).1 })
]
