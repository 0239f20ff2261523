-- ===== src/Term/Poll/Bounded.antt =====
-- src/termctl.c: `tc_poll` keeps the count of unread bytes within the size of `inbuf`.
use boggart.Base.{
  ℕ, zero, suc, ◌-◌, ◌≤◌, ◌<◌, ◌≡◌, refl, ◌==◌, leb, List, length, length-take, Bool, true, false,
  Option, none, some, if◌then◌else◌, arith,
}
use boggart.Term.Input.{Event, Input, inbuf_size, inbuf_consume}
use boggart.Term.Input.Escape.{Parsed}
use boggart.Term.Input.Parse.{parse_one, is_none, take_loop, take_event}
use boggart.Term.Input.Parse.Progress.{parse_one-Advances}
use boggart.Term.Poll.{
  Terminal, Polled, interrupted, failed, timed_out, readable, System, receive, inbuf_fill,
  report_resize, take_or_none, read_input, wait_input, tc_poll,
}

either : {A : Type 0} (P : A → Type 0) (b : Bool) (x y : A) → P x → P y → P (if b then x else y)
either P true x y p q = p
either P false x y p q = q

unless_zero :
    {A : Type 0} (P : A → Type 0) (n : ℕ) (x y : A)
    → P x
    → (0 < n → P y)
    → P (if n == 0 then x else y)
unless_zero P n x y p q = go (n == 0) refl
  where
    go : (b : Bool) → (n == 0) ≡ b → P (if b then x else y)
    go true e = p
    go false e = q (ground arith)

inbuf_consume-le : (n : ℕ) (t : Input) → (inbuf_consume n t).inlen ≤ t.inlen
unfolding inbuf_consume
inbuf_consume-le n t = ground arith

take_loop-le : (fuel : ℕ) (t : Input) → (take_loop fuel t).1.inlen ≤ t.inlen
unfolding take_loop
take_loop-le zero t = omega arith
take_loop-le (suc fuel) t =
    let r : Parsed = parse_one t in
    let next : Input = inbuf_consume r.used r.input in
    let P : Option Event × Input → Type 0 = λ q. q.1.inlen ≤ t.inlen in
    let c = inbuf_consume-le r.used r.input in
    let l = take_loop-le fuel next in
    unless_zero P t.inlen _ _ (omega arith) (λ z.
      let a = parse_one-Advances t z in
      either P (r.used == 0) _ _ (omega (arith, a.kept)) (
        either P (is_none r.event.type) (take_loop fuel next) _ (omega (arith, a.kept))
          (omega (arith, a.kept))))

take_event-le : (t : Input) → (take_event t).1.inlen ≤ t.inlen
unfolding take_event
take_event-le t = take_loop-le t.inlen t

-- The unread bytes are within the array.
abbrev pub IsBounded : Terminal → Type 0
IsBounded t = t.input.inlen ≤ inbuf_size

receive-le :
    (bytes : List ℕ) (t : Input)
    → t.inlen ≤ inbuf_size
    → (receive (inbuf_size - t.inlen) bytes t).inlen ≤ inbuf_size
unfolding receive
receive-le bytes t h = omega (arith, length-take (inbuf_size - t.inlen) bytes)

inbuf_fill-le :
    (bytes : List ℕ) (t : Input) → t.inlen ≤ inbuf_size → (inbuf_fill bytes t).inlen ≤ inbuf_size
unfolding inbuf_fill
inbuf_fill-le bytes t h =
    either (λ (z : Input). z.inlen ≤ inbuf_size) (leb inbuf_size t.inlen) t
      (receive (inbuf_size - t.inlen) bytes t) h (receive-le bytes t h)

take_or_none-IsBounded : (t : Terminal) → IsBounded t → IsBounded (take_or_none t).1
unfolding take_or_none
take_or_none-IsBounded t h = omega (arith, take_event-le t.input)

read_input-IsBounded : (sys : System) (t : Terminal) → IsBounded t → IsBounded (read_input sys t).1
unfolding read_input receive
read_input-IsBounded sys t h =
    let P : Event × Terminal → Type 0 = λ q. IsBounded q.1 in
    let i : Input =
      if leb inbuf_size t.input.inlen then record t.input { inlen = 0 } else t.input in
    let room : i.inlen ≤ inbuf_size =
      either (λ (z : Input). z.inlen ≤ inbuf_size) (leb inbuf_size t.input.inlen)
        (record t.input { inlen = 0 }) t.input (omega arith) h in
    either P (length sys.has == 0) _
      (take_or_none (record t { input = receive (inbuf_size - i.inlen) sys.has i })) room
      (take_or_none-IsBounded (record t { input = receive (inbuf_size - i.inlen) sys.has i })
        (receive-le sys.has i room))

wait_input-IsBounded : (sys : System) (t : Terminal) → IsBounded t → IsBounded (wait_input sys t).1
unfolding wait_input report_resize
wait_input-IsBounded sys t h =
    let P : Event × Terminal → Type 0 = λ q. IsBounded q.1 in
    let filled : Terminal = record t { input = inbuf_fill sys.has t.input } in
    let later : Terminal = record t { resized = sys.resizes } in
    either P t.attached _ _
      (take_or_none-IsBounded (if t.input.eof then t else filled)
        (either IsBounded t.input.eof t filled h (inbuf_fill-le sys.has t.input h)))
      (either P t.input.eof _ _ (either P sys.resizes _ _ h h) (
        answers sys.polled _ _ _ (either P sys.resizes _ _ h h) h
          (read_input-IsBounded sys later h)))
  where
    answers :
        (p : Polled) (a b c : Event × Terminal)
        → IsBounded a.1
        → IsBounded b.1
        → IsBounded c.1
        → IsBounded
            (elim p as (λ z. Event × Terminal) [
              | interrupted ↦ a
              | failed ↦ b
              | timed_out ↦ b
              | readable ↦ c
            ]).1
    answers interrupted a b c h k l = h
    answers failed a b c h k l = k
    answers timed_out a b c h k l = k
    answers readable a b c h k l = l

-- Whatever the system answers, `tc_poll` keeps the count of unread bytes within the size of the array.
pub tc_poll-IsBounded : (sys : System) (t : Terminal) → IsBounded t → IsBounded (tc_poll sys t).1
unfolding tc_poll report_resize
tc_poll-IsBounded sys t h =
    either (λ (q : Event × Terminal). IsBounded q.1) t.resized _ _ h
      (taken (take_event t.input).0 _ _ less (wait_input-IsBounded sys _ less))
  where
    less : (take_event t.input).1.inlen ≤ inbuf_size
    less = omega (arith, take_event-le t.input)

    taken :
        (e : Option Event) (a : Terminal) (b : Event × Terminal)
        → IsBounded a
        → IsBounded b.1
        → IsBounded (elim e as (λ z. Event × Terminal) [ some ev ↦ (ev, a) | none ↦ b ]).1
    taken none a b h k = k
    taken (some ev) a b h k = h
