-- ===== src/Term/Poll/Stuck.antt =====
-- src/termctl.c: a sequence that no key has, at the head of the input of a terminal on a loop. The scan of
-- a sequence stops at a byte that it does not know, and what follows is never looked at.
use boggart.Base.{
  ℕ, suc, ◌+◌, ◌-◌, ◌≡◌, refl, sym, ap, subst, ◌==◌, leb, ltb, List, [], ◌∷◌, ◌++◌, map, take, drop,
  length, Bool, true, false, Bool-cases, Option, none, some, inl, inr, if◌then◌else◌, arith,
}
use boggart.Term.Grid.{Screen}
use boggart.Term.Input.{Event, Input, no_event, inbuf_size}
use boggart.Term.Input.Csi.{csi_scan}
use boggart.Term.Input.Escape.{takes, parse_escape, parse_csi}
use boggart.Term.Input.Parse.{parse_one, take_loop, take_event}
use boggart.Term.Poll.{Terminal, System, receive, inbuf_fill, take_or_none, wait_input, tc_poll}

-- ESC [ ? and more, unread
abbrev pub asking : ℕ → List ℕ → Input → Input
asking k rest t = record t {
  inbuf = 0x1b ∷ b'[' ∷ b'?' ∷ rest;
  inlen = suc (suc (suc k));
  eof = false;
  pasting = false;
}

all_same :
    {A : Type 0} (b c d : Bool) (x : A) → (if b then x else if c then x else if d then x else x) ≡ x
all_same true c d x = refl
all_same false true d x = refl
all_same false false true x = refl
all_same false false false x = refl

parse_one-asking :
    (k : ℕ) (rest : List ℕ) (t : Input)
    → parse_one (asking k rest t) ≡ takes 0 no_event (asking k rest t)
unfolding parse_one parse_escape parse_csi csi_scan
parse_one-asking k rest t =
    all_same ((asking k rest t).inlen == 0) ((asking k rest t).inlen == 1)
      (ltb (asking k rest t).inlen 3) (takes 0 no_event (asking k rest t))

take_event-asking :
    (k : ℕ) (rest : List ℕ) (t : Input) → take_event (asking k rest t) ≡ (none, asking k rest t)
unfolding take_event take_loop
take_event-asking k rest t =
    rw (parse_one-asking k rest t)
      (all_same ((asking k rest t).inlen == 0) false false (none, asking k rest t))

abbrev IsAsking : Input → Type 0
IsAsking i = (k : ℕ) × (rest : List ℕ) × (t : Input) × (i ≡ asking k rest t)

inbuf_fill-IsAsking :
    (bytes : List ℕ) (k : ℕ) (rest : List ℕ) (t : Input)
    → IsAsking (inbuf_fill bytes (asking k rest t))
unfolding inbuf_fill receive
inbuf_fill-IsAsking bytes k rest t = elim (Bool-cases (leb inbuf_size (suc (suc (suc k))))) [
  | inl e ↦ rw e (k, rest, t, refl)
  | inr e ↦
      let got = take (inbuf_size - suc (suc (suc k))) bytes in
      rw e (
        k + length got,
        take k rest ++ (got ++ drop (suc (suc (suc k)) + length got) (asking k rest t).inbuf),
        t,
        ap
            (λ n. record t {
              inbuf =
                  0x1b
                  ∷ b'['
                  ∷ b'?'
                  ∷ (take k rest
                      ++ (got ++ drop (suc (suc (suc k)) + length got) (asking k rest t).inbuf));
              inlen = n;
              eof = false;
              pasting = false;
            })
            (longer k (length got)),
      )
]
  where
    longer : (k n : ℕ) → suc (suc (suc k)) + n ≡ suc (suc (suc (k + n)))
    longer k n = omega arith

-- A terminal on a loop, with no resize pending
abbrev pub on_loop : Screen → Input → Terminal
on_loop s i = record { input = i; screen = s; resized = false; attached = true }

take_or_none-asking :
    (s : Screen) (i : Input) → IsAsking i → take_or_none (on_loop s i) ≡ (no_event, on_loop s i)
unfolding take_or_none
take_or_none-asking s i (k, rest, t, e) = rw (e, take_event-asking k rest t) refl

tc_poll-asking :
    (sys : System) (s : Screen) (k : ℕ) (rest : List ℕ) (t : Input)
    → tc_poll sys (on_loop s (asking k rest t))
      ≡ (no_event, on_loop s (inbuf_fill sys.has (asking k rest t)))
unfolding tc_poll wait_input
tc_poll-asking sys s k rest t =
    subst
      (λ (p : Option Event × Input).
        (elim p.0 as (λ e. Event × Terminal) [
          | some ev ↦ (ev, on_loop s p.1)
          | none ↦ wait_input sys (on_loop s p.1)
        ])
        ≡ (no_event, on_loop s (inbuf_fill sys.has (asking k rest t))))
      (sym (take_event-asking k rest t))
      (take_or_none-asking s (inbuf_fill sys.has (asking k rest t))
        (inbuf_fill-IsAsking sys.has k rest t))

-- The events of a run of calls
unfoldable pub poll_all : List System → Terminal → List Event
unfolding tc_poll
poll_all [] t = []
poll_all (sys ∷ more) t = (tc_poll sys t).0 ∷ poll_all more (tc_poll sys t).1

-- On a terminal that is on a loop, once the unread input begins with ESC [ ?, outside a paste and before
-- the end of the input, no call of `tc_poll` answers a key any more, whatever is typed, until a resize.
pub poll_all-stuck :
    (calls : List System) (s : Screen) (k : ℕ) (rest : List ℕ) (t : Input)
    → poll_all calls (on_loop s (asking k rest t)) ≡ map (λ sys. no_event) calls
unfolding poll_all
poll_all-stuck [] s k rest t = refl
poll_all-stuck (sys ∷ more) s k rest t =
    let (k', rest', t', e) = inbuf_fill-IsAsking sys.has k rest t in
    rw (tc_poll-asking sys s k rest t, e)
      (ap (λ z. no_event ∷ z) (poll_all-stuck more s k' rest' t'))
