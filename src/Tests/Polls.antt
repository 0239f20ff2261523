-- ===== src/Tests/Polls.antt =====
-- Runs of `tc_poll` of src/termctl.c.
use boggart.Base.{◌≡◌, [], ◌∷◌, map, false, replicate, arith}
use boggart.Term.Grid.{alloc_grid}
use boggart.Term.Input.{Input, no_event}
use boggart.Term.Poll.{Terminal, System, readable, tc_poll}
use boggart.Term.Poll.Bounded.{IsBounded, tc_poll-IsBounded}
use boggart.Term.Poll.Stuck.{asking, on_loop, poll_all, poll_all-stuck}

abbrev quiet_input : Input
quiet_input = record {
  inbuf = replicate 8 0;
  beyond = λ i. 0;
  inlen = 0;
  eof = false;
  pasting = false;
  paste = [];
  pastecap = 0;
}

abbrev off_loop : Terminal
off_loop = record {
  input = quiet_input;
  screen = alloc_grid 4 2;
  resized = false;
  attached = false;
}

-- An `a` is typed.
abbrev types_a : System
types_a = record { cols = 4; rows = 2; resizes = false; polled = readable; has = b'a' ∷ [] }

tc_poll-IsBounded_example : IsBounded (tc_poll types_a off_loop).1
tc_poll-IsBounded_example = tc_poll-IsBounded types_a off_loop (omega arith)

-- ESC [ ? 6 c, the answer of a terminal to the question what it is
abbrev answered : Input
answered = asking 2 (b'6' ∷ b'c' ∷ []) quiet_input

poll_all-stuck_example :
    poll_all (types_a ∷ types_a ∷ []) (on_loop (alloc_grid 4 2) answered)
    ≡ map (λ sys. no_event) (types_a ∷ types_a ∷ [])
poll_all-stuck_example =
    poll_all-stuck (types_a ∷ types_a ∷ []) (alloc_grid 4 2) 2 (b'6' ∷ b'c' ∷ []) quiet_input
