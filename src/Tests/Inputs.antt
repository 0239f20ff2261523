-- ===== src/Tests/Inputs.antt =====
-- Runs of the input parser of src/termctl.c.
use boggart.Base.{ℕ, ◌≡◌, refl, List, [], ◌∷◌, ◌++◌, Bool, true, false, length, replicate, arith}
use boggart.Term.Utf8.{utf8_encode, scalar}
use boggart.Term.Input.{key_up, Input}
use boggart.Term.Input.Escape.{takes, char_event, key_mods}
use boggart.Term.Input.Parse.{parse_one, take_loop, take_event}
use boggart.Term.Input.Parse.Progress.{Advances, parse_one-Advances}
use boggart.Term.Input.Parse.Plain.{parse_one-encode}
use boggart.Term.Input.Parse.Taking.{take_event-total}

abbrev typed : List ℕ → Bool → Input
typed s pasting = record {
  inbuf = s ++ replicate 16 0;
  beyond = λ i. 0;
  inlen = length s;
  eof = true;
  pasting = pasting;
  paste = [];
  pastecap = 0;
}

-- Ctrl-Up, as xterm sends it
abbrev ctrl_up : List ℕ
ctrl_up = 0x1b ∷ b'[' ∷ b'1' ∷ b';' ∷ b'5' ∷ b'A' ∷ []

ctrl_up_read : parse_one (typed ctrl_up false) ≡ takes 6 (key_mods key_up 4) (typed ctrl_up false)
unfolding parse_one
ctrl_up_read = refl

parse_one-Advances_example : Advances 6 (typed ctrl_up false) (parse_one (typed ctrl_up false))
parse_one-Advances_example = parse_one-Advances (typed ctrl_up false) (omega arith)

take_event-total_example : take_loop 9 (typed ctrl_up false) ≡ take_event (typed ctrl_up false)
take_event-total_example = take_event-total 9 (typed ctrl_up false) (omega arith)

-- U+20AC and a letter
abbrev euro_x : List ℕ
euro_x = 0xE2 ∷ 0x82 ∷ 0xAC ∷ b'x' ∷ []

parse_one-encode_example :
    parse_one (typed euro_x false) ≡ takes 3 (char_event 0x20AC 0) (typed euro_x false)
unfolding utf8_encode scalar
parse_one-encode_example =
    parse_one-encode (typed euro_x false) 0x20AC (b'x' ∷ replicate 16 0) (omega arith)
      (λ e. omega arith) refl refl refl (omega arith)
