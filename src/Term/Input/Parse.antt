-- ===== src/Term/Input/Parse.antt =====
-- src/termctl.c: `find_paste_end`, `parse_one` and `take_event`. An index past the end of the whole
-- input array reads 0.
pub mod Progress
pub mod Plain
pub mod Taking
use boggart.Base.{
  ℕ, zero, suc, ◌+◌, ◌-◌, ◌*◌, ◌%◌, ◌^◌, ltb, leb, ◌==◌, ◌&&◌, ◌||◌, bit_and, Bool, true, false,
  not, List, [], ◌∷◌, take, drop, get_or, length, Option, none, some, if◌then◌else◌,
}
use boggart.Term.Utf8.{replacement, utf8_len, utf8_decode}
use boggart.Term.Input.{
  Key, key_none, key_char, key_enter, key_tab, key_backspace, key_esc, key_ctrl, EventType, ev_none,
  ev_key, ev_resize, ev_mouse, ev_paste, Event, no_event, set_key, Input, at, inbuf_consume,
  paste_append, paste_event,
}
use boggart.Term.Input.Csi.{
  Csi, csi_scan, find_mouse_end, Mouse, mouse_fields, tilde_key, letter_key, is_key_none,
}
use boggart.Term.Input.Escape.{
  Parsed, mod_shift, key_mods, char_event, takes, unfinished, parse_alt, mouse_button, mouse_event,
  parse_x10, parse_sgr, other_key, parse_tilde, kitty_event, csi_mods, parse_final, parse_csi,
  parse_escape,
}

-- The test of `find_paste_end` at `i`
abbrev pub ends_paste : Input → ℕ → Bool
ends_paste t i =
    at t i == 0x1b
    && (at t (i + 1) == b'['
        && (at t (i + 2) == b'2'
            && (at t (i + 3) == b'0' && (at t (i + 4) == b'1' && at t (i + 5) == b'~'))))

-- `find_paste_end` from `i`, with `fuel` rounds; `none` is -1.
unfoldable pub find_paste_end : Input → ℕ → ℕ → Option ℕ
find_paste_end t zero i = none
find_paste_end t (suc fuel) i =
    let later = find_paste_end t fuel (i + 1) in
    if leb (i + 5) t.inlen then (if ends_paste t i then some i else later) else none

-- The payload of a paste
unfoldable pub parse_paste : Input → Parsed
unfolding find_paste_end paste_append
parse_paste t = elim (find_paste_end t (t.inlen + 1) 0) [
  | none ↦
      let fed = paste_append (take t.inlen t.inbuf) t in
      if not t.eof
      then takes t.inlen no_event fed
      else takes t.inlen paste_event (record fed { pasting = false })
  | some end ↦
      takes (end + 6) paste_event (record (paste_append (take end t.inbuf) t) { pasting = false })
]

-- The letter of a control byte
abbrev pub control_point : ℕ → ℕ
control_point c = if c == 0 then b' ' else if ltb c 27 then b'a' + c - 1 else b'@' + c

-- Control keys, and printable text
unfoldable pub parse_plain : Input → Parsed
parse_plain t =
    let c = at t 0 in
    let len = utf8_len c in
    if c == b'\r'
    then takes 1 (set_key key_enter) t
    else if c == b'\n'
    then takes 1 (key_mods key_enter 4) t
    else if c == b'\t'
    then takes 1 (set_key key_tab) t
    else if (c == 0x7F) || (c == 0x08)
    then takes 1 (set_key key_backspace) t
    else if ltb c 0x20
    then takes 1 (record (set_key key_ctrl) { codepoint = control_point c }) t
    else if ltb t.inlen len
    then (if not t.eof then takes 0 no_event t else takes 1 (char_event replacement 0) t)
    else takes len (char_event (utf8_decode t.inbuf len) 0) t

unfoldable pub parse_one : Input → Parsed
unfolding parse_paste parse_escape parse_plain
parse_one t =
    if t.inlen == 0
    then takes 0 no_event t
    else if t.pasting
    then parse_paste t
    else if at t 0 == 0x1b
    then parse_escape t
    else parse_plain t

abbrev pub is_none : EventType → Bool
is_none ev_none = true
is_none _ = false

-- The loop of `take_event`; the value is the event, if there is one, and `T`.
unfoldable pub take_loop : ℕ → Input → Option Event × Input
unfolding parse_one inbuf_consume
take_loop zero t = (none, t)
take_loop (suc fuel) t =
    let r = parse_one t in
    let next = inbuf_consume r.used r.input in
    let more = take_loop fuel next in
    if t.inlen == 0
    then (none, t)
    else if r.used == 0
    then (none, r.input)
    else if is_none r.event.type
    then more
    else (some r.event, next)

-- `take_event`, with a round for each byte
unfoldable pub take_event : Input → Option Event × Input
unfolding take_loop
take_event t = take_loop t.inlen t
