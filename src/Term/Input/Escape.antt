-- ===== src/Term/Input/Escape.antt =====
-- src/termctl.c: what `parse_one` makes of the bytes behind an ESC.
use boggart.Base.{
  ℕ, ◌+◌, ◌-◌, ◌%◌, ◌^◌, ltb, leb, ◌==◌, ◌&&◌, ◌||◌, bit_and, true, false, not, List, [], take,
  drop, get_or, length, Option, none, some, if◌then◌else◌,
}
use boggart.Term.Utf8.{utf8_len, utf8_decode}
use boggart.Term.Input.{
  Key, key_char, key_enter, key_tab, key_backspace, key_esc, ev_mouse, Event, no_event, set_key,
  Input, at, paste_event,
}
use boggart.Term.Input.Csi.{
  Csi, csi_scan, find_mouse_end, mouse_fields, tilde_key, letter_key, is_key_none,
}

-- The value of `parse_one`, the event that it fills, and `T` behind it.
pub record Parsed : Type 0 where
  pub used : ℕ
  pub event : Event
  pub input : Input

abbrev pub mod_shift : ℕ
mod_shift = 1

abbrev pub key_mods : Key → ℕ → Event
key_mods k mods = record (set_key k) { mods = mods }

abbrev pub char_event : ℕ → ℕ → Event
char_event cp mods = record (set_key key_char) { codepoint = cp; mods = mods }

-- An event that leaves `T` alone.
abbrev pub takes : ℕ → Event → Input → Parsed
takes n ev t = record { used = n; event = ev; input = t }

-- `if (!T.eof) return 0; set_key(ev, TCK_ESC); return 1;`
abbrev pub unfinished : Input → Parsed
unfinished t = if not t.eof then takes 0 no_event t else takes 1 (set_key key_esc) t

-- Alt and a key: ESC before a byte that opens no sequence
unfoldable pub parse_alt : Input → Parsed
parse_alt t =
    let c = at t 1 in
    let len = utf8_len c in
    if (c == b'\r') || (c == b'\n')
    then takes 2 (key_mods key_enter 2) t
    else if c == b'\t'
    then takes 2 (key_mods key_tab 2) t
    else if leb 0x20 c
    then (if ltb t.inlen (1 + len)
        then unfinished t
        else takes (1 + len) (char_event (utf8_decode (drop 1 t.inbuf) len) 2) t)
    else takes 1 (set_key key_esc) t

-- `(code & 0x40) ? 64 + (code & 0x01) : (code & 0x03)`
abbrev pub mouse_button : ℕ → ℕ
mouse_button code = if bit_and code 0x40 == 0 then bit_and code 0x03 else 64 + bit_and code 0x01

abbrev pub mouse_event : ℕ → ℕ → ℕ → Event
mouse_event code mx my = record no_event {
  type = ev_mouse;
  mbutton = mouse_button code;
  mx = mx;
  my = my;
}

-- X10 mouse; `code` is the bit pattern of the `int`, and a negative place is 0.
unfoldable pub parse_x10 : Input → Parsed
parse_x10 t =
    if ltb t.inlen 6
    then unfinished t
    else takes 6 (mouse_event ((at t 3 + 2 ^ 32 - 32) % 2 ^ 32) (at t 4 - 33) (at t 5 - 33)) t

-- SGR mouse; a place counts from 1, and 0 is taken for 1.
unfoldable pub parse_sgr : Input → Parsed
unfolding find_mouse_end mouse_fields
parse_sgr t = elim (find_mouse_end (drop 3 (take t.inlen t.inbuf)) 3) [
  | none ↦ unfinished t
  | some fin ↦
      let m =
        mouse_fields (drop 3 (take fin t.inbuf)) (record { bt = 0; x = 0; y = 0; field = 0 }) in
      takes (fin + 1) (mouse_event m.bt (m.x - 1) (m.y - 1)) t
]

-- xterm modifyOtherKeys
abbrev pub other_key : ℕ → ℕ → Option Event
other_key key mods =
    if key == 13
    then some (key_mods key_enter mods)
    else if key == 9
    then some (key_mods key_tab mods)
    else if key == 27
    then some (key_mods key_esc mods)
    else if leb 32 key && ltb key 127
    then some (char_event key mods)
    else none

-- A sequence with the final byte `~`
abbrev pub parse_tilde : ℕ → ℕ → ℕ → Input → Parsed
parse_tilde num mods i t =
    if num == 200
    then takes i no_event (record t { pasting = true; paste = [] })
    else if num == 201
    then takes i paste_event (record t { pasting = false })
    else if is_key_none (tilde_key num)
    then takes 1 (set_key key_esc) t
    else takes i (key_mods (tilde_key num) mods) t

-- kitty CSI u
abbrev pub kitty_event : ℕ → ℕ → Event
kitty_event code mods =
    if code == 13
    then key_mods key_enter mods
    else if code == 9
    then key_mods key_tab mods
    else if code == 27
    then key_mods key_esc mods
    else if (code == 127) || (code == 8)
    then key_mods key_backspace mods
    else char_event code mods

-- The parameters that are set; `params[1] > 0 ? params[1] - 1 : 0` is a subtraction that stops at 0.
abbrev pub csi_mods : List ℕ → ℕ
csi_mods params = if leb 2 (length params) then get_or params 1 0 - 1 else 0

-- What a sequence that was scanned stands for.
abbrev pub parse_final : Csi → Input → Parsed
parse_final s t =
    let mods = csi_mods s.params in
    let num = get_or s.params 0 0 in
    let other = (s.fin == b'~') && (leb 3 (length s.params) && num == 27) in
    elim (if other then other_key (get_or s.params 2 0) mods else none) [
      | some ev ↦ takes s.used ev t
      | none ↦
          if s.fin == b'~'
          then parse_tilde num mods s.used t
          else if s.fin == b'u'
          then takes s.used (kitty_event num mods) t
          else if s.fin == b'Z'
          then takes s.used (key_mods key_tab mod_shift) t
          else if is_key_none (letter_key s.fin)
          then takes 1 (set_key key_esc) t
          else takes s.used (key_mods (letter_key s.fin) mods) t
    ]

-- CSI and SS3 sequences
unfoldable pub parse_csi : Input → Parsed
unfolding csi_scan tilde_key letter_key
parse_csi t = elim (csi_scan (drop 2 (take t.inlen t.inbuf)) 2 [] 0 false) [
  | none ↦ unfinished t
  | some s ↦ parse_final s t
]

-- Behind an ESC
unfoldable pub parse_escape : Input → Parsed
unfolding parse_alt parse_x10 parse_sgr parse_csi
parse_escape t =
    if t.inlen == 1
    then unfinished t
    else if not ((at t 1 == b'[') || (at t 1 == b'O'))
    then parse_alt t
    else if ltb t.inlen 3
    then unfinished t
    else if (at t 1 == b'[') && (at t 2 == b'M')
    then parse_x10 t
    else if (at t 1 == b'[') && (at t 2 == b'<')
    then parse_sgr t
    else parse_csi t
