-- ===== src/Term/Input.antt =====
-- src/termctl.c, input: events, the input buffer and the paste buffer.
pub mod Csi
pub mod Escape
pub mod Parse
use boggart.Base.{
  ℕ, zero, suc, ◌+◌, ◌-◌, ◌*◌, ltb, leb, ◌==◌, ◌&&◌, Bool, true, false, List, [], ◌∷◌, ◌++◌, take,
  drop, get_or, length, if◌then◌else◌,
}

-- `enum tc_evtype`
pub data EventType : Type 0 where
  ev_none ev_key ev_resize ev_mouse ev_paste : EventType

-- `enum tc_key`
pub data Key : Type 0 where
  key_none key_char key_enter key_tab key_backspace key_esc : Key
  key_up key_down key_left key_right key_home key_end key_pageup key_pagedown : Key
  key_insert key_delete key_ctrl : Key
  key_f1 key_f2 key_f3 key_f4 key_f5 key_f6 key_f7 key_f8 key_f9 key_f10 key_f11 key_f12 : Key

-- `tc_event`
pub record Event : Type 0 where
  pub type : EventType
  pub key : Key
  pub codepoint : ℕ
  pub mods : ℕ
  pub mx : ℕ
  pub my : ℕ
  pub mbutton : ℕ

-- After `memset`
abbrev pub no_event : Event
no_event = record {
  type = ev_none;
  key = key_none;
  codepoint = 0;
  mods = 0;
  mx = 0;
  my = 0;
  mbutton = 0;
}

-- `set_key`
abbrev pub set_key : Key → Event
set_key k = record no_event { type = ev_key; key = k }

-- The fields of `T` for input. `inbuf` is the whole array, whose first `inlen` bytes are unread. `beyond` is
-- what is read past its end, which `find_paste_end` does by one byte when the array is full.
pub record Input : Type 0 where
  pub inbuf : List ℕ
  pub beyond : ℕ → ℕ
  pub inlen : ℕ
  pub eof : Bool
  pub pasting : Bool
  pub paste : List ℕ
  pub pastecap : ℕ

abbrev pub inbuf_size : ℕ
inbuf_size = 4096

abbrev pub at : Input → ℕ → ℕ
at t i = get_or t.inbuf i (t.beyond i)

-- `inbuf_consume`; `memmove` leaves the bytes behind the moved ones as they were.
unfoldable pub inbuf_consume : ℕ → Input → Input
inbuf_consume n t =
    if n == 0 then t else if leb t.inlen n then record t { inlen = 0 } else record t {
      inbuf = take (t.inlen - n) (drop n t.inbuf) ++ drop (t.inlen - n) t.inbuf;
      inlen = t.inlen - n;
    }

abbrev pub paste_limit : ℕ
paste_limit = 1024 * 1024

-- `while (cap < need) cap *= 2;`
unfoldable pub double_until : ℕ → ℕ → ℕ → ℕ
double_until zero need cap = cap
double_until (suc fuel) need cap =
    let more = double_until fuel need (cap * 2) in if ltb cap need then more else cap

-- The capacity that `paste_append` asks for; a megabyte is reached from 4096 in 8 doublings.
unfoldable pub paste_grow : ℕ → ℕ → ℕ
unfolding double_until
paste_grow need pastecap =
    let cap = double_until 21 need (if pastecap == 0 then 4096 else pastecap * 2) in
    if ltb paste_limit cap then paste_limit else cap

-- `paste_append`, with its allocation made: what does not fit a megabyte is cut off.
unfoldable pub paste_append : List ℕ → Input → Input
unfolding paste_grow
paste_append s t =
    if length s == 0
    then t
    else let need = length t.paste + length s + 1 in
      (if ltb t.pastecap need
        then (let cap = paste_grow need t.pastecap in
            record t {
              paste = t.paste ++ (if ltb cap need then take (cap - length t.paste - 1) s else s);
              pastecap = cap;
            })
        else record t { paste = t.paste ++ s })

-- `emit_paste`
abbrev pub paste_event : Event
paste_event = record no_event { type = ev_paste }
