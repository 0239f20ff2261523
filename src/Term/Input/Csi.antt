-- ===== src/Term/Input/Csi.antt =====
-- src/termctl.c: the key tables, and the scan of a control sequence in `parse_one`.
use boggart.Base.{
  ℕ, ◌+◌, ◌-◌, ◌*◌, ltb, leb, ◌==◌, ◌&&◌, ◌||◌, Bool, true, false, List, [], ◌∷◌, ◌++◌, length,
  Option, none, some, if◌then◌else◌,
}
use boggart.Term.Input.{
  Key, key_none, key_up, key_down, key_left, key_right, key_home, key_end, key_pageup, key_pagedown,
  key_insert, key_delete, key_f1, key_f2, key_f3, key_f4, key_f5, key_f6, key_f7, key_f8, key_f9,
  key_f10, key_f11, key_f12,
}

-- `switch` over a table of cases
abbrev pub lookup_key : List (ℕ × Key) → ℕ → Key
lookup_key [] n = key_none
lookup_key ((m, k) ∷ ks) n = if n == m then k else lookup_key ks n

-- `tilde_key`
unfoldable pub tilde_key : ℕ → Key
tilde_key = lookup_key (
    (1, key_home)
    ∷ (7, key_home)
    ∷ (2, key_insert)
    ∷ (3, key_delete)
    ∷ (4, key_end)
    ∷ (8, key_end)
    ∷ (5, key_pageup)
    ∷ (6, key_pagedown)
    ∷ (11, key_f1)
    ∷ (12, key_f2)
    ∷ (13, key_f3)
    ∷ (14, key_f4)
    ∷ (15, key_f5)
    ∷ (17, key_f6)
    ∷ (18, key_f7)
    ∷ (19, key_f8)
    ∷ (20, key_f9)
    ∷ (21, key_f10)
    ∷ (23, key_f11)
    ∷ (24, key_f12)
    ∷ [])

-- `letter_key`
unfoldable pub letter_key : ℕ → Key
letter_key = lookup_key (
    (b'A', key_up)
    ∷ (b'B', key_down)
    ∷ (b'C', key_right)
    ∷ (b'D', key_left)
    ∷ (b'H', key_home)
    ∷ (b'F', key_end)
    ∷ (b'P', key_f1)
    ∷ (b'Q', key_f2)
    ∷ (b'R', key_f3)
    ∷ (b'S', key_f4)
    ∷ [])

abbrev pub is_key_none : Key → Bool
is_key_none key_none = true
is_key_none _ = false

abbrev pub is_digit : ℕ → Bool
is_digit ch = leb b'0' ch && leb ch b'9'

abbrev pub is_final : ℕ → Bool
is_final ch = (leb 0x40 ch && leb ch 0x7E) || (ch == b'~' || ch == b'u')

-- A scanned sequence: its final byte, its parameters, and the index behind it.
pub record Csi : Type 0 where
  pub fin : ℕ
  pub params : List ℕ
  pub used : ℕ

-- `if (np < 8) params[np++] = cur;`
abbrev pub add_param : List ℕ → ℕ → List ℕ
add_param params cur = if ltb (length params) 8 then params ++ (cur ∷ []) else params

abbrev pub cap_param : ℕ → ℕ
cap_param cur = if ltb 1000000 cur then 1000000 else cur

-- The parameters when the final byte `ch` is met.
abbrev pub final_params : List ℕ → ℕ → Bool → ℕ → List ℕ
final_params params cur saw_digit ch =
    if saw_digit || (ltb 0 (length params) || (ch == b'Z' || (leb b'A' ch && leb ch b'Z')))
    then add_param params cur
    else params

-- The scan from index `i`, over the bytes from there to the end of the input; `none` is `!fin`.
unfoldable pub csi_scan : List ℕ → ℕ → List ℕ → ℕ → Bool → Option Csi
csi_scan [] i params cur saw_digit = none
csi_scan (ch ∷ rest) i params cur saw_digit =
    let digit = csi_scan rest (i + 1) params (cap_param (cur * 10 + (ch - b'0'))) true in
    let field = csi_scan rest (i + 1) (add_param params cur) 0 false in
    if is_digit ch
    then digit
    else if ch == b';'
    then field
    else if is_final ch
    then some (record { fin = ch; params = final_params params cur saw_digit ch; used = i + 1 })
    else none

-- SGR mouse: the index of the first M or m, over the bytes from index `i`.
unfoldable pub find_mouse_end : List ℕ → ℕ → Option ℕ
find_mouse_end [] i = none
find_mouse_end (ch ∷ rest) i =
    if (ch == b'M') || (ch == b'm') then some i else find_mouse_end rest (i + 1)

-- Its three fields. The source computes them in `int`, so more than nine digits overflow there.
pub record Mouse : Type 0 where
  pub bt : ℕ
  pub x : ℕ
  pub y : ℕ
  pub field : ℕ

unfoldable pub mouse_fields : List ℕ → Mouse → Mouse
mouse_fields [] m = m
mouse_fields (ch ∷ rest) m = mouse_fields rest (
    if ch == b';'
    then record m { field = m.field + 1 }
    else if is_digit ch
    then (if m.field == 0
        then record m { bt = m.bt * 10 + (ch - b'0') }
        else if m.field == 1
        then record m { x = m.x * 10 + (ch - b'0') }
        else record m { y = m.y * 10 + (ch - b'0') })
    else m)
