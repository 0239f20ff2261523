-- ===== src/Term/Puts.antt =====
-- src/termctl.c: `tc_puts` and `tc_snapshot`.
pub mod Points
pub mod Snapshot
use boggart.Base.{
  ℕ, zero, suc, ◌+◌, ◌-◌, ◌*◌, ltb, leb, ◌==◌, min, Bool, true, false, List, [], ◌∷◌, ◌++◌, drop,
  not, ◌&&◌, take, length, if◌then◌else◌,
}
use boggart.Base.Int.{ℤ, pos, negsuc, sub_ℕ, ltb_ℤ}
use boggart.Term.Utf8.{utf8_len, utf8_decode, utf8_encode}
use boggart.Term.Width.{tc_wcwidth}
use boggart.Term.Grid.{Cell, Screen, tc_set, is_null}

-- `x += w`
abbrev pub move_right : ℤ → ℕ → ℤ
move_right (pos x) w = pos (x + w)
move_right (negsuc x) w = sub_ℕ w (suc x)

module _ (y : ℤ) (fg bg : ℤ) (attr : ℕ) where
  -- The loop of `tc_puts`, on bytes that a NUL ends, or their end; the fuel is their number. The value is the
  -- column and the screen.
  unfoldable pub puts_loop : ℕ → ℤ → List ℕ → Screen → ℤ × Screen
  puts_loop zero x s t = (x, t)
  puts_loop (suc fuel) x [] t = (x, t)
  puts_loop (suc fuel) x (c ∷ s) t =
      let len = utf8_len c in
      let cp = utf8_decode (c ∷ s) len in
      let w = tc_wcwidth cp in
      let skip = puts_loop fuel x (drop len (c ∷ s)) t in
      let draw = puts_loop fuel (move_right x w) (drop len (c ∷ s)) (tc_set x y cp fg bg attr t) in
      if not (c == 0) && ltb_ℤ x (pos t.w)
      then (if ltb (min len (length (c ∷ s))) len then (x, t) else (if w == 0 then skip else draw))
      else (x, t)

  unfoldable pub tc_puts : ℤ → List ℕ → Screen → ℤ × Screen
  unfolding puts_loop
  tc_puts x s t = puts_loop (length s) x s t

-- The bytes of a row of the front buffer, and whether it stopped for want of room. `o` counts the
-- bytes that are already written.
unfoldable pub snap_row : ℕ → ℕ → List Cell → List ℕ × Bool
snap_row cap o [] = ([], false)
snap_row cap o (c ∷ cs) =
    let u = utf8_encode c.ch in
    let (rest, stopped) = snap_row cap (o + length u) cs in
    let skipped = snap_row cap o cs in
    if c.ch == 0
    then skipped
    else if leb cap (o + length u + 1)
    then ([], true)
    else (u ++ rest, stopped)

-- The rows that are left, each of `w` cells.
unfoldable pub snap_rows : ℕ → ℕ → ℕ → ℕ → List Cell → List ℕ
unfolding snap_row
snap_rows cap o w zero cs = []
snap_rows cap o w (suc h) cs =
    let (u, stopped) = snap_row cap o (take w cs) in
    let rest = snap_rows cap (o + length u + 1) w h (drop w cs) in
    if stopped then u else if leb cap (o + length u + 1) then u else u ++ (b'\n' ∷ rest)

-- `tc_snapshot`: the bytes before the NUL.
unfoldable pub tc_snapshot : ℕ → Screen → List ℕ
unfolding snap_rows
tc_snapshot cap t =
    if cap == 0 then [] else if is_null t.front then [] else snap_rows cap 0 t.w t.h t.front
