-- ===== src/Term/Puts/Snapshot.antt =====
-- `tc_snapshot` of src/termctl.c never writes past its buffer.
use boggart.Base.{
  ℕ, zero, suc, ◌+◌, ◌≤◌, ◌<◌, List, [], ◌∷◌, length, length-append, take, drop, arith,
}
use boggart.Term.Utf8.{utf8_encode}
use boggart.Term.Grid.{Cell, Screen}
use boggart.Term.Puts.{snap_row, snap_rows, tc_snapshot}

snap_row_fits : (cap o : ℕ) (cs : List Cell) → o < cap → o + length (snap_row cap o cs).0 < cap
unfolding snap_row
snap_row_fits cap o [] h = omega arith
snap_row_fits cap o (c ∷ cs) h = ground (
  arith,
  snap_row_fits cap o cs h,
  snap_row_fits cap (o + length (utf8_encode c.ch)) cs,
  length-append (utf8_encode c.ch) (snap_row cap (o + length (utf8_encode c.ch)) cs).0,
)

snap_rows_fit :
    (cap o w h : ℕ) (cs : List Cell) → o < cap → o + length (snap_rows cap o w h cs) < cap
unfolding snap_rows
snap_rows_fit cap o w zero cs k = omega arith
snap_rows_fit cap o w (suc h) cs k =
    let u = (snap_row cap o (take w cs)).0 in
    ground (
      arith,
      snap_row_fits cap o (take w cs) k,
      snap_rows_fit cap (o + length u + 1) w h (drop w cs),
      length-append u (b'\n' ∷ snap_rows cap (o + length u + 1) w h (drop w cs)),
    )

-- The bytes and the NUL behind them fit a buffer of any size but 0.
pub tc_snapshot-lt : (cap : ℕ) (t : Screen) → 0 < cap → length (tc_snapshot cap t) + 1 ≤ cap
unfolding tc_snapshot
tc_snapshot-lt cap t h = ground (arith, snap_rows_fit cap 0 t.w t.h t.front h)
