-- ===== src/Tests/Screens.antt =====
-- Runs of src/termctl.c.
use boggart.Base.{ℕ, ◌≡◌, refl, [], ◌∷◌, ◌++◌, arith}
use boggart.Base.Int.{pos, negsuc}
use boggart.Term.Utf8.{utf8_encode, utf8_decode, utf8_len}
use boggart.Term.Utf8.RoundTrip.{decode-encode}
use boggart.Term.Width.{tc_wcwidth}
use boggart.Term.Grid.{Screen, alloc_grid, tc_set}
use boggart.Term.Grid.Sound.{IsSound, alloc_grid-IsSound, tc_set-IsSound, WideRight}
use boggart.Term.Grid.Orphan.{LeavesHalf, tc_set-orphan}
use boggart.Term.Puts.{tc_puts}
use boggart.Term.Puts.Points.{encode_all, put_points, tc_puts-encode}

-- U+20AC and U+4E2D
abbrev euro : ℕ
euro = 0x20AC

abbrev middle : ℕ
middle = 0x4E2D

abbrev small : Screen
small = alloc_grid 4 2

decode-encode_example :
    (utf8_len 0xE2 ≡ 3) × (utf8_decode (utf8_encode euro ++ (b'!' ∷ [])) 3 ≡ euro)
unfolding utf8_encode
decode-encode_example = decode-encode euro (b'!' ∷ [])

nothing_wide : ¬ WideRight 1 1 small
unfolding alloc_grid tc_wcwidth
nothing_wide h = omega (arith, h.1)

tc_set-IsSound_example : IsSound (tc_set (pos 1) (pos 1) middle (pos 300) (negsuc 0) 1 small)
tc_set-IsSound_example =
    tc_set-IsSound 1 1 middle (pos 300) (negsuc 0) 1 small (alloc_grid-IsSound 4 2) (omega arith)
      (λ e. nothing_wide)

tc_puts-encode_example :
    tc_puts
      (pos 0)
      (negsuc 0)
      (negsuc 0)
      0
      (pos 0)
      (encode_all (euro ∷ middle ∷ 0 ∷ euro ∷ []))
      small
    ≡ put_points (pos 0) (negsuc 0) (negsuc 0) 0 (pos 0) (euro ∷ middle ∷ 0 ∷ euro ∷ []) small
tc_puts-encode_example =
    tc_puts-encode (pos 0) (negsuc 0) (negsuc 0) 0 (pos 0) (euro ∷ middle ∷ 0 ∷ euro ∷ []) small

abbrev wide_pair : Screen
wide_pair = tc_set (pos 1) (pos 0) middle (negsuc 0) (negsuc 0) 0 small

nothing_wide_above : ¬ WideRight 1 0 small
unfolding alloc_grid tc_wcwidth
nothing_wide_above h = omega (arith, h.1)

wide_pair-IsSound : IsSound wide_pair
wide_pair-IsSound =
    tc_set-IsSound 1 0 middle (negsuc 0) (negsuc 0) 0 small (alloc_grid-IsSound 4 2) (omega arith)
      (λ e. nothing_wide_above)

begins_wide : WideRight 0 0 wide_pair
unfolding tc_set alloc_grid tc_wcwidth
begins_wide = (omega arith, refl)

tc_set-orphan_example :
    LeavesHalf middle (tc_set (pos 0) (pos 0) middle (negsuc 0) (negsuc 0) 0 wide_pair).back 0
    × (¬ IsSound (tc_set (pos 0) (pos 0) middle (negsuc 0) (negsuc 0) 0 wide_pair))
unfolding tc_set alloc_grid tc_wcwidth
tc_set-orphan_example =
    tc_set-orphan 0 0 middle (negsuc 0) (negsuc 0) 0 wide_pair wide_pair-IsSound (omega arith) refl
      begins_wide
