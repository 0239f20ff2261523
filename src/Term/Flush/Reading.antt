-- ===== src/Term/Flush/Reading.antt =====
-- The terminal reads each piece of the output of `tc_flush` of src/termctl.c as what it stands for.
use boggart.Base.{
  ℕ, zero, suc, ◌+◌, ◌-◌, ◌*◌, ◌/◌, ◌%◌, ◌≤◌, ◌<◌, ◌≡◌, ◌≢◌, refl, ◌∙◌, sym, ap, ◌==◌, List, [],
  ◌∷◌, ◌++◌, append_assoc, append-nil, length, Bool-cases, true, inl, inr, arith,
}
use boggart.Term.Utf8.{utf8_len, utf8_decode, utf8_encode, scalar, byte}
use boggart.Term.Utf8.RoundTrip.{decode-encode}
use boggart.Term.Flush.{uint_digits, ob_uint, ob_cup}
use boggart.Term.Flush.Display.{Display, write_glyph}
use boggart.Term.Flush.Terminal.{Mode, plain, control, inside, finish, feed_byte, feed}

pub feed-append :
    (w : ℕ) (xs ys : List ℕ) (s : Mode × Display) → feed w (xs ++ ys) s ≡ feed w ys (feed w xs s)
unfolding feed
feed-append w [] ys s = refl
feed-append w (c ∷ xs) ys s = feed-append w xs ys (feed_byte w c s.0 s.1)

-- The numbers of so many digits are below this.
abbrev pub ten_to : ℕ → ℕ
ten_to zero = 1
ten_to (suc n) = 10 * ten_to n

pub digit_lem :
    (w k n : ℕ) (ps : List ℕ) (d : Display)
    → k < 10
    → feed_byte w (b'0' + k) (control ps n) d ≡ (control ps (n * 10 + k), d)
unfolding feed_byte
digit_lem w k n ps d h = ground arith

digits_lem :
    (w fuel v : ℕ) (ps : List ℕ) (d : Display)
    → v < ten_to fuel
    → feed w (uint_digits fuel v) (control ps 0, d) ≡ (control ps v, d)
unfolding uint_digits feed
digits_lem w zero v ps d h = ap (λ (n : ℕ). (control ps n, d)) (omega arith)
digits_lem w (suc fuel) v ps d h =
    let last = digit_lem w (v % 10) (v / 10) ps d (omega arith) in
    let whole : v / 10 * 10 + v % 10 ≡ v = omega arith in
    elim (Bool-cases (v / 10 == 0)) [
      | inl e ↦ rw e (single e)
      | inr e ↦ rw e (
          feed-append w (uint_digits fuel (v / 10)) ((b'0' + v % 10) ∷ []) (control ps 0, d)
          ∙ ap (feed w ((b'0' + v % 10) ∷ [])) (digits_lem w fuel (v / 10) ps d (omega arith))
          ∙ last
          ∙ ap (λ (n : ℕ). (control ps n, d)) whole)
    ]
  where
    single : (v / 10 == 0) ≡ true → feed_byte w (b'0' + v % 10) (control ps 0) d ≡ (control ps v, d)
    single e =
        digit_lem w (v % 10) 0 ps d (omega arith) ∙ ap (λ (n : ℕ). (control ps n, d)) (ground arith)

pub ob_uint-feed :
    (w v : ℕ) (ps : List ℕ) (d : Display)
    → v < ten_to 12
    → feed w (ob_uint v) (control ps 0, d) ≡ (control ps v, d)
unfolding ob_uint
ob_uint-feed w v ps d h = digits_lem w 12 v ps d h

pub ob_cup-feed :
    (w x y : ℕ) (d : Display)
    → x + 1 < ten_to 12
    → y + 1 < ten_to 12
    → feed w (ob_cup x y) (plain, d) ≡ (plain, record d { col = x; row = y })
unfolding ob_cup feed feed_byte finish
ob_cup-feed w x y d h k =
    feed-append w (ob_uint (y + 1)) _ (control [] 0, d)
    ∙ ap (feed w (b';' ∷ (ob_uint (x + 1) ++ (b'H' ∷ [])))) (ob_uint-feed w (y + 1) [] d k)
    ∙ feed-append w (ob_uint (x + 1)) (b'H' ∷ []) (control ((y + 1) ∷ []) 0, d)
    ∙ ap (feed w (b'H' ∷ [])) (ob_uint-feed w (x + 1) ((y + 1) ∷ []) d h)
    ∙ moved
  where
    moved :
        ◌≡◌ {A = Mode × Display}
          (plain, record d { col = x + 1 - 1; row = y + 1 - 1 })
          (plain, record d { col = x; row = y })
    moved =
        ap (λ (n : ℕ). (plain, record d { col = n; row = y + 1 - 1 })) (omega arith)
        ∙ ap (λ (n : ℕ). (plain, record d { col = x; row = n })) (omega arith)

-- The bytes of a character that are to come
inside_lem :
    (w : ℕ) (bs : List ℕ) (c : ℕ) (cs : List ℕ) (d : Display)
    → feed w (c ∷ cs) (inside bs (length (c ∷ cs)), d)
      ≡ (plain, write_glyph w (utf8_decode (bs ++ (c ∷ cs)) (length (bs ++ (c ∷ cs)))) d)
unfolding feed feed_byte
inside_lem w bs c [] d = refl
inside_lem w bs c (e ∷ cs) d =
    ap (feed w (e ∷ cs)) (taken w c bs (length cs) d)
    ∙ inside_lem w (bs ++ (c ∷ [])) e cs d
    ∙ ap (λ (u : List ℕ). (plain, write_glyph w (utf8_decode u (length u)) d))
        (append_assoc bs (c ∷ []) (e ∷ cs))
  where
    taken :
        (w c : ℕ) (bs : List ℕ) (n : ℕ) (d : Display)
        → feed_byte w c (inside bs (suc (suc n))) d ≡ (inside (bs ++ (c ∷ [])) (suc n), d)
    taken w c bs n d = ground arith

bytes_lem :
    (w cp : ℕ) (u : List ℕ) (d : Display)
    → utf8_len (byte u 0) ≡ length u
    → utf8_decode u (length u) ≡ cp
    → byte u 0 ≢ 0x1b
    → feed w u (plain, d) ≡ (plain, write_glyph w cp d)
unfolding feed feed_byte utf8_len
bytes_lem w cp [] d e f ne = absurd (ground arith)
bytes_lem w cp (c ∷ []) d e f ne = ground (arith, ap (λ n. write_glyph w n d) f)
bytes_lem w cp (c ∷ e ∷ cs) d l f ne =
    ap (feed w (e ∷ cs)) (led w c (length cs) d l ne)
    ∙ inside_lem w (c ∷ []) e cs d
    ∙ ap (λ n. (plain, write_glyph w n d)) f
  where
    led :
        (w c n : ℕ) (d : Display)
        → utf8_len c ≡ suc (suc n)
        → c ≢ 0x1b
        → feed_byte w c plain d ≡ (inside (c ∷ []) (suc n), d)
    led w c n d l ne = ground arith

no_escape :
    (u : List ℕ) (cp : ℕ)
    → 0x20 ≤ cp
    → utf8_len (byte u 0) ≡ length u
    → utf8_decode u (length u) ≡ cp
    → byte u 0 ≢ 0x1b
unfolding utf8_len utf8_decode
no_escape u cp h e g k =
    let one : length u ≡ 1 = sym e ∙ ap utf8_len k in
    omega (arith, h, k, sym (ap (utf8_decode u) one) ∙ g)

-- A printable character
pub glyph-feed :
    (w cp : ℕ) (d : Display)
    → 0x20 ≤ cp
    → scalar cp ≡ cp
    → feed w (utf8_encode cp) (plain, d) ≡ (plain, write_glyph w cp d)
glyph-feed w cp d h s =
    let u = utf8_encode cp in
    let (e, f) = decode-encode cp [] in
    let g : utf8_decode u (length u) ≡ cp =
      ap (λ v. utf8_decode v (length u)) (sym (append-nil u)) ∙ f ∙ s in
    bytes_lem w cp u d e g (no_escape u cp h e g)
