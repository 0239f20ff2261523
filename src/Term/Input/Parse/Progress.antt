-- ===== src/Term/Input/Parse/Progress.antt =====
-- src/termctl.c: how much of the input `parse_one` takes.
use boggart.Base.{
  ℕ, zero, suc, ◌+◌, ◌-◌, ◌*◌, ◌≤◌, ◌<◌, ◌≡◌, refl, ltb, ◌==◌, ◌&&◌, ◌||◌, Bool, true, false, not,
  List, [], ◌∷◌, take, drop, get_or, length, length-take, length-drop, some, Option-cases, inl, inr,
  if◌then◌else◌, arith,
}
use boggart.Term.Utf8.{utf8_len}
use boggart.Term.Input.{Input, at, paste_append}
use boggart.Term.Input.Csi.{add_param, cap_param, Csi, csi_scan, find_mouse_end}
use boggart.Term.Input.Escape.{
  Parsed, unfinished, parse_alt, parse_x10, parse_sgr, parse_tilde, csi_mods, parse_final,
  parse_csi, parse_escape,
}
use boggart.Term.Input.Parse.{find_paste_end, parse_paste, parse_plain, parse_one}

-- At most `bound` bytes are taken, at least one where no more can come, and the buffer is left as it is.
pub record Advances (bound : ℕ) (t : Input) (r : Parsed) : Type 0 where
  pub at_most : r.used ≤ bound
  pub some_byte : t.eof ≡ true → 0 < r.used
  pub kept : r.input.inlen ≡ t.inlen

unfinished-Advances : (t : Input) → 0 < t.inlen → Advances t.inlen t (unfinished t)
unfinished-Advances t h = ground arith

paste_append-inlen : (s : List ℕ) (t : Input) → (paste_append s t).inlen ≡ t.inlen
unfolding paste_append
paste_append-inlen s t = ground arith

find_paste_end-lt :
    (t : Input) (fuel i end : ℕ) → find_paste_end t fuel i ≡ some end → end + 5 ≤ t.inlen
unfolding find_paste_end
find_paste_end-lt t zero i end e = cc
find_paste_end-lt t (suc fuel) i end e = ground (arith, find_paste_end-lt t fuel (i + 1) end)

parse_paste-Advances : (t : Input) → 0 < t.inlen → Advances (t.inlen + 1) t (parse_paste t)
unfolding parse_paste
parse_paste-Advances t h = elim (Option-cases (find_paste_end t (t.inlen + 1) 0)) [
  | inl e ↦ rw (e, parse_paste) (ground (arith, paste_append-inlen (take t.inlen t.inbuf) t))
  | inr (end, e) ↦
      rw (e, parse_paste)
        (ground (
          arith,
          paste_append-inlen (take end t.inbuf) t,
          find_paste_end-lt t (t.inlen + 1) 0 end e,
        ))
]

pub utf8_len-pos : (c : ℕ) → 1 ≤ utf8_len c
unfolding utf8_len
utf8_len-pos c = ground arith

parse_alt-Advances : (t : Input) → 1 < t.inlen → Advances t.inlen t (parse_alt t)
unfolding parse_alt
parse_alt-Advances t h = ground (arith, utf8_len-pos (at t 1), unfinished-Advances t)

parse_x10-Advances : (t : Input) → 2 < t.inlen → Advances t.inlen t (parse_x10 t)
unfolding parse_x10
parse_x10-Advances t h = ground arith

length-rest : (k n : ℕ) (b : List ℕ) → length (drop k (take n b)) ≤ n - k
length-rest k n b = omega (arith, length-drop k (take n b), length-take n b)

find_mouse_end-lt :
    (b : List ℕ) (i fin : ℕ) → find_mouse_end b i ≡ some fin → fin + 1 ≤ i + length b
unfolding find_mouse_end
find_mouse_end-lt [] i fin e = cc
find_mouse_end-lt (c ∷ b) i fin e = ground (arith, find_mouse_end-lt b (i + 1) fin)

parse_sgr-Advances : (t : Input) → 2 < t.inlen → Advances t.inlen t (parse_sgr t)
unfolding parse_sgr
parse_sgr-Advances t h = elim (Option-cases (find_mouse_end (drop 3 (take t.inlen t.inbuf)) 3)) [
  | inl e ↦ rw (e, parse_sgr) (unfinished-Advances t (omega arith))
  | inr (fin, e) ↦
      let l = find_mouse_end-lt (drop 3 (take t.inlen t.inbuf)) 3 fin e in
      let k = length-rest 3 t.inlen t.inbuf in
      rw (e, parse_sgr)
        (record { at_most = omega arith; some_byte = λ z. omega arith; kept = refl })
]

csi_scan-lt :
    (b : List ℕ) (i : ℕ) (params : List ℕ) (cur : ℕ) (saw_digit : Bool) (s : Csi)
    → csi_scan b i params cur saw_digit ≡ some s
    → (i < s.used) × (s.used ≤ i + length b)
unfolding csi_scan
csi_scan-lt [] i params cur saw_digit s e = cc
csi_scan-lt (c ∷ b) i params cur saw_digit s e = ground (
  arith,
  csi_scan-lt b (i + 1) params (cap_param (cur * 10 + (c - b'0'))) true s,
  csi_scan-lt b (i + 1) (add_param params cur) 0 false s,
)

parse_tilde-Advances :
    (num mods i : ℕ) (t : Input)
    → 0 < i
    → i ≤ t.inlen
    → Advances t.inlen t (parse_tilde num mods i t)
parse_tilde-Advances num mods i t h k = ground arith

parse_final-Advances :
    (s : Csi) (t : Input) → 0 < s.used → s.used ≤ t.inlen → Advances t.inlen t (parse_final s t)
parse_final-Advances s t h k =
    ground (arith, parse_tilde-Advances (get_or s.params 0 0) (csi_mods s.params) s.used t)

parse_csi-Advances : (t : Input) → 2 < t.inlen → Advances t.inlen t (parse_csi t)
unfolding parse_csi
parse_csi-Advances t h =
    elim (Option-cases (csi_scan (drop 2 (take t.inlen t.inbuf)) 2 [] 0 false)) [
      | inl e ↦ rw (e, parse_csi) (unfinished-Advances t (omega arith))
      | inr (s, e) ↦
          let l = csi_scan-lt (drop 2 (take t.inlen t.inbuf)) 2 [] 0 false s e in
          let k = length-rest 2 t.inlen t.inbuf in
          rw (e, parse_csi) (parse_final-Advances s t (omega arith) (omega arith))
    ]

choose-Advances :
    {n : ℕ} {t : Input} (c : Bool) {r s : Parsed}
    → (c ≡ true → Advances n t r)
    → (c ≡ false → Advances n t s)
    → Advances n t (if c then r else s)
choose-Advances true f g = f refl
choose-Advances false f g = g refl

parse_escape-Advances : (t : Input) → 0 < t.inlen → Advances t.inlen t (parse_escape t)
unfolding parse_escape
parse_escape-Advances t h =
    choose-Advances (t.inlen == 1) (λ e. unfinished-Advances t h)
      (λ e.
        let h₂ : 1 < t.inlen = ground arith in
        choose-Advances (not ((at t 1 == b'[') || (at t 1 == b'O'))) (λ f. parse_alt-Advances t h₂)
          (λ f.
            choose-Advances (ltb t.inlen 3) (λ g. unfinished-Advances t h)
              (λ g.
                let h₃ : 2 < t.inlen = ground arith in
                choose-Advances ((at t 1 == b'[') && (at t 2 == b'M'))
                  (λ k. parse_x10-Advances t h₃)
                  (λ k.
                    choose-Advances ((at t 1 == b'[') && (at t 2 == b'<'))
                      (λ l. parse_sgr-Advances t h₃) (λ l. parse_csi-Advances t h₃)))))

parse_plain-Advances : (t : Input) → 0 < t.inlen → Advances t.inlen t (parse_plain t)
unfolding parse_plain
parse_plain-Advances t h = ground (arith, utf8_len-pos (at t 0))

-- Where there is input, `parse_one` takes no more of it than there is, but for one byte inside a paste;
-- at the end of the input it takes at least one byte.
pub parse_one-Advances :
    (t : Input)
    → 0 < t.inlen
    → Advances (if t.pasting then t.inlen + 1 else t.inlen) t (parse_one t)
unfolding parse_one
parse_one-Advances t h =
    ground (arith, parse_paste-Advances t, parse_escape-Advances t, parse_plain-Advances t)
