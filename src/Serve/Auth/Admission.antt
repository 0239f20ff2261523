-- ===== src/Serve/Auth/Admission.antt =====
-- src/lserve.c: which requests reach the handler.
use boggart.Base.{
  ℕ, suc, ◌≡◌, ◌↔◌, refl, ◌∙◌, sym, ap, subst, List, [], ◌∷◌, ◌++◌, map, length, take, take-all,
  take-append, drop-append, drop-all, take-append-drop, drop, ◌&&◌, Bool, true, Bool-cases, Option,
  none, some, ◌⊎◌, inl, inr, bytes_eq, bytes_eq_iff, bit_or, bit_xor, bit_or_zero, bit_xor_same,
  bit_xor_self, if◌then◌else◌, arith,
}
use boggart.Serve.Auth.{
  Req, Listener, Gate, forbidden, unauthorized, admitted, ct_differ, ct_equal, lower_letter, bearer,
  localhost, loopback, http, with_port, authority, valid_host, valid_origin, valid_token,
  gate_token, gate_host, gate,
}

ct_differ-zero :
    (d : ℕ) (xs ys : List ℕ) → length xs ≡ length ys → ct_differ d xs ys ≡ 0 → (d ≡ 0) × (xs ≡ ys)
unfolding ct_differ
ct_differ-zero d [] [] h e = (e, refl)
ct_differ-zero d [] (y ∷ ys) h e = absurd (omega arith)
ct_differ-zero d (x ∷ xs) [] h e = absurd (omega arith)
ct_differ-zero d (x ∷ xs) (y ∷ ys) h e =
    let (p, q) = ct_differ-zero (bit_or d (bit_xor x y)) xs ys (omega arith) e in
    let (r, s) = bit_or_zero d (bit_xor x y) p in let t = bit_xor_same x y s in (r, cc (q, t))

ct_differ_self : (xs : List ℕ) → ct_differ 0 xs xs ≡ 0
unfolding ct_differ
ct_differ_self [] = refl
ct_differ_self (x ∷ xs) =
    ap (λ k. ct_differ (bit_or 0 k) xs xs) (bit_xor_self x) ∙ ct_differ_self xs

-- The comparison in constant time tells whether two strings are the same.
pub ct_equal_iff : (xs ys : List ℕ) → (ct_equal xs ys ≡ true) ↔ (xs ≡ ys)
unfolding ct_equal
ct_equal_iff xs ys = (there, back)
  where
    there : ct_equal xs ys ≡ true → xs ≡ ys
    there e =
        let h : length xs ≡ length ys = ground arith in
        let z : ct_differ 0 xs ys ≡ 0 = ground arith in (ct_differ-zero 0 xs ys h z).1

    back : xs ≡ ys → ct_equal xs ys ≡ true
    back e = subst (λ zs. ct_equal xs zs ≡ true) e (self xs)
      where
        self : (xs : List ℕ) → ct_equal xs xs ≡ true
        self xs = ground (arith, ct_differ_self xs)

-- The names that a listener answers to
abbrev pub IsAuthority : Listener → List ℕ → Type 0
IsAuthority s host =
    (host ≡ authority s)
    ⊎ (((s.bound ≡ loopback) ⊎ (s.bound ≡ localhost))
        × ((host ≡ with_port localhost s) ⊎ (host ≡ with_port loopback s)))

-- The origin is not there or is that of the host.
abbrev pub IsOrigin : List ℕ → Option (List ℕ) → Type 0
IsOrigin host origin = (origin ≡ none) ⊎ (origin ≡ some (take 175 (http ++ host)))

-- No token is wanted, or the request carries it behind the scheme, in whatever case that is.
abbrev pub IsBearer : Option (List ℕ) → Option (List ℕ) → Type 0
IsBearer token auth =
    (token ≡ none)
    ⊎ ((t : List ℕ) × (scheme : List ℕ) × (token ≡ some t)
        × (map lower_letter scheme ≡ bearer)
        × (auth ≡ some (scheme ++ t)))

valid_host_iff : (s : Listener) (host : List ℕ) → (valid_host s host ≡ true) ↔ IsAuthority s host
unfolding valid_host
valid_host_iff s host = ground (
  arith,
  bytes_eq_iff host (authority s),
  bytes_eq_iff s.bound loopback,
  bytes_eq_iff s.bound localhost,
  bytes_eq_iff host (with_port localhost s),
  bytes_eq_iff host (with_port loopback s),
)

valid_origin_iff :
    (host : List ℕ) (origin : Option (List ℕ))
    → (valid_origin host origin ≡ true) ↔ IsOrigin host origin
unfolding valid_origin
valid_origin_iff host none = (λ e. inl refl, λ e. refl)
valid_origin_iff host (some origin) =
    let i = bytes_eq_iff origin (take 175 (http ++ host)) in
    (λ e. inr (ap some (i.0 e)), λ e. elim e [ inl n ↦ cc (n) | inr h ↦ i.1 (cc (h)) ])

length-map_lower : (xs : List ℕ) → length (map lower_letter xs) ≡ length xs
length-map_lower [] = refl
length-map_lower (x ∷ xs) = ap suc (length-map_lower xs)

-- What follows the scheme
valid_token_iff :
    (t got : List ℕ)
    → (valid_token t (some got) ≡ true)
      ↔ ((scheme : List ℕ) × (map lower_letter scheme ≡ bearer) × (got ≡ scheme ++ t))
unfolding valid_token
valid_token_iff t got = (there, back)
  where
    there :
        valid_token t (some got) ≡ true
        → (scheme : List ℕ) × (map lower_letter scheme ≡ bearer) × (got ≡ scheme ++ t)
    there e =
        let p : bytes_eq (map lower_letter (take 7 got)) bearer ≡ true = ground (arith, e) in
        let q : ct_equal (drop 7 got) t ≡ true = ground (arith, e) in
        (
          take 7 got,
          (bytes_eq_iff (map lower_letter (take 7 got)) bearer).0 p,
          sym (take-append-drop 7 got)
              ∙ ap (λ z. take 7 got ++ z) ((ct_equal_iff (drop 7 got) t).0 q),
        )

    back :
        (scheme : List ℕ) × (map lower_letter scheme ≡ bearer) × (got ≡ scheme ++ t)
        → valid_token t (some got) ≡ true
    back (scheme, m, e) =
        let l : length scheme ≡ 7 = sym (length-map_lower scheme) ∙ ap length m in
        let front : take 7 got ≡ scheme =
          ap (take 7) e ∙ take-append 7 scheme t (omega arith) ∙ take-all 7 scheme (omega arith) in
        let rest : drop 7 got ≡ t =
          ap (drop 7) e
          ∙ drop-append 7 scheme t (omega arith)
          ∙ ap (λ z. z ++ t) (drop-all 7 scheme (omega arith)) in
        let p =
          (bytes_eq_iff (map lower_letter (take 7 got)) bearer).1
            (ap (map lower_letter) front ∙ m) in
        let q = (ct_equal_iff (drop 7 got) t).1 rest in ground (arith, p, q)

gate_token_iff :
    (token auth : Option (List ℕ)) → (gate_token token auth ≡ admitted) ↔ IsBearer token auth
unfolding gate_token
gate_token_iff none auth = (λ e. inl refl, λ e. refl)
gate_token_iff (some t) none =
    (λ e. cc (e), λ e. elim e [ inl n ↦ cc (n) | inr (u, scheme, a, b, c) ↦ cc (c) ])
gate_token_iff (some t) (some got) = (there, back)
  where
    there : gate_token (some t) (some got) ≡ admitted → IsBearer (some t) (some got)
    there e = elim (Bool-cases (valid_token t (some got))) [
      | inl v ↦
          let (scheme, m, g) = (valid_token_iff t got).0 v in inr (t, scheme, refl, m, ap some g)
      | inr v ↦
          let z : unauthorized ≡ admitted =
            sym (ap (λ b. if b then admitted else unauthorized) v) ∙ e in
          cc (z)
    ]

    back : IsBearer (some t) (some got) → gate_token (some t) (some got) ≡ admitted
    back (inl n) = cc (n)
    back (inr (u, scheme, a, b, c)) =
        let same : u ≡ t = cc (a) in
        let g : got ≡ scheme ++ u = cc (c) in
        let v = (valid_token_iff t got).1 (scheme, b, g ∙ ap (λ z. scheme ++ z) same) in
        rw (v, gate_token) refl

-- It names this listener, comes from no other origin and carries the token, if there is one.
abbrev pub IsAdmitted : Listener → Option (List ℕ) → Req → Type 0
IsAdmitted s name r =
    (host : List ℕ) × (name ≡ some host)
    × IsAuthority s host
    × IsOrigin host r.origin
    × IsBearer s.token r.auth

gate_host_iff :
    (s : Listener) (name : Option (List ℕ)) (r : Req)
    → (gate_host s name r ≡ admitted) ↔ IsAdmitted s name r
unfolding gate_host
gate_host_iff s none r = (λ e. cc (e), λ (host, n, a, o, b). cc (n))
gate_host_iff s (some host) r = (there, back)
  where
    answer : Bool → Gate
    answer b = if b then gate_token s.token r.auth else forbidden

    there : gate_host s (some host) r ≡ admitted → IsAdmitted s (some host) r
    there e = elim (Bool-cases (valid_host s host && valid_origin host r.origin)) [
      | inl v ↦
          let h : valid_host s host ≡ true = ground (arith, v) in
          let o : valid_origin host r.origin ≡ true = ground (arith, v) in
          let t : gate_token s.token r.auth ≡ admitted = sym (ap answer v) ∙ e in
          (
            host,
            refl,
            (valid_host_iff s host).0 h,
            (valid_origin_iff host r.origin).0 o,
            (gate_token_iff s.token r.auth).0 t,
          )
      | inr v ↦ let z : forbidden ≡ admitted = sym (ap answer v) ∙ e in cc (z)
    ]

    back : IsAdmitted s (some host) r → gate_host s (some host) r ≡ admitted
    back (other, n, a, o, b) =
        let same : other ≡ host = cc (n) in
        let h = (valid_host_iff s host).1 (subst (IsAuthority s) same a) in
        let g = (valid_origin_iff host r.origin).1 (subst (λ x. IsOrigin x r.origin) same o) in
        let v : valid_host s host && valid_origin host r.origin ≡ true = ground (arith, h, g) in
        ap answer v ∙ (gate_token_iff s.token r.auth).1 b

-- The checks let a request through exactly if it names this listener, comes from no other origin and carries
-- the token, if there is one.
pub gate-admitted : (s : Listener) (r : Req) → (gate s r ≡ admitted) ↔ IsAdmitted s r.host r
unfolding gate
gate-admitted s r = gate_host_iff s r.host r
