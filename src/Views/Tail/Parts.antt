-- ===== src/Views/Tail/Parts.antt =====
-- src/lview.c: how the newlines of a text part its lines, and what lies between two of them.
use boggart.Base.{
  ℕ, zero, suc, ◌≤◌, ◌<◌, ◌≡◌, refl, ◌∙◌, sym, ap, List, [], ◌∷◌, ◌++◌, length, get_or, ◌==◌, true,
  false, Bool-cases, inl, inr, if◌then◌else◌, arith,
}
use boggart.Views.Lines.{lines, to_first}
use boggart.Views.Tail.{line_start}

pub line_start-le : (base : List ℕ) (e : ℕ) → line_start base e ≤ e
unfolding line_start
line_start-le base zero = omega arith
line_start-le base (suc e) = ground (arith, line_start-le base e)

-- There is no newline between the start of a line and its end.
pub line_start-free :
    (base : List ℕ) (e j : ℕ) → line_start base e ≤ j → j < e → (get_or base j 0 == b'\n') ≡ false
unfolding line_start
line_start-free base zero j h k = absurd (omega arith)
line_start-free base (suc e) j h k = elim (Bool-cases (get_or base e 0 == b'\n')) [
  | inl t ↦ absurd (ground arith)
  | inr t ↦ elim (Bool-cases (j == e)) [
    | inl q ↦ let same : j ≡ e = ground arith in rw same t
    | inr q ↦ line_start-free base e j (ground arith) (ground arith)
  ]
]

pub line_start-newline :
    (base : List ℕ) (e s : ℕ) → line_start base e ≡ suc s → (get_or base s 0 == b'\n') ≡ true
unfolding line_start
line_start-newline base zero s h = absurd (omega arith)
line_start-newline base (suc e) s h = elim (Bool-cases (get_or base e 0 == b'\n')) [
  | inl t ↦ let same : s ≡ e = ground arith in rw same t
  | inr t ↦ line_start-newline base e s (ground arith)
]

-- A line without a newline in it
pub lines-free :
    (y : List ℕ)
    → ((j : ℕ) → j < length y → (get_or y j 0 == b'\n') ≡ false)
    → lines (y ++ b'\n' ∷ []) ≡ y ∷ []
unfolding lines
lines-free [] h = refl
lines-free (x ∷ y) h =
    rw (h 0 (omega arith)) (ap (to_first x) (lines-free y (λ j k. h (suc j) (omega arith))))

to_first-append :
    (x : ℕ) (l : List ℕ) (ls ms : List (List ℕ))
    → to_first x ((l ∷ ls) ++ ms) ≡ to_first x (l ∷ ls) ++ ms
to_first-append x l ls ms = refl

lines-some :
    (xs zs : List ℕ) → (l : List ℕ) × (ls : List (List ℕ)) × (lines (xs ++ b'\n' ∷ zs) ≡ l ∷ ls)
unfolding lines
lines-some [] zs = ([], lines zs, refl)
lines-some (x ∷ xs) zs = elim (Bool-cases (x == b'\n')) [
  | inl t ↦ ([], lines (xs ++ b'\n' ∷ zs), rw t refl)
  | inr t ↦ let (l, ls, e) = lines-some xs zs in (x ∷ l, ls, rw t (ap (to_first x) e))
]

-- A newline parts the lines before it from those behind it.
pub lines-append :
    (xs zs : List ℕ) → lines (xs ++ b'\n' ∷ zs) ≡ lines (xs ++ b'\n' ∷ []) ++ lines zs
unfolding lines
lines-append [] zs = refl
lines-append (x ∷ xs) zs = elim (Bool-cases (x == b'\n')) [
  | inl t ↦ rw t (ap (λ ls. [] ∷ ls) (lines-append xs zs))
  | inr t ↦
      let (l, ls, e) = lines-some xs [] in
      rw t (
        ap (to_first x) (lines-append xs zs ∙ ap (λ q. q ++ lines zs) e)
        ∙ ap (λ q. to_first x q ++ lines zs) (sym e))
]

-- The last line may do without its newline.
pub lines-closed :
    (xs : List ℕ) (n : ℕ)
    → length xs ≡ suc n
    → (get_or xs n 0 == b'\n') ≡ false
    → lines (xs ++ b'\n' ∷ []) ≡ lines xs
unfolding lines
lines-closed [] n h k = absurd (omega arith)
lines-closed (x ∷ []) zero h k = rw k refl
lines-closed (x ∷ []) (suc n) h k = absurd (omega arith)
lines-closed (x ∷ y ∷ ys) zero h k = absurd (omega arith)
lines-closed (x ∷ y ∷ ys) (suc n) h k =
    ap (λ ls. if x == b'\n' then [] ∷ ls else to_first x ls)
      (lines-closed (y ∷ ys) n (omega arith) k)
