-- ===== src/Bus/Glob.antt =====
-- src/lbus.c, `glob_match`: the iterative wildcard match, on fuel. A C string is the list of its
-- bytes before the NUL. The fuel that `glob_match` takes is enough (Glob/Correct).
pub mod Spec
pub mod Track
pub mod Correct
use boggart.Base.{
  ℕ, zero, suc, ◌+◌, ◌*◌, ◌==◌, List, [], ◌∷◌, Option, none, some, Bool, true, false, length,
  if◌then◌else◌,
}

abbrev pub star : ℕ
star = b'*'

-- `while (*p == '*') p++; return *p == 0;`
unfoldable pub only_stars : List ℕ → Bool
only_stars [] = true
only_stars (d ∷ p) = if d == star then only_stars p else false

-- `++ss`. It is called on a string that is not at its NUL.
abbrev pub advance : List ℕ → List ℕ
advance [] = []
advance (c ∷ s) = s

-- The last `*` seen: the pattern behind it, and where in the text it stands (`star`, `ss`).
abbrev pub Mark : Type 0
Mark = Option (List ℕ × List ℕ)

-- The loop at `p`, `s`, `star` and `ss`; `none` means that the fuel ran out.
unfoldable pub glob_loop : ℕ → List ℕ → List ℕ → Mark → Option Bool
unfolding only_stars
glob_loop zero p s mark = none
glob_loop (suc fuel) p [] mark = some (only_stars p)
glob_loop (suc fuel) [] (c ∷ s) mark = elim mark [
  | none ↦ some false
  | some (q, ss) ↦ glob_loop fuel q (advance ss) (some (q, advance ss))
]
glob_loop (suc fuel) (d ∷ p) (c ∷ s) mark = elim (d == star) [
  | true ↦ glob_loop fuel p (c ∷ s) (some (p, c ∷ s))
  | false ↦ elim (d == c) [
    | true ↦ glob_loop fuel p s mark
    | false ↦ elim mark [
      | none ↦ some false
      | some (q, ss) ↦ glob_loop fuel q (advance ss) (some (q, advance ss))
    ]
  ]
]

unfoldable pub glob_match : List ℕ → List ℕ → Option Bool
unfolding glob_loop
glob_match p s = glob_loop (suc (length s * suc (length p) + length p)) p s none

-- The result as an `int`, for the callers.
unfoldable pub globs : List ℕ → List ℕ → Bool
unfolding glob_match
globs p s = elim (glob_match p s) [ none ↦ false | some b ↦ b ]
