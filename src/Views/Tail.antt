-- ===== src/Views/Tail.antt =====
-- src/lview.c: `l_tail`, which reads the last lines of a view backwards and needs no index.
pub mod Parts
pub mod Last
use boggart.Base.{
  ℕ, zero, suc, ◌+◌, ◌-◌, ◌*◌, ◌/◌, ◌%◌, ◌^◌, List, [], ◌∷◌, ◌++◌, map, length, take, drop, get_or,
  ltb, leb, ◌==◌, ◌&&◌, ◌||◌, not, Bool, true, false, Option, none, some, if◌then◌else◌,
}
use boggart.Views.State.{View, Stat, shrunk}
use boggart.Views.Read.{guard}

-- The inner loop: back to the start of the line that ends at `e`
unfoldable pub line_start : List ℕ → ℕ → ℕ
line_start base zero = 0
line_start base (suc s) =
    let back = line_start base s in if get_or base s 0 == b'\n' then suc s else back

-- The spans of at most `n` lines, the last first
unfoldable pub tail_spans : List ℕ → ℕ → ℕ → List (ℕ × ℕ)
unfolding line_start
tail_spans base zero e = []
tail_spans base (suc n) e =
    let s = line_start base e in
    let before = tail_spans base n (s - 1) in (s, e) ∷ (if (n == 0) || (s == 0) then [] else before)

-- The table is filled from the last span on.
abbrev pub to_table : List ℕ → List (ℕ × ℕ) → List (List ℕ)
to_table base [] = []
to_table base ((s, e) ∷ spans) = to_table base spans ++ take (e - s) (drop s base) ∷ []

-- Where the last line ends
unfoldable pub text_end : List ℕ → ℕ
text_end base = if get_or base (length base - 1) 0 == b'\n' then length base - 1 else length base

-- How `l_tail` ends: an error is raised, for a file that shrank or for no memory; it writes past the two
-- arrays that it has; or it fills the table.
pub data TailEnd : Type 0 where
  raised : TailEnd
  overruns : TailEnd
  table : List (List ℕ) → TailEnd

-- What `malloc` is asked for, with the wrap-around of `n * sizeof(size_t)`
abbrev pub tail_memory : ℕ → ℕ
tail_memory n = n * 8 % 2 ^ 64

unfoldable pub l_tail : (ℕ → Bool) → Option Stat → View → ℕ → TailEnd
unfolding shrunk tail_spans text_end
l_tail alloc now st n =
    let spans = tail_spans st.base n (text_end st.base) in
    if shrunk now st
    then raised
    else if (n == 0) || (length st.base == 0)
    then table []
    else if not (alloc (tail_memory n))
    then raised
    else if ltb (tail_memory n / 8) (length spans)
    then overruns
    else table (to_table st.base spans)
