-- ===== src/Tests/Files.antt =====
-- Runs of the model of src/lview.c.
use boggart.Base.{
  ℕ, ◌≡◌, refl, ◌↔◌, List, [], ◌∷◌, Bool, true, false, Option, none, some, inl, arith,
}
use boggart.Views.Lines.{lines, starts, marks}
use boggart.Views.State.{View, File, shrunk}
use boggart.Views.Index.Indexed.{IsIndexed}
use boggart.Views.Read.{guard, l_line}
use boggart.Views.Read.Answers.{Answers}
use boggart.Views.Tail.{l_tail, table}
use boggart.Views.Tail.Last.{l_tail-lines}
use boggart.Views.Find.{l_find}
use boggart.Views.Find.Hits.{IsHit, l_find-IsHit}
use boggart.Views.Life.{idle, Holders, opened, l_open, work_cb}
use boggart.Views.Life.Held.{Reached-freed, Reached-l_line}
use boggart.Views.Life.Worker.{work_cb-ends}

abbrev memory : ℕ → Bool
memory n = true

-- "ab\ncd\n"
abbrev two_lines : List ℕ
two_lines = b'a' ∷ b'b' ∷ b'\n' ∷ b'c' ∷ b'd' ∷ b'\n' ∷ []

abbrev two_file : File
two_file = record {
  bytes = two_lines;
  maps = true;
  reads = true;
  regular = true;
  id = record { st_ino = 7; st_dev = 1; st_size = 6 };
}

abbrev fresh : View
fresh = record {
  base = two_lines;
  mapped = true;
  ino = 7;
  dev = 1;
  has_offs = false;
  offs = [];
  cap = 0;
  scanned = 0;
  complete = false;
  refs = 1;
  job = false;
  closing = false;
}

abbrev indexed : View
indexed = record fresh {
  has_offs = true;
  offs = 0 ∷ 3 ∷ [];
  cap = 1024;
  scanned = 6;
  complete = true;
}

abbrev held : Holders
held = record { view = some indexed; user = true; work = idle }

opens_held : l_open memory true true (some two_file) ≡ some held
unfolding l_open
opens_held = refl

fresh-IsIndexed : IsIndexed fresh
fresh-IsIndexed = inl (refl, refl, refl, refl)

-- A file that was replaced by a longer one is read as it was; one that shrank is not read.
line_now :
    l_line memory (some (record { st_ino = 8; st_dev = 1; st_size = 9 })) indexed 2
    ≡ some (indexed, some (b'c' ∷ b'd' ∷ []))
unfolding l_line
line_now = refl

line_shrunk : l_line memory (some (record { st_ino = 7; st_dev = 1; st_size = 5 })) indexed 2 ≡ none
unfolding l_line
line_shrunk = refl

find_cd : l_find memory none fresh (b'd' ∷ []) 1 ≡ some (indexed, some (2, 2))
unfolding l_find
find_cd = refl

-- From a line behind the last one, the search begins at the first line.
find_behind : l_find memory none indexed (b'b' ∷ []) 9 ≡ some (indexed, some (1, 2))
unfolding l_find
find_behind = refl

tail_one : l_tail memory none fresh 1 ≡ table ((b'c' ∷ b'd' ∷ []) ∷ [])
unfolding l_tail
tail_one = refl

Reached-l_line_example :
    Answers none indexed (some (b'c' ∷ b'd' ∷ [])) (l_line memory none indexed 2)
unfolding lines
Reached-l_line_example =
    Reached-l_line memory (λ n. refl) held indexed none 1
      (opened true true (some two_file) held opens_held) refl

l_tail-lines_example : l_tail memory none fresh 1 ≡ table ((b'c' ∷ b'd' ∷ []) ∷ [])
unfolding lines shrunk
l_tail-lines_example = l_tail-lines memory none fresh 1

l_find-IsHit_example :
    (r : View) × (o : Option (ℕ × ℕ)) × (l_find memory none fresh (b'd' ∷ []) 2
      ≡ guard none fresh (r, o))
    × IsIndexed r
    × (r.base ≡ two_lines)
    × IsHit two_lines (b'd' ∷ []) 3 o
unfolding starts marks
l_find-IsHit_example =
    l_find-IsHit memory (λ n. refl) none fresh (b'd' ∷ []) 2 fresh-IsIndexed (omega arith)

Reached-freed_example : (held.view ≡ none) ↔ ((held.user ≡ false) × (held.work ≡ idle))
Reached-freed_example =
    Reached-freed memory (λ n. refl) held (opened true true (some two_file) held opens_held)

work_cb-ends_example :
    (let r = work_cb memory 6 fresh in
      (r.1 ≡ true) × (false ≡ false → (r.0.complete ≡ true) × (r.0.offs ≡ 0 ∷ 3 ∷ [])))
unfolding starts marks
work_cb-ends_example = work_cb-ends memory (λ n. refl) fresh fresh-IsIndexed (omega arith)
