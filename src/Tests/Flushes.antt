-- ===== src/Tests/Flushes.antt =====
-- Runs of `tc_flush` of src/termctl.c.
use boggart.Base.Int.{pos, negsuc}
use boggart.Term.Grid.{Screen, blank_cell, alloc_grid}
use boggart.Term.Flush.Display.{Display}
use boggart.Term.Flush.Cells.{IsDrawable}
use boggart.Term.Flush.Blank.{alloc_grid-IsDrawable}

abbrev small : Screen
small = alloc_grid 4 2

-- A terminal full of something else
abbrev dirty : Display
dirty = record {
  shows = λ k. record blank_cell { ch = b'x' };
  col = 3;
  row = 1;
  fg = pos 4;
  bg = negsuc 0;
  attr = 1;
}

-- The grid after it
abbrev flat : Screen
flat = record small { front = small.back }

flat-IsDrawable : IsDrawable flat
unfolding alloc_grid
flat-IsDrawable =
    let d = alloc_grid-IsDrawable 4 2 in
    record {
      sound = record {
        back_size = d.sound.back_size;
        front_size = d.sound.back_size;
        paired = d.sound.paired;
      };
      plain = d.plain;
      halves = d.halves;
    }
