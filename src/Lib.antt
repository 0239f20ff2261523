-- ===== src/Lib.antt =====
-- The C core of boggart: the event bus, the journal writer, the terminal library, the width of text, the
-- hash, the views of files, the HTTP server's reading side and the studio's render cache.
--
-- The parts and how they interact. Lua code publishes, subscribes and queues work on the bus
-- (src/lbus.c); other threads only leave publications there, and the main loop dispatches them. What
-- the swarm records goes to the journal writer (src/jwriter.c), whose thread stores it in SQLite
-- behind a ring of 8192 records. The terminal front end paints a grid of cells and reads keys, mouse
-- reports and pastes with src/termctl.c, and cuts text to columns with src/utf8width.h. Imports are
-- hashed by src/lhash.c. The studio draws its windows by studio/src/rencache.c, which redraws what
-- changed. Long files are shown through src/lview.c, which indexes their lines in the background. The
-- control plane is reached through src/lserve.c. The parts do not call each other in what is modelled here.
--
-- Base: names of the library under the names used here, Boolean tests, lists, bits, bytes, integers.
--
-- Bus: src/lbus.c. Bus/Glob is `glob_match`, on fuel: a round for each place of the text and of the
--   pattern behind it, and one more; Bus/Glob/Spec says what a pattern matches. Bus/State is the struct
--   `B` with `l_subscribe`, `l_unsubscribe`, `compact_locked` and `l_has`; Bus/Queues is `l_push`,
--   `l_pull` and `l_qlen`; Bus/Dispatch is `deliver`, `l_publish`, `enqueue_cross`, `bus_drain_cb` and
--   `l_attach_main`. A callback is what it calls on the bus, a parameter; `limit` is how deep publishes
--   nest inside callbacks, and is any number. Bus/Valid and Bus/Keep hold the invariant. Each critical
--   section under the mutex is one operation. Counters and ids do not wrap; allocations succeed.
--
-- Journal: src/jwriter.c. Journal/State is the ring, the semaphores as counts, and where each thread
--   is; Journal/Step is one step of either thread, and `run` any interleaving. What a call of
--   SQLite leaves, if it succeeds and if it fails, is a parameter: the code does not look at the result.
--   `Effects` is what SQLite is documented to do while no call fails, a hypothesis where it is named. That
--   the statements can be prepared where the database could be opened is part of `opened`. Head and tail wrap at 2^32. The ids, and the destruction of the ring after a stop, are not
--   modelled. Journal/Inv is the invariant, Journal/Produce and Journal/Consume keep it.
--
-- Term: src/termctl.c. Term/Utf8 is the coder; Term/Width is `tc_wcwidth`; Term/Grid is the cells,
--   `alloc_grid`, `update_size`, `tc_clear` and `tc_set`; Term/Puts is `tc_puts`, on as much fuel as the
--   text has bytes, and `tc_snapshot`. Term/Input is the input and paste buffers, Term/Input/Csi the key
--   tables and the scan of a sequence, Term/Input/Escape the sequences behind an ESC, and
--   Term/Input/Parse `parse_one` and `take_event`, with a round for each byte of input. The doubling of
--   the paste buffer has 21 rounds, which pass its limit of a megabyte from any size. Numbers of an SGR
--   mouse report are not bounded (`int` in C). Term/Flush is `tc_flush` with the output buffer; the digits
--   of a number have 12 rounds, and an `unsigned` has at most ten digits; Term/Flush/Display is a terminal
--   that obeys the output piece by piece, and Term/Flush/Terminal one that reads its bytes, by which
--   `tc_flush` is judged. Term/Poll is `tc_poll`; what the system answers during a call is a parameter. Not modelled: the set-up of the
--   terminal, signals. A
--   read past `inbuf`, which `find_paste_end` can make, answers any byte.
--
-- Columns: src/utf8width.h. Columns/Tables has the two tables, Columns/Search the binary search, with a
--   round more than the table is long, Columns/Width `bog_cp_width`, and Columns/Text `bog_utf8_next`,
--   `bog_str_width` and `bog_str_take`, with a round for each byte.
--
-- Hash: src/lhash.c, the portable code. Hash/Spec pads a message first and cuts it into blocks then.
--   CommonCrypto, which the code calls on macOS instead, is not modelled.
--
-- Damage: studio/src/rencache.c. Damage/Rects is its rectangles, Damage/Cells the grid of hashes,
--   Damage/Dirty the scan that collects the dirty rectangles, Damage/Commands the command buffer, and
--   Damage/Frame the begin and the end of a frame. `int` does not overflow. The buffer grows by as many
--   doublings as it needs bytes, at most. The walk through it has a round more than it has bytes, and a
--   command has at least one. The size of a command, `realloc`, the bytes of a command in memory, `rand`,
--   the arithmetic of `float` and what the renderer says of a font are parameters; what is asked of the
--   renderer is a list.
--
-- Views: src/lview.c. Views/State is `vstate`, `vstate_open` and `shrunk`; Views/Lines says what the lines of a
--   text are and where they start. Views/Index is `index_locked`: its loop has a round for each byte of the
--   file at most, since each round moves on. Views/Read is `l_line`, `l_lines`, `l_wait` and the rest of what
--   Lua asks, Views/Tail is `l_tail`, and Views/Find is `memfind` and `l_find`; the binary search has a round
--   for each line. Views/Life is `l_open`, `l_close`, the background job and the references: what is done under
--   the mutex is one step, and the steps come in any order. Whether an allocation succeeds is a parameter.
--   Windows is not modelled.
--
-- Serve: src/lserve.c, from the bytes of a connection to the handler. Serve/Buffer is `conn_append`, with the
--   doubling on as much fuel as bytes are needed; Serve/Parse is `parse_request`, with a round for each byte
--   of the header at most; Serve/Auth is the first part of `handle_request`; Serve/Turns is `on_read`, which
--   composes them. Serve/Clients is the list of connections, with broadcasts and the stop. Not modelled: what
--   libuv does for the server, the Lua handler, and what is written back.
--
-- Tests: runs at concrete inputs.
--
-- Not modelled: the other bindings of src/, which call Lua, libuv, SQLite and the system; the rest of the
-- studio; vendored libraries.
pub mod Base
pub mod Bus
pub mod Columns
pub mod Damage
pub mod Hash
pub mod Journal
pub mod Term
pub mod Tests
pub mod Views
pub mod Serve
