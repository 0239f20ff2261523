-- ===== src/Views/State.antt =====
-- src/lview.c: the state of a view, and how it is opened. The Lua state and the lock are left out: what
-- happens under the lock is one operation. The file system answers by parameters.
use boggart.Base.{
  ℕ, List, [], length, ltb, ◌==◌, ◌&&◌, ◌||◌, not, Bool, false, Option, none, some, if◌then◌else◌,
}

-- `vstate`. `size` is the length of `base`, and `nlines` that of `offs`; `has_offs` says that `offs` is not
-- null.
pub record View : Type 0 where
  pub base : List ℕ
  pub mapped : Bool
  pub ino : ℕ
  pub dev : ℕ
  pub has_offs : Bool
  pub offs : List ℕ
  pub cap : ℕ
  pub scanned : ℕ
  pub complete : Bool
  pub refs : ℕ
  pub job : Bool
  pub closing : Bool

-- What `stat` tells of a file
pub record Stat : Type 0 where
  pub st_ino : ℕ
  pub st_dev : ℕ
  pub st_size : ℕ

-- What opening a file finds: its bytes, whether they could be mapped, and whether it is a regular file
pub record File : Type 0 where
  pub bytes : List ℕ
  pub maps : Bool
  pub reads : Bool
  pub regular : Bool
  pub id : Stat

-- `vstate_open`; `none` is an error.
unfoldable pub vstate_open : Option File → Option View
vstate_open none = none
vstate_open (some file) =
    if not file.regular || (not (length file.bytes == 0) && (not file.maps && not file.reads))
    then none
    else some (record {
      base = file.bytes;
      mapped = not (length file.bytes == 0) && file.maps;
      ino = file.id.st_ino;
      dev = file.id.st_dev;
      has_offs = false;
      offs = [];
      cap = 0;
      scanned = 0;
      complete = length file.bytes == 0;
      refs = 1;
      job = false;
      closing = false;
    })

-- `shrunk`, with what `stat` says of the path now
unfoldable pub shrunk : Option Stat → View → Bool
shrunk none st = false
shrunk (some now) st =
    if not st.mapped
    then false
    else if not (now.st_ino == st.ino) || not (now.st_dev == st.dev)
    then false
    else ltb now.st_size (length st.base)
