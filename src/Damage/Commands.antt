-- ===== src/Damage/Commands.antt =====
-- studio/src/rencache.c: the commands of a frame and the buffer that holds them. A size is a number
-- that does not overflow. `command_buf` is the command at each offset. A font, an image and a text are
-- what the caller hands over: a number that is not 0, or its bytes. What is outside the file are the
-- parameters: the size of a `Command`, whether `realloc` can give so many bytes, what a font measures,
-- and the arithmetic of `float`.
pub mod Pushed
pub mod Drawing
pub mod Drawn
use boggart.Base.{
  ℕ, zero, suc, ◌+◌, ◌-◌, ◌*◌, ◌/◌, ◌==◌, ltb, leb, List, [], ◌∷◌, length, Bool, true, false, not,
  ◌&&◌, ◌||◌, Option, none, some, if◌then◌else◌,
}
use boggart.Base.Int.{ℤ, pos, add_ℤ, subtract_ℤ}
use boggart.Damage.Rects.{Rect, rects_overlap, intersect_rects}

-- The `enum` of the types of commands
pub data CommandType : Type 0 where
  free_font set_clip draw_text draw_rect draw_line draw_image : CommandType

-- `RenColor`
pub record Color : Type 0 where
  pub b : ℕ
  pub g : ℕ
  pub r : ℕ
  pub a : ℕ

-- `Command`
pub record Command : Type 0 where
  pub kind : CommandType
  pub size : ℕ
  pub rect : Rect
  pub color : Color
  pub font : ℕ
  pub tab_width : ℕ
  pub x₀ : ℕ
  pub y₀ : ℕ
  pub x₁ : ℕ
  pub y₁ : ℕ
  pub thickness : ℕ
  pub image : ℕ
  pub sub : Rect
  pub text : List ℕ

abbrev pub no_rect : Rect
no_rect = record { x = pos 0; y = pos 0; width = pos 0; height = pos 0 }

-- A command after `memset`, with its type and size
abbrev pub fresh : CommandType → ℕ → Command
fresh k n = record {
  kind = k;
  size = n;
  rect = no_rect;
  color = record { b = 0; g = 0; r = 0; a = 0 };
  font = 0;
  tab_width = 0;
  x₀ = 0;
  y₀ = 0;
  x₁ = 0;
  y₁ = 0;
  thickness = 0;
  image = 0;
  sub = no_rect;
  text = [];
}

-- The file's static variables
pub record Cache : Type 0 where
  pub cells_prev : List ℕ
  pub cells : List ℕ
  pub command_buf : ℕ → Option Command
  pub command_buf_size : ℕ
  pub command_buf_idx : ℕ
  pub screen_rect : Rect
  pub show_debug : Bool

unfoldable pub rencache_show_debug : Bool → Cache → Cache
rencache_show_debug enable f = record f { show_debug = enable }

-- COMMAND_BUF_INITIAL
abbrev pub command_buf_initial : ℕ
command_buf_initial = 1024 * 512

-- `(size + 7) & ~7`
abbrev pub rounded : ℕ → ℕ
rounded size = (size + 7) / 8 * 8

-- `while (want < n) { want *= 2; }`, for at most `fuel` rounds
unfoldable pub doubled : ℕ → ℕ → ℕ → ℕ
doubled zero want n = want
doubled (suc fuel) want n =
    let more = doubled fuel (want * 2) n in if ltb want n then more else want

-- What the machine does with a `float`, which is its bits here; `to_int` is the cast.
pub record Float : Type 0 where
  pub less : ℕ → ℕ → Bool
  pub minus : ℕ → ℕ → ℕ
  pub one : ℕ
  pub to_int : ℕ → ℤ

-- The rectangle of a line
unfoldable pub line_rect : Float → ℕ → ℕ → ℕ → ℕ → ℕ → Rect
unfolding add_ℤ subtract_ℤ
line_rect float x₀ y₀ x₁ y₁ thickness =
    let pad =
      add_ℤ (float.to_int (if float.less thickness float.one then float.one else thickness))
        (pos 2) in
    let across = if float.less x₀ x₁ then float.minus x₁ x₀ else float.minus x₀ x₁ in
    let down = if float.less y₀ y₁ then float.minus y₁ y₀ else float.minus y₀ y₁ in
    record {
      x = subtract_ℤ (float.to_int (if float.less x₀ x₁ then x₀ else x₁)) pad;
      y = subtract_ℤ (float.to_int (if float.less y₀ y₁ then y₀ else y₁)) pad;
      width = add_ℤ (float.to_int across) (add_ℤ pad pad);
      height = add_ℤ (float.to_int down) (add_ℤ pad pad);
    }

abbrev pub put_command : ℕ → Command → (ℕ → Option Command) → ℕ → Option Command
put_command at c buf i = if i == at then some c else buf i

module _ (realloc : ℕ → Bool) where
  -- Room for `n` bytes: the new size of the buffer, and `none` without memory
  unfoldable pub room_for : ℕ → Cache → Option ℕ
  unfolding doubled
  room_for n f =
      if ltb f.command_buf_size n
      then (let want =
            doubled n (if f.command_buf_size == 0 then command_buf_initial else f.command_buf_size)
              n in
          if realloc want then some want else none)
      else some f.command_buf_size

  -- `push_command`: the offset of the new command, and `none` for NULL
  unfoldable pub push_command : CommandType → ℕ → Cache → Option (ℕ × Cache)
  unfolding room_for
  push_command k size f = elim (room_for (f.command_buf_idx + rounded size) f) [
    | none ↦ none
    | some have ↦ some (
      f.command_buf_idx,
      record f {
        command_buf = put_command f.command_buf_idx (fresh k (rounded size)) f.command_buf;
        command_buf_size = have;
        command_buf_idx = f.command_buf_idx + rounded size;
      },
    )
  ]

  -- A push, and the fields that the caller sets if it succeeds
  unfoldable pub issue : CommandType → ℕ → (Command → Command) → Cache → Cache
  unfolding push_command
  issue k size fill f = elim (push_command k size f) [
    | none ↦ f
    | some (at, g) ↦ record g {
      command_buf = put_command at (fill (fresh k (rounded size))) g.command_buf;
    }
  ]

  module _ (header : ℕ) where
    unfoldable pub rencache_free_font : ℕ → Cache → Cache
    unfolding issue
    rencache_free_font font f = issue free_font header (λ c. record c { font = font }) f

    unfoldable pub rencache_set_clip_rect : Rect → Cache → Cache
    unfolding issue
    rencache_set_clip_rect rect f =
        issue set_clip header (λ c. record c { rect = intersect_rects rect f.screen_rect }) f

    unfoldable pub rencache_draw_rect : Rect → Color → Cache → Cache
    unfolding issue
    rencache_draw_rect rect color f =
        if rects_overlap f.screen_rect rect
        then issue draw_rect header (λ c. record c { rect = rect; color = color }) f
        else f

    unfoldable pub rencache_draw_line : Float → ℕ → ℕ → ℕ → ℕ → ℕ → Color → Cache → Cache
    unfolding issue line_rect
    rencache_draw_line float x₀ y₀ x₁ y₁ thickness color f =
        let rect = line_rect float x₀ y₀ x₁ y₁ thickness in
        if rects_overlap f.screen_rect rect
        then issue draw_line header
            (λ c. record c {
              rect = rect;
              color = color;
              x₀ = x₀;
              y₀ = y₀;
              x₁ = x₁;
              y₁ = y₁;
              thickness = thickness;
            })
            f
        else f

    unfoldable pub rencache_draw_image : ℕ → Rect → Rect → Color → Cache → Cache
    unfolding issue
    rencache_draw_image image sub dst color f =
        if (image == 0) || not (rects_overlap f.screen_rect dst)
        then f
        else issue draw_image header
            (λ c. record c { rect = dst; sub = sub; image = image; color = color }) f

    -- The width, the height and the tabs of the font are the renderer's.
    unfoldable pub rencache_draw_text :
        (ℕ → List ℕ → ℤ) → (ℕ → ℤ) → (ℕ → ℕ) → ℕ → List ℕ → ℤ → ℤ → Color → Cache → Cache × ℤ
    unfolding issue
    rencache_draw_text font_width font_height tabs font text x y color f =
        let rect : Rect = record {
          x = x;
          y = y;
          width = font_width font text;
          height = font_height font;
        } in
        (
          (if rects_overlap f.screen_rect rect
              then issue draw_text (header + (length text + 1))
                  (λ c. record c {
                    text = text;
                    color = color;
                    font = font;
                    rect = rect;
                    tab_width = tabs font;
                  })
                  f
              else f),
          add_ℤ x (font_width font text),
        )

-- The commands from an offset on, as `next_command` walks to the end of the buffer
unfoldable pub commands_from : ℕ → ℕ → Cache → List Command
commands_from zero at f = []
commands_from (suc fuel) at f =
    if at == f.command_buf_idx
    then []
    else elim (f.command_buf at) [ none ↦ [] | some c ↦ c ∷ commands_from fuel (at + c.size) f ]

-- No command is empty, so there are at most as many as bytes.
unfoldable pub commands : Cache → List Command
unfolding commands_from
commands f = commands_from (f.command_buf_idx + 1) 0 f
