-- ===== src/Terminal.antt =====
-- kernel/terminal.hpp and kernel/terminal.cpp: the terminal's cursor, its input line and its history.
-- A buffer of `char`s is the list of its bytes. Drawing is left out, and so are the commands: a
-- newline is taken up to the call of ExecuteLine, and on from there.
pub mod Lines
pub mod Bounds
pub mod Printing
pub mod Command
pub mod Pipe
mod Tests
use duvuvurkarpogeschel.Prelude.{
  ℕ, zero, suc, ◌+◌, ◌-◌, ◌%◌, ◌^◌, Bool, true, false, ◌&&◌, not, Option, none, some, List, [], ◌∷◌,
  ◌++◌, ◌==◌, leb, ltb, if◌then◌else◌, get_or, set, drop, take, length, replicate,
}
use duvuvurkarpogeschel.Prelude.Int.{ℤ, pos, negsuc}
use duvuvurkarpogeschel.Text.Utf8.{byte, convert_utf8_to_32, is_hankaku}

abbrev pub rows : ℕ
rows = 17

abbrev pub columns : ℕ
columns = 48

abbrev pub line_max : ℕ
line_max = 128

abbrev pub newline_key : ℕ
newline_key = 0x0a

abbrev pub backspace_key : ℕ
backspace_key = 0x08

pub record Cursor : Type 0 where
  pub x : ℕ
  pub y : ℕ

pub record Terminal : Type 0 where
  pub cursor : Cursor
  pub linebuf : List ℕ
  pub linebuf_index : ℕ
  pub cmd_history : List (List ℕ)
  pub cmd_history_index : ℤ
  pub show_window : Bool

abbrev pub down_key : ℕ
down_key = 0x51

abbrev pub up_key : ℕ
up_key = 0x52

-- `std::strlen` and `std::strcpy`.
pub strlen : List ℕ → ℕ
strlen [] = 0
strlen (c ∷ s) = if c == 0 then 0 else suc (strlen s)

pub strcpy : (dest source : List ℕ) → List ℕ
strcpy dest source = take (strlen source) source ++ 0 ∷ drop (strlen source + 1) dest

-- The cursor at the start of the next line; the last line scrolls instead.
pub newline : Cursor → Cursor
newline c = if ltb c.y (rows - 1) then record { x = 0; y = c.y + 1 } else record c { x = 0 }

module _ (hankaku zenkaku : ℕ → Bool) where
  -- `Print(char32_t)`: the cursor of a terminal that has a window, and the guard.
  pub print_char : Cursor → ℕ → Cursor
  print_char c u =
      let narrow = if c.x == columns then newline c else c in
      let wide = if leb (columns - 1) c.x then newline c else c in
      if u == newline_key
      then newline c
      else if is_hankaku hankaku zenkaku u
      then record narrow { x = narrow.x + 1 }
      else record wide { x = wide.x + 2 }

  pub print : Terminal → ℕ → Terminal
  print t u = if t.show_window then record t { cursor = print_char t.cursor u } else t

  -- The loop of `Print(const char*, len)`. `none` means that the fuel ran out.
  pub print_loop : (fuel : ℕ) → List ℕ → (i len : ℕ) → Cursor → Option Cursor
  print_loop zero s i len c = none
  print_loop (suc fuel) s i len c =
      let u32 = (convert_utf8_to_32 s).0 in
      let bytes = (convert_utf8_to_32 s).1 in
      let rest = print_loop fuel (drop bytes s) (i + bytes) len (print_char c u32) in
      if byte s 0 == 0 then some c else if ltb i len then rest else some c

-- `HistoryUpDown`: direction -1 goes to later lines, 1 to earlier ones.
later_line : ℤ → ℤ
later_line (pos (suc i)) = pos i
later_line (pos zero) = negsuc 0
later_line (negsuc i) = negsuc i

earlier_line : (size : ℕ) → ℤ → ℤ
earlier_line size (pos i) = if ltb (i + 1) size then pos (i + 1) else pos i
earlier_line size (negsuc zero) = if ltb 0 size then pos 0 else negsuc 0
earlier_line size (negsuc (suc i)) = negsuc (suc i)

move_index : (direction : ℤ) → (size : ℕ) → ℤ → ℤ
move_index (negsuc zero) size i = later_line i
move_index (pos (suc zero)) size i = earlier_line size i
move_index direction size i = i

history_line : List (List ℕ) → ℤ → List ℕ
history_line lines (pos i) = get_or lines i []
history_line lines (negsuc i) = []

pub history_up_down : Terminal → (direction : ℤ) → Terminal
history_up_down t direction =
    let index = move_index direction (length t.cmd_history) t.cmd_history_index in
    let history = history_line t.cmd_history index in
    record t {
      cursor = record { x = strlen history + 1; y = t.cursor.y };
      linebuf = strcpy t.linebuf history;
      linebuf_index = strlen history;
      cmd_history_index = index;
    }

-- `InputKey` on a newline, up to ExecuteLine.
pub enter : Terminal → Terminal
enter t =
    let line = set t.linebuf t.linebuf_index 0 in
    let kept = take (length t.cmd_history - 1) t.cmd_history in
    record t {
      cursor = newline t.cursor;
      linebuf = line;
      linebuf_index = 0;
      cmd_history = if ltb 0 t.linebuf_index then line ∷ kept else t.cmd_history;
      cmd_history_index = negsuc 0;
    }

pub backspace : Terminal → Terminal
backspace t =
    if ltb 0 t.cursor.x
    then record t {
      cursor = record { x = t.cursor.x - 1; y = t.cursor.y };
      linebuf_index = t.linebuf_index - 1;
    }
    else t

pub type_char : Terminal → (unicode : ℕ) → Terminal
type_char t unicode =
    if ltb t.cursor.x (columns - 1) && ltb t.linebuf_index (line_max - 1)
    then record t {
      cursor = record { x = t.cursor.x + 1; y = t.cursor.y };
      linebuf = set t.linebuf t.linebuf_index (unicode % 2 ^ 8);
      linebuf_index = t.linebuf_index + 1;
    }
    else t

pub input_key : Terminal → (keycode unicode : ℕ) → Terminal
input_key t keycode unicode =
    if unicode == newline_key
    then enter t
    else if unicode == backspace_key
    then backspace t
    else if not (unicode == 0)
    then type_char t unicode
    else if keycode == down_key
    then history_up_down t (negsuc 0)
    else if keycode == up_key
    then history_up_down t (pos 1)
    else t

-- `Terminal::Terminal`, without its window.
pub new_terminal : (show_window : Bool) → Terminal
new_terminal show_window = record {
  cursor = record { x = 0; y = 0 };
  linebuf = replicate line_max 0;
  linebuf_index = 0;
  cmd_history = replicate 8 (replicate line_max 0);
  cmd_history_index = negsuc 0;
  show_window = show_window;
}
