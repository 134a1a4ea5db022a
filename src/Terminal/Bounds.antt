-- ===== src/Terminal/Bounds.antt =====
-- The accesses to the input line and to its history stay within their arrays.
use duvuvurkarpogeschel.Prelude.{
  ℕ, zero, suc, ◌+◌, ◌-◌, ◌%◌, ◌^◌, ◌<◌, ◌≤◌, ◌≡◌, refl, ◌∙◌, Bool, List, [], ◌∷◌, ◌==◌, ltb,
  get_or, set, drop, take, length, replicate, All, length-set, length-take, length-append,
  length-drop, if_both, replicate-All, Bool-cases, not, ◌&&◌, arith, inl, inr,
}
use duvuvurkarpogeschel.Prelude.Int.{ℤ, pos, negsuc, pos_part, neg_part}
use duvuvurkarpogeschel.Terminal.{
  line_max, rows, Cursor, Terminal, strlen, strcpy, newline, print_char, print, later_line,
  earlier_line, move_index, history_line, history_up_down, enter, backspace, type_char, input_key,
  new_terminal,
}

-- A whole buffer with the NUL that ends its text.
abbrev pub IsLine : List ℕ → Type 0
IsLine s = (length s ≡ line_max) × (strlen s < line_max)

pub record IsWellFormed (t : Terminal) : Type 0 where
  pub full : length t.linebuf ≡ line_max
  pub index_in : t.linebuf_index < line_max
  pub lines : All IsLine t.cmd_history
  pub history_size : length t.cmd_history ≡ 8
  pub history_in : (neg_part t.cmd_history_index ≤ 1) × (pos_part t.cmd_history_index < 8)
  pub row_in : t.cursor.y < rows

pub length-strcpy :
    (dest source : List ℕ)
    → strlen source < length dest
    → strlen source < length source
    → length (strcpy dest source) ≡ length dest
unfolding strcpy
length-strcpy dest source h k = omega (
  arith,
  length-append (take (strlen source) source) (0 ∷ drop (strlen source + 1) dest),
  length-take (strlen source) source,
  length-drop (strlen source + 1) dest,
)

pub strlen-set : (s : List ℕ) (i : ℕ) → i < length s → strlen (set s i 0) ≤ i
unfolding strlen
strlen-set [] i h = absurd (omega arith)
strlen-set (c ∷ s) zero h = ground arith
strlen-set (c ∷ s) (suc i) h = ground (arith, strlen-set s i (omega arith))

later_line_in :
    (i : ℤ)
    → (neg_part i ≤ 1) × (pos_part i < 8)
    → (neg_part (later_line i) ≤ 1) × (pos_part (later_line i) < 8)
unfolding later_line
later_line_in (pos zero) h = (omega arith, omega arith)
later_line_in (pos (suc i)) h = (omega arith, omega arith)
later_line_in (negsuc i) h = h

earlier_line_in :
    (i : ℤ)
    → (neg_part i ≤ 1) × (pos_part i < 8)
    → (neg_part (earlier_line 8 i) ≤ 1) × (pos_part (earlier_line 8 i) < 8)
unfolding earlier_line
earlier_line_in (pos i) h = ground arith
earlier_line_in (negsuc zero) h = ground arith
earlier_line_in (negsuc (suc i)) h = h

newline-row : (c : Cursor) → c.y < rows → (newline c).y < rows
unfolding newline
newline-row c h = ground arith

print_char-row :
    (hankaku zenkaku : ℕ → Bool) (c : Cursor) (u : ℕ)
    → c.y < rows
    → (print_char hankaku zenkaku c u).y < rows
unfolding print_char
print_char-row hankaku zenkaku c u h = ground (arith, newline-row c h)

get_or-IsLine :
    (lines : List (List ℕ)) (i : ℕ)
    → All IsLine lines
    → i < length lines
    → IsLine (get_or lines i [])
get_or-IsLine [] i h k = absurd (omega arith)
get_or-IsLine (l ∷ lines) zero h k = h.0
get_or-IsLine (l ∷ lines) (suc i) h k = get_or-IsLine lines i h.1 (omega arith)

take-All : (n : ℕ) (lines : List (List ℕ)) → All IsLine lines → All IsLine (take n lines)
take-All zero lines h = tt
take-All (suc n) [] h = tt
take-All (suc n) (l ∷ lines) h = (h.0, take-All n lines h.1)

enter-IsWellFormed : (t : Terminal) → IsWellFormed t → IsWellFormed (enter t)
unfolding enter
enter-IsWellFormed t h =
    let line : IsLine (set t.linebuf t.linebuf_index 0) = (
      length-set t.linebuf t.linebuf_index 0 ∙ h.full,
      let short =
            strlen-set t.linebuf t.linebuf_index
              (let f = h.full in let i = h.index_in in omega arith) in
          let i = h.index_in in omega arith,
    ) in
    record {
      full = line.0;
      index_in = omega arith;
      lines =
          if_both (All IsLine) (ltb 0 t.linebuf_index)
            (line, take-All (length t.cmd_history - 1) t.cmd_history h.lines) h.lines;
      history_size =
          if_both (λ l. length l ≡ 8) (ltb 0 t.linebuf_index)
            {x = set t.linebuf t.linebuf_index 0 ∷ take (length t.cmd_history - 1) t.cmd_history}
            (let k = length-take (length t.cmd_history - 1) t.cmd_history in
              let l = h.history_size in omega arith)
            h.history_size;
      history_in = (omega arith, omega arith);
      row_in = newline-row t.cursor h.row_in;
    }

length-strcpy-history :
    (t : Terminal) (i : ℤ)
    → IsWellFormed t
    → pos_part i < 8
    → (length (strcpy t.linebuf (history_line t.cmd_history i)) ≡ line_max)
      × (strlen (history_line t.cmd_history i) < line_max)
unfolding history_line strlen strcpy
length-strcpy-history t (pos i) h k =
    let line = get_or-IsLine t.cmd_history i h.lines (let s = h.history_size in omega arith) in
    (
      length-strcpy t.linebuf (get_or t.cmd_history i [])
            (let f = h.full in let l = line.1 in omega arith)
            (let f = line.0 in let l = line.1 in omega arith)
          ∙ h.full,
      line.1,
    )
length-strcpy-history t (negsuc i) h k =
    (let f = h.full in omega (arith, length-drop 1 t.linebuf), omega arith)

move_index-in :
    (direction i : ℤ)
    → (neg_part i ≤ 1) × (pos_part i < 8)
    → (neg_part (move_index direction 8 i) ≤ 1) × (pos_part (move_index direction 8 i) < 8)
unfolding move_index
move_index-in (negsuc zero) i h = later_line_in i h
move_index-in (negsuc (suc d)) i h = h
move_index-in (pos zero) i h = h
move_index-in (pos (suc zero)) i h = earlier_line_in i h
move_index-in (pos (suc (suc d))) i h = h

history_up_down-IsWellFormed :
    (t : Terminal) (direction : ℤ) → IsWellFormed t → IsWellFormed (history_up_down t direction)
unfolding history_up_down
history_up_down-IsWellFormed t direction h =
    let index = move_index direction (length t.cmd_history) t.cmd_history_index in
    let index_in : (neg_part index ≤ 1) × (pos_part index < 8) =
      rw h.history_size (move_index-in direction t.cmd_history_index h.history_in) in
    let line = length-strcpy-history t index h index_in.1 in
    record {
      full = line.0;
      index_in = line.1;
      lines = h.lines;
      history_size = h.history_size;
      history_in = index_in;
      row_in = h.row_in;
    }

backspace-IsWellFormed : (t : Terminal) → IsWellFormed t → IsWellFormed (backspace t)
unfolding backspace
backspace-IsWellFormed t h =
    if_both IsWellFormed (ltb 0 t.cursor.x)
      (record {
        full = h.full;
        index_in = let i = h.index_in in omega arith;
        lines = h.lines;
        history_size = h.history_size;
        history_in = h.history_in;
        row_in = h.row_in;
      })
      h

type_char-IsWellFormed :
    (t : Terminal) (unicode : ℕ) → IsWellFormed t → IsWellFormed (type_char t unicode)
unfolding type_char
type_char-IsWellFormed t unicode h =
    elim (Bool-cases (ltb t.cursor.x 47 && ltb t.linebuf_index 127)) [
      | inr f ↦ rw f h
      | inl e ↦ rw e (record {
        full = length-set t.linebuf t.linebuf_index (unicode % 2 ^ 8) ∙ h.full;
        index_in = ground (arith, e);
        lines = h.lines;
        history_size = h.history_size;
        history_in = h.history_in;
        row_in = h.row_in;
      })
    ]

input_key-IsWellFormed :
    (t : Terminal) (keycode unicode : ℕ)
    → IsWellFormed t
    → IsWellFormed (input_key t keycode unicode)
unfolding input_key
input_key-IsWellFormed t keycode unicode h =
    if_both IsWellFormed (unicode == 0x0a) (enter-IsWellFormed t h) (
      if_both IsWellFormed (unicode == 0x08) (backspace-IsWellFormed t h) (
        if_both IsWellFormed (not (unicode == 0)) (type_char-IsWellFormed t unicode h) (
          if_both IsWellFormed (keycode == 0x51) (history_up_down-IsWellFormed t (negsuc 0) h)
            (if_both IsWellFormed (keycode == 0x52) (history_up_down-IsWellFormed t (pos 1) h) h))))

new_terminal-IsWellFormed : (show_window : Bool) → IsWellFormed (new_terminal show_window)
unfolding new_terminal strlen
new_terminal-IsWellFormed show_window = record {
  full = refl;
  index_in = omega arith;
  lines =
      let inside : 0 < line_max = omega arith in
      let empty : IsLine (replicate line_max 0) = (refl, inside) in
      replicate-All IsLine 8 (replicate line_max 0) empty;
  history_size = refl;
  history_in = (omega arith, omega arith);
  row_in = omega arith;
}

-- What happens to a terminal: keys, code points that are printed, the command "ys" that puts the
-- cursor on the first line, and the NULs that ExecuteLine and MakeArgVector put into the line.
pub data Input : Type 0 where
  key : (keycode unicode : ℕ) → Input
  put : (u : ℕ) → Input
  clear : Input
  cut : (i : ℕ) → Input

module _ (hankaku zenkaku : ℕ → Bool) where
  abbrev pub react : Terminal → Input → Terminal
  react t (key keycode unicode) = input_key t keycode unicode
  react t (put u) = print hankaku zenkaku t u
  react t clear = record t { cursor = record { x = t.cursor.x; y = 0 } }
  react t (cut i) = record t { linebuf = set t.linebuf i 0 }

  abbrev pub react_all : Terminal → List Input → Terminal
  react_all t [] = t
  react_all t (i ∷ is) = react_all (react t i) is

  print-IsWellFormed :
      (t : Terminal) (u : ℕ) → IsWellFormed t → IsWellFormed (print hankaku zenkaku t u)
  unfolding print
  print-IsWellFormed t u h =
      if_both IsWellFormed t.show_window
        (record {
          full = h.full;
          index_in = h.index_in;
          lines = h.lines;
          history_size = h.history_size;
          history_in = h.history_in;
          row_in = print_char-row hankaku zenkaku t.cursor u h.row_in;
        })
        h

  react-IsWellFormed : (t : Terminal) (i : Input) → IsWellFormed t → IsWellFormed (react t i)
  react-IsWellFormed t (key keycode unicode) h = input_key-IsWellFormed t keycode unicode h
  react-IsWellFormed t (put u) h = print-IsWellFormed t u h
  react-IsWellFormed t clear h = record {
    full = h.full;
    index_in = h.index_in;
    lines = h.lines;
    history_size = h.history_size;
    history_in = h.history_in;
    row_in = omega arith;
  }
  react-IsWellFormed t (cut i) h = record {
    full = length-set t.linebuf i 0 ∙ h.full;
    index_in = h.index_in;
    lines = h.lines;
    history_size = h.history_size;
    history_in = h.history_in;
    row_in = h.row_in;
  }

  keep-IsWellFormed :
      (t : Terminal) (is : List Input) → IsWellFormed t → IsWellFormed (react_all t is)
  keep-IsWellFormed t [] h = h
  keep-IsWellFormed t (i ∷ is) h = keep-IsWellFormed (react t i) is (react-IsWellFormed t i h)

  -- Whatever is typed and printed on a new terminal, and whatever NULs are put into its line, the
  -- line keeps its 128 bytes and the place to write next is among them, each of the eight lines of
  -- the history is a whole buffer whose text ends within it, the chosen one exists, and the cursor
  -- stays on a line of the window.
  pub react_all-IsWellFormed :
      (show_window : Bool) (is : List Input)
      → IsWellFormed (react_all (new_terminal show_window) is)
  react_all-IsWellFormed show_window is =
      keep-IsWellFormed (new_terminal show_window) is (new_terminal-IsWellFormed show_window)
