-- ===== src/Terminal/Command.antt =====
-- kernel/terminal.cpp: how ExecuteLine takes a line apart, and MakeArgVector. A `char*` into the
-- line is its index.
pub mod Vector
pub mod Split
mod Tests
use duvuvurkarpogeschel.Prelude.{
  ℕ, zero, suc, ◌+◌, ◌*◌, ◌-◌, Bool, true, false, ◌&&◌, ◌||◌, not, Option, none, some, List, [],
  ◌∷◌, ◌++◌, ◌==◌, leb, ltb, if◌then◌else◌, set, drop, take, length, get_or,
}
use duvuvurkarpogeschel.Error.{full, WithError, ok, err}
use duvuvurkarpogeschel.Terminal.{strlen}

abbrev pub blank : ℕ
blank = 0x20

abbrev pub redirect : ℕ
redirect = 0x3e

abbrev pub bar : ℕ
bar = 0x7c

-- `isspace` and `strchr`, of the C library.
pub isspace : ℕ → Bool
isspace c = c == blank || (leb 9 c && leb c 13)

pub strchr : List ℕ → ℕ → Option ℕ
strchr [] c = none
strchr (d ∷ s) c =
    let later = strchr s c in
    if d == c
    then some 0
    else if d == 0
    then none
    else elim later [ none ↦ none | some i ↦ some (suc i) ]

-- `while (isspace(*p)) ++p;`, of which the result is how far it goes.
pub skip_spaces : List ℕ → ℕ
skip_spaces [] = 0
skip_spaces (c ∷ s) = if isspace c then suc (skip_spaces s) else 0

-- The text of a buffer from an index on.
abbrev pub string_at : List ℕ → ℕ → List ℕ
string_at s i = take (strlen (drop i s)) (drop i s)

-- What ExecuteLine gets from a line: the command and its argument, where the output goes, and the
-- command that reads it.
pub record Line : Type 0 where
  pub command : List ℕ
  pub first_arg : Option (List ℕ)
  pub redir_dest : Option (List ℕ)
  pub subcommand : Option (List ℕ)

-- An end that is written for each mark that was found.
end_at : Option ℕ → List ℕ → List ℕ
end_at none s = s
end_at (some i) s = set s i 0

-- The text behind a mark, from the first byte on that is no blank.
behind : Option ℕ → List ℕ → Option (List ℕ)
behind none s = none
behind (some i) s = some (string_at s (i + 1 + skip_spaces (drop (i + 1) s)))

start_behind : Option ℕ → List ℕ → Option ℕ
start_behind none s = none
start_behind (some i) s = some (i + 1 + skip_spaces (drop (i + 1) s))

string_from : Option ℕ → List ℕ → Option (List ℕ)
string_from none s = none
string_from (some i) s = some (string_at s i)

-- The three marks are looked for before any end is written; the destination of a redirection is
-- read before the end of the pipe is written.
pub parse_line : List ℕ → Line
parse_line linebuf =
    let pipe_char = strchr linebuf bar in
    let redir_char = strchr linebuf redirect in
    let argument = end_at (strchr linebuf blank) linebuf in
    let first_arg = start_behind (strchr linebuf blank) argument in
    let redirected = end_at redir_char argument in
    let ended = end_at pipe_char redirected in
    record {
      command = string_at ended 0;
      first_arg = string_from first_arg ended;
      redir_dest = behind redir_char redirected;
      subcommand = behind pipe_char ended;
    }

-- `push_to_argv`: argv is the list of the strings' places in argbuf, and argbuf what was copied
-- so far.
pub record ArgVector : Type 0 where
  pub argv : List ℕ
  pub argbuf : List ℕ

pub push_to_argv : (argv_len argbuf_len : ℕ) → ArgVector → List ℕ → WithError ArgVector
push_to_argv argv_len argbuf_len v s =
    if leb argv_len (length v.argv) || leb argbuf_len (length v.argbuf)
    then err full
    else ok (record { argv = v.argv ++ length v.argbuf ∷ []; argbuf = v.argbuf ++ s ++ 0 ∷ [] })

pub word_length : List ℕ → ℕ
word_length [] = 0
word_length (c ∷ s) = if c == 0 || isspace c then 0 else suc (word_length s)

-- Whether a text ends here.
abbrev pub ends : List ℕ → Bool
ends s = get_or s 0 0 == 0

continue_with : WithError ArgVector → (ArgVector → WithError ArgVector) → WithError ArgVector
continue_with (err e) next = err e
continue_with (ok v) next = next v

pub push_words : (fuel argv_len argbuf_len : ℕ) → List ℕ → ArgVector → WithError ArgVector
push_words zero argv_len argbuf_len s v = ok v
push_words (suc fuel) argv_len argbuf_len s v =
    let p = drop (skip_spaces s) s in
    let rest = drop (word_length p) p in
    let pushed = push_to_argv argv_len argbuf_len v (take (word_length p) p) in
    let last = ends rest in
    if ends p
    then ok v
    else continue_with pushed (λ (w : ArgVector).
      if last then ok w else push_words fuel argv_len argbuf_len (drop 1 rest) w)

pub push_arguments : (argv_len argbuf_len : ℕ) → Option (List ℕ) → ArgVector → WithError ArgVector
push_arguments argv_len argbuf_len none v = ok v
push_arguments argv_len argbuf_len (some first_arg) v =
    push_words (suc (length first_arg)) argv_len argbuf_len first_arg v

pub make_arg_vector : List ℕ → Option (List ℕ) → (argv_len argbuf_len : ℕ) → WithError ArgVector
make_arg_vector command first_arg argv_len argbuf_len =
    continue_with (push_to_argv argv_len argbuf_len (record { argv = []; argbuf = [] }) command)
      (push_arguments argv_len argbuf_len first_arg)
