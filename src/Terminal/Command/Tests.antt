-- ===== src/Terminal/Command/Tests.antt =====
-- Command lines, and the theorem on their words.
use duvuvurkarpogeschel.Prelude.{ℕ, ◌≡◌, refl, false, none, some, List, [], ◌∷◌, map, arith}
use duvuvurkarpogeschel.Error.{ok}
use duvuvurkarpogeschel.Terminal.{strlen}
use duvuvurkarpogeschel.Terminal.Command.{
  parse_line, strchr, skip_spaces, isspace, string_at, make_arg_vector, end_at, behind,
  start_behind, string_from,
}
use duvuvurkarpogeschel.Terminal.Command.Split.{parse_line-bar}
use duvuvurkarpogeschel.Terminal.Command.Vector.{append_strings, no_strings, make_arg_vector-words}

-- "a b|c"
piped : parse_line (0x61 ∷ 0x20 ∷ 0x62 ∷ 0x7c ∷ 0x63 ∷ 0 ∷ []) ≡ record {
  command = 0x61 ∷ [];
  first_arg = some (0x62 ∷ []);
  redir_dest = none;
  subcommand = some (0x63 ∷ []);
}
unfolding parse_line strchr skip_spaces isspace strlen end_at behind start_behind string_from
piped = refl

-- "a|b c": the only blank is behind the bar, so that the argument goes to the first command.
piped_argument : parse_line (0x61 ∷ 0x7c ∷ 0x62 ∷ 0x20 ∷ 0x63 ∷ 0 ∷ []) ≡ record {
  command = 0x61 ∷ [];
  first_arg = some (0x63 ∷ []);
  redir_dest = none;
  subcommand = some (0x62 ∷ []);
}
unfolding parse_line strchr skip_spaces isspace strlen end_at behind start_behind string_from
piped_argument = refl

-- "ls", "-a" and "x", with three skip_spaces between the last two.
abbrev words : List (ℕ × List ℕ)
words = (2, 0x78 ∷ []) ∷ []

word_bytes : (isspace 0x2d ≡ false) × (isspace 0x61 ≡ false) × (isspace 0x78 ≡ false)
unfolding isspace
word_bytes = (refl, refl, refl)

make_arg_vector-words_example :
    let strings : List (List ℕ) = (0x6c ∷ 0x73 ∷ []) ∷ (0x2d ∷ 0x61 ∷ []) ∷ (0x78 ∷ []) ∷ [] in
    (make_arg_vector
        (0x6c ∷ 0x73 ∷ [])
        (some (0x2d ∷ 0x61 ∷ 0x20 ∷ 0x20 ∷ 0x20 ∷ 0x78 ∷ []))
        32
        3840
      ≡ ok (append_strings no_strings strings))
    × (map
          (string_at (append_strings no_strings strings).argbuf)
          (append_strings no_strings strings).argv
        ≡ strings)
make_arg_vector-words_example =
    make_arg_vector-words (0x6c ∷ 0x73 ∷ []) 0 (0x2d ∷ 0x61 ∷ []) words 32 3840 (refl, (refl, tt))
      (omega arith, ((refl, word_bytes.0), ((refl, word_bytes.1), tt)))
      ((omega arith, ((refl, word_bytes.2), tt)), tt) (omega arith) (omega arith)

no_spaces : (skip_spaces (0x62 ∷ []) ≡ 0) × (skip_spaces (0x63 ∷ []) ≡ 0)
unfolding skip_spaces isspace
no_spaces = (refl, refl)

parse_line-bar_example :
    (parse_line (0x61 ∷ 0x20 ∷ 0x62 ∷ 0x7c ∷ 0x63 ∷ 0 ∷ []) ≡ record {
      command = 0x61 ∷ [];
      first_arg = some (0x62 ∷ []);
      redir_dest = none;
      subcommand = some (0x63 ∷ []);
    })
    × (parse_line (0x61 ∷ 0x7c ∷ 0x63 ∷ 0x20 ∷ 0x62 ∷ 0 ∷ []) ≡ record {
      command = 0x61 ∷ [];
      first_arg = some (0x62 ∷ []);
      redir_dest = none;
      subcommand = some (0x63 ∷ []);
    })
parse_line-bar_example =
    parse_line-bar (0x61 ∷ []) (0x62 ∷ []) (0x63 ∷ []) [] ((refl, refl, refl, refl), tt)
      ((refl, refl, refl, refl), tt) ((refl, refl, refl, refl), tt) no_spaces.0 no_spaces.1
