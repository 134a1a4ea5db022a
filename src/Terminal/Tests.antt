-- ===== src/Terminal/Tests.antt =====
-- Keys on a terminal, and the theorems at them.
use duvuvurkarpogeschel.Prelude.{ℕ, ◌≡◌, refl, Bool, true, false, List, [], ◌∷◌, ltb, arith}
use duvuvurkarpogeschel.Terminal.{new_terminal, input_key, up_key}
use duvuvurkarpogeschel.Terminal.Bounds.{
  Input, key, put, clear, cut, react_all, IsWellFormed, react_all-IsWellFormed,
}
use duvuvurkarpogeschel.Terminal.Lines.{text, typed_keys, recall_lem}

-- Fonts that have the ASCII letters as half-width glyphs.
abbrev ascii : ℕ → Bool
ascii c = ltb c 0x80

abbrev no_glyph : ℕ → Bool
no_glyph c = false

-- "ls", and what is printed after it.
abbrev command : List ℕ
command = 0x6c ∷ 0x73 ∷ []

abbrev output : List Input
output = put 0x61 ∷ cut 1 ∷ clear ∷ []

new_one-IsWellFormed : IsWellFormed (new_terminal true)
new_one-IsWellFormed = react_all-IsWellFormed ascii no_glyph true []

index_start : (new_terminal true).linebuf_index ≡ 0
unfolding new_terminal
index_start = refl

column_start : (new_terminal true).cursor.x ≡ 0
unfolding new_terminal
column_start = refl

recall_lem_example :
    let typed = react_all ascii no_glyph (new_terminal true) (typed_keys command) in
    let later = react_all ascii no_glyph (input_key typed 0 0x0a) output in
    (text (input_key later up_key 0).linebuf ≡ command)
    × ((input_key later up_key 0).linebuf_index ≡ 2)
recall_lem_example =
    recall_lem ascii no_glyph (new_terminal true) command output new_one-IsWellFormed index_start
      (omega (arith, column_start)) (omega arith) (omega arith) (tt, (tt, (tt, tt)))

react_all-IsWellFormed_example : IsWellFormed (
    react_all ascii no_glyph
      (new_terminal true)
      (key 0 0x6c ∷ key 0 0x0a ∷ put 0x61 ∷ key 0x52 0 ∷ []))
react_all-IsWellFormed_example =
    react_all-IsWellFormed ascii no_glyph true
      (key 0 0x6c ∷ key 0 0x0a ∷ put 0x61 ∷ key 0x52 0 ∷ [])
