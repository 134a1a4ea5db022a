-- ===== src/Text/Utf8/Tests.antt =====
-- Texts of one to four bytes for a code point, and the theorems at them.
use duvuvurkarpogeschel.Prelude.{
  ℕ, ◌≡◌, refl, Bool, false, none, some, List, [], ◌∷◌, ◌++◌, ltb, length, arith,
}
use duvuvurkarpogeschel.Text.Utf8.{
  convert_utf8_to_32, convert_utf32_to_utf8, write_utf8_string, write_utf32_string, is_hankaku,
}
use duvuvurkarpogeschel.Text.Utf8.RoundTrip.{convert_utf8_to_32-convert_utf32_to_utf8}
use duvuvurkarpogeschel.Text.Utf8.Width.{encode, write_utf8_string_lem}

-- "\u3042"
three_bytes : convert_utf32_to_utf8 0x3042 ≡ 0xe3 ∷ 0x81 ∷ 0x82 ∷ []
unfolding convert_utf32_to_utf8
three_bytes = refl

convert_utf8_to_32-convert_utf32_to_utf8_example :
    convert_utf8_to_32 (convert_utf32_to_utf8 0x1f600 ++ 0x41 ∷ [])
    ≡ (0x1f600, length (convert_utf32_to_utf8 0x1f600))
convert_utf8_to_32-convert_utf32_to_utf8_example =
    convert_utf8_to_32-convert_utf32_to_utf8 0x1f600 (0x41 ∷ []) (omega arith)

-- Fonts that have the ASCII letters as half-width glyphs.
abbrev ascii : ℕ → Bool
ascii c = ltb c 0x80

abbrev no_glyph : ℕ → Bool
no_glyph c = false

abbrev text : List ℕ
text = 0x41 ∷ 0x3042 ∷ []

width : write_utf32_string ascii no_glyph text 0 ≡ 3
unfolding write_utf32_string is_hankaku
width = refl

write_utf8_string_lem_example :
    (write_utf8_string ascii no_glyph 3 (encode text) 0
      ≡ some (write_utf32_string ascii no_glyph text 0))
    × (write_utf8_string ascii no_glyph 100 (encode text ++ 0x81 ∷ []) 0 ≡ none)
write_utf8_string_lem_example =
    write_utf8_string_lem ascii no_glyph text 0 0x81 100 [] (omega arith) (omega arith)
      (omega arith)
