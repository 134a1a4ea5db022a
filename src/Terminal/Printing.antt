-- ===== src/Terminal/Printing.antt =====
-- The loop of `Print(const char*, len)` on text.
use duvuvurkarpogeschel.Prelude.{
  ℕ, suc, ◌+◌, ◌<◌, ◌≤◌, ◌≡◌, refl, sym, ap, ◌∙◌, Bool, true, some, List, [], ◌∷◌, ◌++◌, ltb,
  length, All, length-append, drop-length, arith,
}
use mathlib.Core.List.{append_assoc, append-nil}
use duvuvurkarpogeschel.Text.Utf8.{convert_utf32_to_utf8}
use duvuvurkarpogeschel.Text.Utf8.RoundTrip.{convert_utf8_to_32-convert_utf32_to_utf8}
use duvuvurkarpogeschel.Text.Utf8.Width.{
  IsCodePoint, encode, first_byte, length-convert_utf32_to_utf8,
}
use duvuvurkarpogeschel.Terminal.{Cursor, print_char, print_loop}

module _ (hankaku zenkaku : ℕ → Bool) where
  abbrev pub print_chars : Cursor → List ℕ → Cursor
  print_chars cursor [] = cursor
  print_chars cursor (c ∷ cs) = print_chars (print_char hankaku zenkaku cursor c) cs

  round :
      (fuel c : ℕ) (rest : List ℕ) (i len : ℕ) (cursor : Cursor)
      → IsCodePoint c
      → i < len
      → print_loop hankaku zenkaku (suc fuel) (convert_utf32_to_utf8 c ++ rest) i len cursor
        ≡ print_loop hankaku zenkaku fuel rest
            (i + length (convert_utf32_to_utf8 c))
            len
            (print_char hankaku zenkaku cursor c)
  unfolding print_loop
  round fuel c rest i len cursor h k =
      let inside : ltb i len ≡ true = ground arith in
      rw (first_byte c rest h, convert_utf8_to_32-convert_utf32_to_utf8 c rest h.1, inside)
        (ap
          (λ s.
            print_loop hankaku zenkaku fuel s (i + length (convert_utf32_to_utf8 c)) len
              (print_char hankaku zenkaku cursor c))
          (drop-length (convert_utf32_to_utf8 c) rest))

  rounds :
      (fuel : ℕ) (cs rest : List ℕ) (i len : ℕ) (cursor : Cursor)
      → All IsCodePoint cs
      → i + length (encode cs) ≤ len
      → print_loop hankaku zenkaku (length cs + fuel) (encode cs ++ rest) i len cursor
        ≡ print_loop hankaku zenkaku fuel rest (i + length (encode cs)) len (print_chars cursor cs)
  rounds fuel [] rest i len cursor h k =
      let none : 0 + fuel ≡ fuel = omega arith in
      let same : i + 0 ≡ i = omega arith in rw (none, same) refl
  rounds fuel (c ∷ cs) rest i len cursor h k =
      let more : suc (length cs) + fuel ≡ suc (length cs + fuel) = omega arith in
      let bytes = length-append (convert_utf32_to_utf8 c) (encode cs) in
      let one = length-convert_utf32_to_utf8 c in
      let total : i + length (convert_utf32_to_utf8 c) + length (encode cs)
          ≡ i + length (convert_utf32_to_utf8 c ++ encode cs) =
        omega (arith, bytes) in
      rw (more, append_assoc)
        (round (length cs + fuel) c (encode cs ++ rest) i len cursor h.0
            (omega (arith, k, bytes, one))
          ∙ rounds fuel cs rest (i + length (convert_utf32_to_utf8 c)) len
              (print_char hankaku zenkaku cursor c) h.1 (omega (arith, k, total))
          ∙ ap
              (λ j.
                print_loop hankaku zenkaku fuel rest j len
                  (print_chars (print_char hankaku zenkaku cursor c) cs))
              total)

  at_len :
      (rest : List ℕ) (len : ℕ) (cursor : Cursor)
      → print_loop hankaku zenkaku 1 rest len len cursor ≡ some cursor
  unfolding print_loop
  at_len rest len cursor = ground arith

  at_end :
      (i len : ℕ) (cursor : Cursor) → print_loop hankaku zenkaku 1 [] i len cursor ≡ some cursor
  unfolding print_loop
  at_end i len cursor = refl

  -- On a text of code points Print ends, one round for each, with the cursor that they lead to one
  -- after the other: when `len` is the length of the text, whatever follows it in memory, and when
  -- `len` is that or more and the text ends with a NUL.
  pub print_loop_lem :
      (cs rest : List ℕ) (len : ℕ) (cursor : Cursor)
      → All IsCodePoint cs
      → length (encode cs) ≤ len
      → (print_loop hankaku zenkaku
            (suc (length cs))
            (encode cs ++ rest)
            0
            (length (encode cs))
            cursor
          ≡ some (print_chars cursor cs))
        × (print_loop hankaku zenkaku (suc (length cs)) (encode cs) 0 len cursor
            ≡ some (print_chars cursor cs))
  print_loop_lem cs rest len cursor h k =
      let last : length cs + 1 ≡ suc (length cs) = omega arith in
      let from_zero : 0 + length (encode cs) ≡ length (encode cs) = omega arith in
      (
        sym (
              ap
                (λ f.
                  print_loop hankaku zenkaku f (encode cs ++ rest) 0 (length (encode cs)) cursor)
                last)
            ∙ rounds 1 cs rest 0 (length (encode cs)) cursor h (omega (arith, from_zero))
            ∙ ap
                (λ j.
                  print_loop hankaku zenkaku 1 rest j (length (encode cs)) (print_chars cursor cs))
                from_zero
            ∙ at_len rest (length (encode cs)) (print_chars cursor cs),
        sym (ap (λ f. print_loop hankaku zenkaku f (encode cs) 0 len cursor) last)
            ∙ sym (
                ap (λ s. print_loop hankaku zenkaku (length cs + 1) s 0 len cursor)
                  (append-nil (encode cs)))
            ∙ rounds 1 cs [] 0 len cursor h (omega (arith, k, from_zero))
            ∙ at_end (0 + length (encode cs)) len (print_chars cursor cs),
      )
