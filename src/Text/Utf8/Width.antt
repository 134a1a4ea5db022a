-- ===== src/Text/Utf8/Width.antt =====
-- How wide a text is drawn, and which texts the drawing loops end on.
use duvuvurkarpogeschel.Prelude.{
  ℕ, zero, suc, ◌+◌, ◌^◌, ◌<◌, ◌≤◌, ◌≡◌, refl, sym, ap, ◌∙◌, Bool, false, none, some, List, [], ◌∷◌,
  ◌++◌, ◌==◌, length, drop-length, All, arith,
}
use mathlib.Core.List.{append_assoc, append-nil}
use duvuvurkarpogeschel.Text.Utf8.{
  byte, count_utf8_size, convert_utf8_to_32, convert_utf32_to_utf8, width_of, write_utf8_string,
  write_utf32_string,
}
use duvuvurkarpogeschel.Text.Utf8.RoundTrip.{
  convert_utf32_to_utf8-bytes, convert_utf8_to_32-convert_utf32_to_utf8,
}

-- A code point of a text: not the NUL, and of 21 bits.
abbrev pub IsCodePoint : ℕ → Type 0
IsCodePoint c = (0 < c) × (c < 2 ^ 21)

abbrev pub encode : List ℕ → List ℕ
encode [] = []
encode (c ∷ cs) = convert_utf32_to_utf8 c ++ encode cs

pub length-convert_utf32_to_utf8 : (c : ℕ) → 0 < length (convert_utf32_to_utf8 c)
unfolding convert_utf32_to_utf8
length-convert_utf32_to_utf8 c = ground arith

-- No byte of a text is the NUL, its first one in particular.
pub first_byte :
    (c : ℕ) (rest : List ℕ)
    → IsCodePoint c
    → (byte (convert_utf32_to_utf8 c ++ rest) 0 == 0) ≡ false
first_byte c rest h = rw (convert_utf32_to_utf8-bytes c h.1) (ground arith)

stray_size :
    (stray : ℕ) (rest : List ℕ)
    → 0x80 ≤ stray
    → stray < 0xc0
    → convert_utf8_to_32 (stray ∷ rest) ≡ (0, 0)
unfolding convert_utf8_to_32 count_utf8_size
stray_size stray rest h k = ground arith

module _ (hankaku zenkaku : ℕ → Bool) where
  -- A byte that starts no code point takes the loop nowhere.
  stray_loops :
      (stray : ℕ) (rest : List ℕ) (fuel x : ℕ)
      → 0x80 ≤ stray
      → stray < 0xc0
      → write_utf8_string hankaku zenkaku fuel (stray ∷ rest) x ≡ none
  unfolding write_utf8_string
  stray_loops stray rest zero x h k = refl
  stray_loops stray rest (suc fuel) x h k =
      rw (stray_size stray rest h k)
        (ground (arith, stray_loops stray rest fuel (x + width_of hankaku zenkaku 0) h k))

  -- One round on a code point.
  round :
      (fuel c : ℕ) (rest : List ℕ) (x : ℕ)
      → IsCodePoint c
      → write_utf8_string hankaku zenkaku (suc fuel) (convert_utf32_to_utf8 c ++ rest) x
        ≡ write_utf8_string hankaku zenkaku fuel rest (x + width_of hankaku zenkaku c)
  unfolding write_utf8_string
  round fuel c rest x h =
      rw (first_byte c rest h, convert_utf8_to_32-convert_utf32_to_utf8 c rest h.1)
        (ap (λ s. write_utf8_string hankaku zenkaku fuel s (x + width_of hankaku zenkaku c))
          (drop-length (convert_utf32_to_utf8 c) rest))

  rounds :
      (fuel : ℕ) (cs rest : List ℕ) (x : ℕ)
      → All IsCodePoint cs
      → write_utf8_string hankaku zenkaku (length cs + fuel) (encode cs ++ rest) x
        ≡ write_utf8_string hankaku zenkaku fuel rest (write_utf32_string hankaku zenkaku cs x)
  unfolding write_utf32_string
  rounds fuel [] rest x h = let none : 0 + fuel ≡ fuel = omega arith in rw none refl
  rounds fuel (c ∷ cs) rest x h =
      let more : suc (length cs) + fuel ≡ suc (length cs + fuel) = omega arith in
      rw (more, append_assoc)
        (round (length cs + fuel) c (encode cs ++ rest) x h.0
          ∙ rounds fuel cs rest (x + width_of hankaku zenkaku c) h.1)

  endless :
      (fuel : ℕ) (cs : List ℕ) (x stray : ℕ) (rest : List ℕ)
      → All IsCodePoint cs
      → 0x80 ≤ stray
      → stray < 0xc0
      → write_utf8_string hankaku zenkaku fuel (encode cs ++ stray ∷ rest) x ≡ none
  endless zero cs x stray rest h low high = unfold write_utf8_string in refl
  endless (suc fuel) [] x stray rest h low high = stray_loops stray rest (suc fuel) x low high
  endless (suc fuel) (c ∷ cs) x stray rest h low high = rw append_assoc (
      round fuel c (encode cs ++ stray ∷ rest) x h.0
      ∙ endless fuel cs (x + width_of hankaku zenkaku c) stray rest h.1 low high)

  at_end : (x : ℕ) → write_utf8_string hankaku zenkaku 1 [] x ≡ some x
  unfolding write_utf8_string
  at_end x = refl

  -- On a text of code points WriteUTF8String ends, one round for each, with the width of
  -- WriteUTF32String on them. If a byte follows that starts no code point, from 0x80 to 0xbf, it
  -- does not end: no number of rounds is enough.
  pub write_utf8_string_lem :
      (cs : List ℕ) (x stray fuel : ℕ) (rest : List ℕ)
      → All IsCodePoint cs
      → 0x80 ≤ stray
      → stray < 0xc0
      → (write_utf8_string hankaku zenkaku (suc (length cs)) (encode cs) x
          ≡ some (write_utf32_string hankaku zenkaku cs x))
        × (write_utf8_string hankaku zenkaku fuel (encode cs ++ stray ∷ rest) x ≡ none)
  write_utf8_string_lem cs x stray fuel rest h low high =
      let last : length cs + 1 ≡ suc (length cs) = omega arith in
      let all : encode cs ++ [] ≡ encode cs = append-nil (encode cs) in
      (
        sym (ap (λ f. write_utf8_string hankaku zenkaku f (encode cs) x) last)
            ∙ sym (ap (λ s. write_utf8_string hankaku zenkaku (length cs + 1) s x) all)
            ∙ rounds 1 cs [] x h
            ∙ at_end (write_utf32_string hankaku zenkaku cs x),
        endless fuel cs x stray rest h low high,
      )
