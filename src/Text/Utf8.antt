-- ===== src/Text/Utf8.antt =====
-- kernel/lang/font.cpp and kernel/terminal.cpp: UTF-8. A text is the list of its bytes, without the
-- NUL that ends it; a read at its end or beyond gives that NUL.
pub mod RoundTrip
pub mod Width
mod Tests
use duvuvurkarpogeschel.Prelude.{
  ℕ, zero, suc, ◌+◌, ◌*◌, ◌/◌, ◌%◌, ◌^◌, Bool, true, false, ◌&&◌, Option, none, some, List, [], ◌∷◌,
  ◌==◌, leb, ltb, if◌then◌else◌, get_or, drop, bit_and, bit_or,
}

pub count_utf8_size : ℕ → ℕ
count_utf8_size c =
    if ltb c 0x80
    then 1
    else if leb 0xc0 c && ltb c 0xe0
    then 2
    else if leb 0xe0 c && ltb c 0xf0
    then 3
    else if leb 0xf0 c && ltb c 0xf8
    then 4
    else 0

abbrev pub byte : List ℕ → ℕ → ℕ
byte u8 i = get_or u8 i 0

-- The code point and the bytes that it takes.
pub convert_utf8_to_32 : List ℕ → ℕ × ℕ
convert_utf8_to_32 u8 =
    let size = count_utf8_size (byte u8 0) in
    let tail = λ (i : ℕ). bit_and (byte u8 i) 0x3f in
    if size == 1
    then (byte u8 0, 1)
    else if size == 2
    then (bit_or (bit_and (byte u8 0) 0x1f * 2 ^ 6) (tail 1), 2)
    else if size == 3
    then (bit_or (bit_or (bit_and (byte u8 0) 0x0f * 2 ^ 12) (tail 1 * 2 ^ 6)) (tail 2), 3)
    else if size == 4
    then (
      bit_or
          (bit_or (bit_or (bit_and (byte u8 0) 0x07 * 2 ^ 18) (tail 1 * 2 ^ 12)) (tail 2 * 2 ^ 6))
          (tail 3),
      4,
    )
    else (0, 0)

-- `static_cast<char>`, as a byte.
abbrev char_of : ℕ → ℕ
char_of c = c % 2 ^ 8

-- The bytes that are written; their number is the function's result.
pub convert_utf32_to_utf8 : ℕ → List ℕ
convert_utf32_to_utf8 c =
    let tail = λ (w : ℕ). bit_or 0x80 (bit_and (char_of w) 0x3f) in
    if leb c 0x7f
    then char_of c ∷ []
    else if leb c 0x07ff
    then bit_or 0xc0 (char_of (c / 2 ^ 6)) ∷ tail c ∷ []
    else if leb c 0xffff
    then bit_or 0xe0 (char_of (c / 2 ^ 12)) ∷ tail (c / 2 ^ 6) ∷ tail c ∷ []
    else bit_or 0xf0 (char_of (c / 2 ^ 18)) ∷ tail (c / 2 ^ 12) ∷ tail (c / 2 ^ 6) ∷ tail c ∷ []

-- The fonts that are generated into the kernel, by the code points that they have.
module _ (hankaku zenkaku : ℕ → Bool) where
  pub is_hankaku : ℕ → Bool
  is_hankaku c = if hankaku c then true else if zenkaku c then false else leb c 0x7f

  abbrev pub width_of : ℕ → ℕ
  width_of c = if is_hankaku c then 1 else 2

  -- The loop of `WriteUTF8String`, without the drawing. `none` means that the fuel ran out.
  pub write_utf8_string : (fuel : ℕ) → List ℕ → (x : ℕ) → Option ℕ
  write_utf8_string zero s x = none
  write_utf8_string (suc fuel) s x =
      let u32 = (convert_utf8_to_32 s).0 in
      let bytes = (convert_utf8_to_32 s).1 in
      let rest = write_utf8_string fuel (drop bytes s) (x + width_of u32) in
      if byte s 0 == 0 then some x else rest

  pub write_utf32_string : List ℕ → (x : ℕ) → ℕ
  write_utf32_string [] x = x
  write_utf32_string (c ∷ s) x = write_utf32_string s (x + width_of c)

  -- `WriteUTF32StringWithUpperLimit` and `WriteUTF32CharVecWithUpperLimit`.
  pub write_with_upper_limit : (max_width : ℕ) → List ℕ → (x : ℕ) → ℕ
  write_with_upper_limit max_width [] x = x
  write_with_upper_limit max_width (c ∷ s) x =
      let new_x = x + width_of c in
      if ltb max_width new_x then x else write_with_upper_limit max_width s new_x
