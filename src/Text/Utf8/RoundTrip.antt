-- ===== src/Text/Utf8/RoundTrip.antt =====
-- A code point that is written as UTF-8 is read back.
use duvuvurkarpogeschel.Prelude.{
  ℕ, ◌+◌, ◌*◌, ◌/◌, ◌%◌, ◌^◌, ◌<◌, ◌≡◌, ap, ◌∙◌, List, [], ◌∷◌, ◌++◌, length, bit_and, bit_or,
  arith, leb, if◌then◌else◌,
}
use duvuvurkarpogeschel.Prelude.Masks.{bit_or-shift, bit_and_low}
use duvuvurkarpogeschel.Text.Utf8.{count_utf8_size, convert_utf8_to_32, convert_utf32_to_utf8}

-- A following byte holds six digits.
tail_holds : (t : ℕ) → t < 64 → bit_and (128 + t) 63 ≡ t
tail_holds t h = bit_and_low 6 (128 + t) 2 t (omega arith) h

tail_byte : (w : ℕ) → bit_or 0x80 (bit_and (w % 256) 0x3f) ≡ 128 + w % 64
tail_byte w =
    ap (bit_or 128) (bit_and_low 6 (w % 256) (w % 256 / 64) (w % 64) (omega arith) (omega arith))
    ∙ bit_or-shift 6 2 (w % 64) (omega arith)

-- The digits of a text of two, three or four bytes, put together.
join_2 : (u t : ℕ) → u < 32 → t < 64 → bit_or (u * 2 ^ 6) t ≡ u * 64 + t
join_2 u t h k = bit_or-shift 6 u t k

join_3 :
    (u t s : ℕ)
    → t < 64
    → s < 64
    → bit_or (bit_or (u * 2 ^ 12) (t * 2 ^ 6)) s ≡ u * 4096 + t * 64 + s
join_3 u t s h k =
    let regroup : u * 4096 + t * 64 ≡ (u * 64 + t) * 64 = omega arith in
    ap (λ w. bit_or w s) (bit_or-shift 12 u (t * 64) (omega (arith, h)) ∙ regroup)
    ∙ bit_or-shift 6 (u * 64 + t) s k
    ∙ omega arith

join_4 :
    (u t s r : ℕ)
    → t < 64
    → s < 64
    → r < 64
    → bit_or (bit_or (bit_or (u * 2 ^ 18) (t * 2 ^ 12)) (s * 2 ^ 6)) r
      ≡ u * 262144 + t * 4096 + s * 64 + r
join_4 u t s r h k l =
    let regroup : u * 262144 + t * 4096 ≡ (u * 64 + t) * 4096 = omega arith in
    ap (λ w. bit_or (bit_or w (s * 64)) r)
      (bit_or-shift 18 u (t * 4096) (omega (arith, h)) ∙ regroup)
    ∙ join_3 (u * 64 + t) s r k l
    ∙ omega arith

decode_1 : (c : ℕ) (rest : List ℕ) → c < 128 → convert_utf8_to_32 (c ∷ rest) ≡ (c, 1)
unfolding convert_utf8_to_32 count_utf8_size
decode_1 c rest h = ground arith

decode_2 :
    (u t : ℕ) (rest : List ℕ)
    → u < 32
    → t < 64
    → convert_utf8_to_32 ((192 + u) ∷ (128 + t) ∷ rest) ≡ (u * 64 + t, 2)
unfolding convert_utf8_to_32 count_utf8_size
decode_2 u t rest h k =
    ground (arith, tail_holds t k, bit_and_low 5 (192 + u) 6 u (omega arith) h, join_2 u t h k)

decode_3 :
    (u t s : ℕ) (rest : List ℕ)
    → u < 16
    → t < 64
    → s < 64
    → convert_utf8_to_32 ((224 + u) ∷ (128 + t) ∷ (128 + s) ∷ rest) ≡ (u * 4096 + t * 64 + s, 3)
unfolding convert_utf8_to_32 count_utf8_size
decode_3 u t s rest h k l = ground (
  arith,
  tail_holds t k,
  tail_holds s l,
  bit_and_low 4 (224 + u) 14 u (omega arith) h,
  join_3 u t s k l,
)

decode_4 :
    (u t s r : ℕ) (rest : List ℕ)
    → u < 8
    → t < 64
    → s < 64
    → r < 64
    → convert_utf8_to_32 ((240 + u) ∷ (128 + t) ∷ (128 + s) ∷ (128 + r) ∷ rest)
      ≡ (u * 262144 + t * 4096 + s * 64 + r, 4)
unfolding convert_utf8_to_32 count_utf8_size
decode_4 u t s r rest h k l m = ground (
  arith,
  tail_holds t k,
  tail_holds s l,
  tail_holds r m,
  bit_and_low 3 (240 + u) 30 u (omega arith) h,
  join_4 u t s r k l m,
)

-- The bytes of a code point by arithmetic.
abbrev pub bytes_of : ℕ → List ℕ
bytes_of c =
    if leb c 0x7f
    then c ∷ []
    else if leb c 0x7ff
    then (192 + c / 64) ∷ (128 + c % 64) ∷ []
    else if leb c 0xffff
    then (224 + c / 4096) ∷ (128 + c / 64 % 64) ∷ (128 + c % 64) ∷ []
    else (240 + c / 262144) ∷ (128 + c / 4096 % 64) ∷ (128 + c / 64 % 64) ∷ (128 + c % 64) ∷ []

pub convert_utf32_to_utf8-bytes : (c : ℕ) → c < 2 ^ 21 → convert_utf32_to_utf8 c ≡ bytes_of c
unfolding convert_utf32_to_utf8
convert_utf32_to_utf8-bytes c h = ground (
  arith,
  tail_byte c,
  tail_byte (c / 64),
  tail_byte (c / 4096),
  bit_or-shift 6 3 (c / 64 % 256),
  bit_or-shift 5 7 (c / 4096 % 256),
  bit_or-shift 4 15 (c / 262144 % 256),
)

-- ConvertUTF8To32 reads what ConvertUTF32toUTF8 writes, whatever follows it, and says how many bytes
-- it took, for all code points of 21 bits.
pub convert_utf8_to_32-convert_utf32_to_utf8 :
    (c : ℕ) (rest : List ℕ)
    → c < 2 ^ 21
    → convert_utf8_to_32 (convert_utf32_to_utf8 c ++ rest) ≡ (c, length (convert_utf32_to_utf8 c))
convert_utf8_to_32-convert_utf32_to_utf8 c rest h = rw (convert_utf32_to_utf8-bytes c h) (
    ground (
      arith,
      decode_1 c rest,
      decode_2 (c / 64) (c % 64) rest,
      decode_3 (c / 4096) (c / 64 % 64) (c % 64) rest,
      decode_4 (c / 262144) (c / 4096 % 64) (c / 64 % 64) (c % 64) rest,
    ))
