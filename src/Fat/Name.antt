-- ===== src/Fat/Name.antt =====
-- kernel/fat.cpp: 8.3 file names. A name is the list of its bytes, without the NUL that ends it in
-- the source; an entry's name is the list of its eleven bytes.
pub mod Matching
pub mod Padding
pub mod Long
mod Tests
use duvuvurkarpogeschel.Prelude.{
  ℕ, zero, suc, ◌+◌, ◌-◌, Bool, true, false, ◌&&◌, Option, none, some, List, [], ◌∷◌, ◌++◌, ◌==◌,
  leb, if◌then◌else◌, get_or, set, length, replicate, take, drop,
}

abbrev pub dot : ℕ
dot = 0x2e

abbrev pub space : ℕ
space = 0x20

abbrev pub slash : ℕ
slash = 0x2f

-- The C library's `toupper` in the C locale.
abbrev pub toupper : ℕ → ℕ
toupper c = if leb 0x61 c && leb c 0x7a then c - 0x20 else c

abbrev pub spaces : List ℕ
spaces = replicate 11 space

-- The loop of `NameIsEqual`. A dot sets `i83` to 7, and the loop's step to 8.
unfoldable pub fill_name83 : (name name83 : List ℕ) (i83 : ℕ) → List ℕ
fill_name83 [] name83 i83 = name83
fill_name83 (c ∷ name) name83 i83 =
    let at_extension = fill_name83 name name83 8 in
    let further = fill_name83 name (set name83 i83 (toupper c)) (i83 + 1) in
    if leb 11 i83 then name83 else if c == dot then at_extension else further

-- `memcmp` on two byte strings of one length.
unfoldable pub same_bytes : (xs ys : List ℕ) → Bool
same_bytes [] [] = true
same_bytes [] (y ∷ ys) = false
same_bytes (x ∷ xs) [] = false
same_bytes (x ∷ xs) (y ∷ ys) = (x == y) && same_bytes xs ys

unfoldable pub name_is_equal : (entry_name name : List ℕ) → Bool
name_is_equal entry_name name = same_bytes entry_name (fill_name83 name spaces 0)

abbrev prefer_later : Option ℕ → Bool → Option ℕ
prefer_later none true = some 0
prefer_later none false = none
prefer_later (some i) b = some (suc i)

-- The index of the last byte equal to `c`.
unfoldable pub strrchr : List ℕ → ℕ → Option ℕ
strrchr [] c = none
strrchr (x ∷ xs) c = prefer_later (strrchr xs c) (x == c)

-- A copying loop of `SetFileName`: at most `left` bytes, to `at` and on.
unfoldable pub put_upper : (name : List ℕ) (at left : ℕ) (bytes : List ℕ) → List ℕ
put_upper name at zero bytes = name
put_upper name at (suc left) [] = name
put_upper name at (suc left) (c ∷ bytes) = put_upper (set name at (toupper c)) (at + 1) left bytes

abbrev put_parts : List ℕ → Option ℕ → List ℕ
put_parts name none = put_upper spaces 0 8 name
put_parts name (some dot_pos) =
    put_upper (put_upper spaces 0 8 (take dot_pos name)) 8 3 (drop (dot_pos + 1) name)

-- The name that `SetFileName` gives an entry.
unfoldable pub set_file_name : List ℕ → List ℕ
set_file_name name = put_parts name (strrchr name dot)

-- The loop that clears the spaces at the end.
pub trim_end : List ℕ → List ℕ
trim_end [] = []
trim_end (c ∷ cs) = elim (trim_end cs) [
  | [] ↦ if c == space then [] else c ∷ []
  | (d ∷ ds) ↦ c ∷ d ∷ ds
]

-- The basic name and the extension.
pub read_name : List ℕ → List ℕ × List ℕ
read_name entry_name = (trim_end (take 8 entry_name), trim_end (take 3 (drop 8 entry_name)))

abbrev join : List ℕ × List ℕ → List ℕ
join (base, []) = base
join (base, c ∷ ext) = base ++ dot ∷ c ∷ ext

pub format_name : List ℕ → List ℕ
format_name entry_name = join (read_name entry_name)
