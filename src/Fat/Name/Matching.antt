-- ===== src/Fat/Name/Matching.antt =====
-- The names that are found under the name under which they were stored.
use duvuvurkarpogeschel.Prelude.{
  ℕ, zero, suc, ◌+◌, ◌≤◌, ◌≡◌, ◌≢◌, refl, sym, ap, ◌∙◌, true, none, some, List, [], ◌∷◌, ◌++◌, map,
  ◌==◌, set, length, take, drop, All, arith,
}
use duvuvurkarpogeschel.Fat.Name.{
  dot, spaces, toupper, fill_name83, same_bytes, name_is_equal, strrchr, put_upper, put_parts,
  set_file_name,
}

abbrev pub HasNoDot : List ℕ → Type 0
HasNoDot name = All (λ c. c ≢ dot) name

-- Up to a dot, `NameIsEqual` copies as `SetFileName` does.
fill_name83-base :
    (base name name83 : List ℕ) (i left : ℕ)
    → HasNoDot base
    → length base ≤ left
    → i + left ≤ 10
    → fill_name83 (base ++ dot ∷ name) name83 i ≡ fill_name83 name (put_upper name83 i left base) 8
unfolding fill_name83 put_upper
fill_name83-base [] name name83 i zero h fits room = ground (arith, room)
fill_name83-base [] name name83 i (suc left) h fits room = ground (arith, room)
fill_name83-base (c ∷ base) name name83 i zero h fits room = absurd (omega (arith, fits))
fill_name83-base (c ∷ base) name name83 i (suc left) h fits room = ground (
  arith,
  h.0,
  room,
  fill_name83-base base name (set name83 i (toupper c)) (i + 1) left h.1 (omega (arith, fits))
      (omega (arith, room)),
)

-- The extension, or a name that has no dot.
pub fill_name83_rest :
    (name name83 : List ℕ) (i left : ℕ)
    → HasNoDot name
    → i + left ≡ 11
    → fill_name83 name name83 i ≡ put_upper name83 i left name
unfolding fill_name83 put_upper
fill_name83_rest [] name83 i zero h room = refl
fill_name83_rest [] name83 i (suc left) h room = refl
fill_name83_rest (c ∷ name) name83 i zero h room = ground (arith, room)
fill_name83_rest (c ∷ name) name83 i (suc left) h room = ground (
  arith,
  h.0,
  room,
  fill_name83_rest name (set name83 i (toupper c)) (i + 1) left h.1 (omega (arith, room)),
)

pub strrchr-none : (name : List ℕ) → HasNoDot name → strrchr name dot ≡ none
unfolding strrchr
strrchr-none [] h = refl
strrchr-none (c ∷ name) h = ground (arith, h.0, strrchr-none name h.1)

strrchr_last :
    (base ext : List ℕ) → HasNoDot ext → strrchr (base ++ dot ∷ ext) dot ≡ some (length base)
unfolding strrchr
strrchr_last [] ext h = ground (arith, strrchr-none ext h)
strrchr_last (c ∷ base) ext h = ground (arith, strrchr_last base ext h)

take-length : (base rest : List ℕ) → take (length base) (base ++ rest) ≡ base
take-length [] [] = refl
take-length [] (x ∷ rest) = refl
take-length (c ∷ base) rest = ap (λ cs. c ∷ cs) (take-length base rest)

drop-length : (base ext : List ℕ) → drop (suc (length base)) (base ++ dot ∷ ext) ≡ ext
drop-length [] ext = refl
drop-length (c ∷ base) ext = drop-length base ext

-- The source's `SetFileName`, once the dot is known.
pub set_file_name_parts :
    (base ext : List ℕ)
    → HasNoDot ext
    → set_file_name (base ++ dot ∷ ext) ≡ put_upper (put_upper spaces 0 8 base) 8 3 ext
unfolding set_file_name
set_file_name_parts base ext h =
    let next : length base + 1 ≡ suc (length base) = omega arith in
    ap (put_parts (base ++ dot ∷ ext)) (strrchr_last base ext h)
    ∙ ap
        (λ cs. put_upper (put_upper spaces 0 8 cs) 8 3 (drop (length base + 1) (base ++ dot ∷ ext)))
        (take-length base (dot ∷ ext))
    ∙ ap (λ k. put_upper (put_upper spaces 0 8 base) 8 3 (drop k (base ++ dot ∷ ext))) next
    ∙ ap (put_upper (put_upper spaces 0 8 base) 8 3) (drop-length base ext)

same_bytes_self : (xs : List ℕ) → same_bytes xs xs ≡ true
unfolding same_bytes
same_bytes_self [] = refl
same_bytes_self (x ∷ xs) = ground (arith, same_bytes_self xs)

-- A basic name of at most eight bytes, with or without an extension after its only dot.
pub data IsShort : List ℕ → Type 0 where
  plain : (base : List ℕ) → length base ≤ 8 → HasNoDot base → IsShort base
  dotted :
      (base ext : List ℕ)
      → length base ≤ 8
      → HasNoDot base
      → HasNoDot ext
      → IsShort (base ++ dot ∷ ext)

-- The limit of a copy does not matter to a name that is within it.
put_upper-within :
    (name bytes : List ℕ) (at a b : ℕ)
    → length bytes ≤ a
    → length bytes ≤ b
    → put_upper name at a bytes ≡ put_upper name at b bytes
unfolding put_upper
put_upper-within name [] at zero zero h k = refl
put_upper-within name [] at zero (suc b) h k = refl
put_upper-within name [] at (suc a) zero h k = refl
put_upper-within name [] at (suc a) (suc b) h k = refl
put_upper-within name (c ∷ bytes) at zero b h k = absurd (omega (arith, h))
put_upper-within name (c ∷ bytes) at (suc a) zero h k = absurd (omega (arith, k))
put_upper-within name (c ∷ bytes) at (suc a) (suc b) h k =
    put_upper-within (set name at (toupper c)) bytes (at + 1) a b (omega (arith, h))
      (omega (arith, k))

fill_name83-IsShort :
    (name : List ℕ) → IsShort name → fill_name83 name spaces 0 ≡ set_file_name name
unfolding set_file_name
fill_name83-IsShort _ (plain base fits h) =
    fill_name83_rest base spaces 0 11 h refl
    ∙ put_upper-within spaces base 0 11 8 (omega (arith, fits)) fits
    ∙ sym (ap (put_parts base) (strrchr-none base h))
fill_name83-IsShort _ (dotted base ext fits h k) =
    fill_name83-base base ext spaces 0 8 h fits (omega arith)
    ∙ fill_name83_rest ext (put_upper spaces 0 8 base) 8 3 k refl
    ∙ sym (set_file_name_parts base ext k)

toupper-toupper : (c : ℕ) → toupper (toupper c) ≡ toupper c
toupper-toupper c = ground arith

toupper-dot : (c : ℕ) → (toupper c == dot) ≡ (c == dot)
toupper-dot c = ground arith

fill_name83-toupper :
    (name name83 : List ℕ) (i : ℕ)
    → fill_name83 (map toupper name) name83 i ≡ fill_name83 name name83 i
unfolding fill_name83
fill_name83-toupper [] name83 i = refl
fill_name83-toupper (c ∷ name) name83 i =
    rw (toupper-toupper c, toupper-dot c)
      (ground (
        arith,
        fill_name83-toupper name name83 8,
        fill_name83-toupper name (set name83 i (toupper c)) (i + 1),
      ))

-- A file that is stored under a short name is found under every spelling of it that differs in the
-- case of letters only.
pub created_is_found :
    (name query : List ℕ)
    → IsShort name
    → map toupper query ≡ map toupper name
    → name_is_equal (set_file_name name) query ≡ true
unfolding name_is_equal
created_is_found name query short same =
    let stored : fill_name83 query spaces 0 ≡ set_file_name name =
      sym (fill_name83-toupper query spaces 0)
      ∙ ap (λ cs. fill_name83 cs spaces 0) same
      ∙ fill_name83-toupper name spaces 0
      ∙ fill_name83-IsShort name short in
    ap (same_bytes (set_file_name name)) stored ∙ same_bytes_self (set_file_name name)
