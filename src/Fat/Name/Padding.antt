-- ===== src/Fat/Name/Padding.antt =====
-- The padded fields of an entry's name, and reading back a name that was stored.
use duvuvurkarpogeschel.Prelude.{
  ℕ, zero, suc, ◌+◌, ◌≤◌, ◌≡◌, ◌≢◌, refl, sym, ap, ◌∙◌, List, [], ◌∷◌, ◌++◌, map, set, length, take,
  drop, All, arith,
}
use duvuvurkarpogeschel.Fat.Name.{
  dot, space, toupper, put_upper, set_file_name, trim_end, read_name, format_name, join,
}
use duvuvurkarpogeschel.Fat.Name.Matching.{HasNoDot, set_file_name_parts}

-- A field of a fixed width: the name in capitals, then spaces.
abbrev pub pad : ℕ → List ℕ → List ℕ
pad zero bytes = []
pad (suc n) [] = space ∷ pad n []
pad (suc n) (c ∷ bytes) = toupper c ∷ pad n bytes

abbrev pub HasNoSpace : List ℕ → Type 0
HasNoSpace name = All (λ c. c ≢ space) name

append-cons : (xs : List ℕ) (v : ℕ) (ys : List ℕ) → (xs ++ v ∷ []) ++ ys ≡ xs ++ v ∷ ys
append-cons [] v ys = refl
append-cons (x ∷ xs) v ys = ap (λ zs. x ∷ zs) (append-cons xs v ys)

length_snoc : (xs : List ℕ) (v : ℕ) → length (xs ++ v ∷ []) ≡ length xs + 1
length_snoc [] v = omega arith
length_snoc (x ∷ xs) v = omega (arith, length_snoc xs v)

set-append : (xs : List ℕ) (u v : ℕ) (ys : List ℕ) → set (xs ++ u ∷ ys) (length xs) v ≡ xs ++ v ∷ ys
set-append [] u v ys = refl
set-append (x ∷ xs) u v ys = ap (λ zs. x ∷ zs) (set-append xs u v ys)

-- A copy to a blank field pads it.
pub put_upper-pad :
    (front : List ℕ) (n : ℕ) (bytes rest : List ℕ)
    → put_upper (front ++ (pad n [] ++ rest)) (length front) n bytes
      ≡ front ++ (pad n bytes ++ rest)
unfolding put_upper
put_upper-pad front zero bytes rest = refl
put_upper-pad front (suc n) [] rest = refl
put_upper-pad front (suc n) (c ∷ bytes) rest =
    ap (λ name. put_upper name (length front + 1) n bytes)
      (set-append front space (toupper c) (pad n [] ++ rest)
        ∙ sym (append-cons front (toupper c) (pad n [] ++ rest)))
    ∙ ap (λ i. put_upper ((front ++ toupper c ∷ []) ++ (pad n [] ++ rest)) i n bytes)
        (sym (length_snoc front (toupper c)))
    ∙ put_upper-pad (front ++ toupper c ∷ []) n bytes rest
    ∙ append-cons front (toupper c) (pad n bytes ++ rest)

pub append_nil : (xs : List ℕ) → xs ++ [] ≡ xs
append_nil [] = refl
append_nil (x ∷ xs) = ap (λ ys. x ∷ ys) (append_nil xs)

length-pad : (n : ℕ) (bytes : List ℕ) → length (pad n bytes) ≡ n
length-pad zero bytes = refl
length-pad (suc n) [] = ap suc (length-pad n [])
length-pad (suc n) (c ∷ bytes) = ap suc (length-pad n bytes)

set_file_name-pad :
    (base ext : List ℕ) → HasNoDot ext → set_file_name (base ++ dot ∷ ext) ≡ pad 8 base ++ pad 3 ext
set_file_name-pad base ext h =
    set_file_name_parts base ext h
    ∙ ap (λ name. put_upper name 8 3 ext) (put_upper-pad [] 8 base (pad 3 []))
    ∙ ap (λ i. put_upper (pad 8 base ++ pad 3 []) i 3 ext) (sym (length-pad 8 base))
    ∙ put_upper-pad (pad 8 base) 3 ext []
    ∙ ap (λ cs. pad 8 base ++ cs) (append_nil (pad 3 ext))

take-pad : (n : ℕ) (bytes rest : List ℕ) → take n (pad n bytes ++ rest) ≡ pad n bytes
take-pad zero bytes rest = refl
take-pad (suc n) [] rest = ap (λ cs. space ∷ cs) (take-pad n [] rest)
take-pad (suc n) (c ∷ bytes) rest = ap (λ cs. toupper c ∷ cs) (take-pad n bytes rest)

drop-pad : (n : ℕ) (bytes rest : List ℕ) → drop n (pad n bytes ++ rest) ≡ rest
drop-pad zero bytes rest = refl
drop-pad (suc n) [] rest = drop-pad n [] rest
drop-pad (suc n) (c ∷ bytes) rest = drop-pad n bytes rest

trim_blank : (n : ℕ) → trim_end (pad n []) ≡ []
unfolding trim_end
trim_blank zero = refl
trim_blank (suc n) = rw (trim_blank n) refl

trim_end-pad :
    (n : ℕ) (bytes : List ℕ)
    → length bytes ≤ n
    → HasNoSpace bytes
    → trim_end (pad n bytes) ≡ map toupper bytes
unfolding trim_end
trim_end-pad n [] fits h = trim_blank n
trim_end-pad zero (c ∷ bytes) fits h = absurd (omega (arith, fits))
trim_end-pad (suc n) (c ∷ []) fits h = rw (trim_blank n) (ground (arith, h.0))
trim_end-pad (suc n) (c ∷ d ∷ bytes) fits h =
    rw (trim_end-pad n (d ∷ bytes) (omega (arith, fits)) h.1) refl

map-append_dot :
    (base ext : List ℕ)
    → map toupper (base ++ dot ∷ ext) ≡ map toupper base ++ dot ∷ map toupper ext
map-append_dot [] ext = refl
map-append_dot (c ∷ base) ext = ap (λ cs. toupper c ∷ cs) (map-append_dot base ext)

read_name-pad :
    (base ext : List ℕ)
    → length base ≤ 8
    → length ext ≤ 3
    → HasNoSpace base
    → HasNoSpace ext
    → read_name (pad 8 base ++ pad 3 ext) ≡ (map toupper base, map toupper ext)
unfolding read_name
read_name-pad base ext fits fits' h h' =
    let front : trim_end (take 8 (pad 8 base ++ pad 3 ext)) ≡ map toupper base =
      ap trim_end (take-pad 8 base (pad 3 ext)) ∙ trim_end-pad 8 base fits h in
    let back : trim_end (take 3 (drop 8 (pad 8 base ++ pad 3 ext))) ≡ map toupper ext =
      ap (λ cs. trim_end (take 3 cs)) (drop-pad 8 base (pad 3 ext) ∙ sym (append_nil (pad 3 ext)))
      ∙ ap trim_end (take-pad 3 ext [])
      ∙ trim_end-pad 3 ext fits' h' in
    λ i. (front i, back i)

-- A stored name of at most eight bytes with an extension of one to three bytes, with no dot in
-- the extension and no space, is displayed in capitals.
pub format_set_file_name :
    (base : List ℕ) (e : ℕ) (ext : List ℕ)
    → length base ≤ 8
    → length (e ∷ ext) ≤ 3
    → HasNoDot (e ∷ ext)
    → HasNoSpace base
    → HasNoSpace (e ∷ ext)
    → format_name (set_file_name (base ++ dot ∷ e ∷ ext)) ≡ map toupper (base ++ dot ∷ e ∷ ext)
unfolding format_name
format_set_file_name base e ext fits fits' h k k' =
    ap format_name (set_file_name-pad base (e ∷ ext) h)
    ∙ ap join (read_name-pad base (e ∷ ext) fits fits' k k')
    ∙ sym (map-append_dot base (e ∷ ext))
