-- ===== src/Fat/Name/Long.antt =====
-- Names without a dot that are too long for the basic name.
use duvuvurkarpogeschel.Prelude.{ℕ, ◌≡◌, ◌≢◌, refl, ap, ◌∙◌, false, List, [], ◌∷◌, ◌++◌, arith}
use duvuvurkarpogeschel.Fat.Name.{
  space, spaces, toupper, put_upper, put_parts, set_file_name, fill_name83, same_bytes,
  name_is_equal,
}
use duvuvurkarpogeschel.Fat.Name.Matching.{HasNoDot, fill_name83_rest, strrchr-none}
use duvuvurkarpogeschel.Fat.Name.Padding.{pad, put_upper-pad, append_nil}

blank_differs :
    (xs : List ℕ) (c : ℕ) (ys zs : List ℕ)
    → c ≢ space
    → same_bytes (xs ++ space ∷ ys) (xs ++ c ∷ zs) ≡ false
unfolding same_bytes
blank_differs [] c ys zs h = ground (arith, h)
blank_differs (x ∷ xs) c ys zs h = ground (arith, blank_differs xs c ys zs h)

-- `SetFileName` stores eight bytes of a name with no dot, and `NameIsEqual` compares eleven: a file
-- that is created under such a name of nine bytes or more is not found under it.
pub long_is_lost :
    (c0 c1 c2 c3 c4 c5 c6 c7 c8 : ℕ) (rest : List ℕ)
    → let name = c0 ∷ c1 ∷ c2 ∷ c3 ∷ c4 ∷ c5 ∷ c6 ∷ c7 ∷ c8 ∷ rest in
      HasNoDot name → c8 ≢ space → name_is_equal (set_file_name name) name ≡ false
unfolding name_is_equal set_file_name put_upper
long_is_lost c0 c1 c2 c3 c4 c5 c6 c7 c8 rest h visible =
    let name : List ℕ = c0 ∷ c1 ∷ c2 ∷ c3 ∷ c4 ∷ c5 ∷ c6 ∷ c7 ∷ c8 ∷ rest in
    let front : List ℕ = pad 8 name in
    ap (λ stored. same_bytes (put_parts name stored) (fill_name83 name spaces 0))
      (strrchr-none name h)
    ∙ ap (same_bytes (front ++ pad 3 [])) (
        fill_name83_rest name spaces 0 11 h refl
        ∙ put_upper-pad [] 11 name []
        ∙ append_nil (pad 11 name))
    ∙ blank_differs front (toupper c8) (pad 2 []) (pad 2 rest) (ground (arith, visible))
