-- ===== src/Fat/Name/Tests.antt =====
-- A few file names, and the theorems at them.
use duvuvurkarpogeschel.Prelude.{◌≡◌, refl, true, false, [], ◌∷◌, arith}
use duvuvurkarpogeschel.Fat.Name.{set_file_name, name_is_equal, format_name}
use duvuvurkarpogeschel.Fat.Name.Matching.{dotted, created_is_found}
use duvuvurkarpogeschel.Fat.Name.Padding.{format_set_file_name}
use duvuvurkarpogeschel.Fat.Name.Long.{long_is_lost}

-- "ab.c" and "Ab.C".
created_is_found_example :
    name_is_equal (set_file_name (0x61 ∷ 0x62 ∷ 0x2e ∷ 0x63 ∷ [])) (0x41 ∷ 0x62 ∷ 0x2e ∷ 0x43 ∷ [])
    ≡ true
created_is_found_example =
    created_is_found (0x61 ∷ 0x62 ∷ 0x2e ∷ 0x63 ∷ []) (0x41 ∷ 0x62 ∷ 0x2e ∷ 0x43 ∷ [])
      (dotted (0x61 ∷ 0x62 ∷ []) (0x63 ∷ []) (omega arith)
        ((λ e. omega (arith, e)), ((λ e. omega (arith, e)), tt)) ((λ e. omega (arith, e)), tt))
      refl

-- "ab.c" is displayed as "AB.C".
format_set_file_name_example :
    format_name (set_file_name (0x61 ∷ 0x62 ∷ 0x2e ∷ 0x63 ∷ [])) ≡ 0x41 ∷ 0x42 ∷ 0x2e ∷ 0x43 ∷ []
format_set_file_name_example =
    format_set_file_name (0x61 ∷ 0x62 ∷ []) 0x63 [] (omega arith) (omega arith)
      ((λ e. omega (arith, e)), tt) ((λ e. omega (arith, e)), ((λ e. omega (arith, e)), tt))
      ((λ e. omega (arith, e)), tt)

-- "abcdefghi"
long_is_lost_example :
    name_is_equal
      (set_file_name (0x61 ∷ 0x62 ∷ 0x63 ∷ 0x64 ∷ 0x65 ∷ 0x66 ∷ 0x67 ∷ 0x68 ∷ 0x69 ∷ []))
      (0x61 ∷ 0x62 ∷ 0x63 ∷ 0x64 ∷ 0x65 ∷ 0x66 ∷ 0x67 ∷ 0x68 ∷ 0x69 ∷ [])
    ≡ false
long_is_lost_example =
    long_is_lost 0x61 0x62 0x63 0x64 0x65 0x66 0x67 0x68 0x69 []
      (
        (λ e. omega (arith, e)),
        (
          (λ e. omega (arith, e)),
          (
            (λ e. omega (arith, e)),
            (
              (λ e. omega (arith, e)),
              (
                (λ e. omega (arith, e)),
                (
                  (λ e. omega (arith, e)),
                  (
                    (λ e. omega (arith, e)),
                    ((λ e. omega (arith, e)), ((λ e. omega (arith, e)), tt)),
                  ),
                ),
              ),
            ),
          ),
        ),
      )
      (λ e. omega (arith, e))
