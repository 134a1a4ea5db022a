-- ===== src/File/Tests.antt =====
-- A descriptor that is its bytes.
use duvuvurkarpogeschel.Prelude.{
  ℕ, ◌+◌, ◌<◌, ◌≡◌, ◌⊎◌, refl, false, List, [], ◌∷◌, ◌++◌, length, arith,
}
use duvuvurkarpogeschel.File.{read_delim}
use duvuvurkarpogeschel.File.Delim.{uncons, has, IsStream, read_delim_lem}

abbrev whole : List ℕ → List ℕ
whole bytes = bytes

bytes-IsStream : IsStream uncons whole
bytes-IsStream bytes = (refl, refl)

-- "ab\nc"
abbrev two_lines : List ℕ
two_lines = 0x61 ∷ 0x62 ∷ 0x0a ∷ 0x63 ∷ []

read_delim_lem_example :
    let r = read_delim uncons 0x0a 1024 two_lines in
    (two_lines ≡ r.0 ++ r.1)
    × (length r.0 < 1024)
    × ((has 0x0a r.0 ≡ false) × ((length r.0 + 1 ≡ 1024) ⊎ (r.1 ≡ []))
        ⊎ (line : List ℕ) × (has 0x0a line ≡ false) × (r.0 ≡ line ++ 0x0a ∷ []))
read_delim_lem_example =
    read_delim_lem uncons whole bytes-IsStream 0x0a 1024 two_lines (omega arith)
