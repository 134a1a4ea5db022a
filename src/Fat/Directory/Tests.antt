-- ===== src/Fat/Directory/Tests.antt =====
-- A root directory of one cluster with one file in it.
use duvuvurkarpogeschel.Prelude.{
  ℕ, ◌≡◌, refl, false, some, List, [], ◌∷◌, ◌++◌, ◌==◌, if◌then◌else◌, replicate, arith, get_or,
  inl,
}
use duvuvurkarpogeschel.Error.{ok}
use duvuvurkarpogeschel.Fat.Name.{
  set_file_name, name_is_equal, fill_name83, same_bytes, strrchr, put_upper,
}
use duvuvurkarpogeschel.Fat.Name.Matching.{IsShort, dotted}
use duvuvurkarpogeschel.Fat.Volume.{DirectoryEntry}
use duvuvurkarpogeschel.Fat.Directory.{Directories, blank_entry, create_file, find_file, write_new}
use duvuvurkarpogeschel.Fat.Directory.Creation.{HasRoom, create_file-find_file}

-- "A.TXT"
abbrev file : DirectoryEntry
file = record {
  name = 0x41 ∷ replicate 7 0x20 ++ 0x54 ∷ 0x58 ∷ 0x54 ∷ [];
  attr = 0x20;
  first_cluster_high = 0;
  first_cluster_low = 5;
  file_size = 3;
}

abbrev volume : Directories
volume = record {
  fat = 0 ∷ 0 ∷ 0x0fffffff ∷ [];
  root_cluster = 2;
  entries = λ cluster. if cluster == 2 then file ∷ blank_entry ∷ [] else [];
}

-- "b.c" and "B.C"
abbrev small : List ℕ
small = 0x62 ∷ 0x2e ∷ 0x63 ∷ []

abbrev capital : List ℕ
capital = 0x42 ∷ 0x2e ∷ 0x43 ∷ []

other_name : name_is_equal file.name capital ≡ false
unfolding name_is_equal fill_name83 same_bytes
other_name = refl

blank_name : name_is_equal blank_entry.name capital ≡ false
unfolding name_is_equal fill_name83 same_bytes
blank_name = refl

short : IsShort small
short =
    dotted (0x62 ∷ []) (0x63 ∷ []) (omega arith) ((λ e. omega (arith, e)), tt)
      ((λ e. omega (arith, e)), tt)

stored : set_file_name small ≡ 0x42 ∷ replicate 7 0x20 ++ 0x43 ∷ 0x20 ∷ 0x20 ∷ []
unfolding set_file_name strrchr put_upper
stored = refl

stored_first : (get_or (set_file_name small) 0 0 == 0) ≡ false
stored_first = rw stored refl

room : HasRoom volume capital 1 2 (2, 1)
room = (omega arith, (other_name, (blank_name, tt)), inl (refl, (refl, refl)))

create_file-find_file_example :
    (create_file volume 16 1 1 small ≡ some (ok (2, 1), write_new volume (2, 1) small))
    × (find_file (write_new volume (2, 1) small) 2 1 capital 0 ≡ some (some (2, 1), false))
create_file-find_file_example =
    create_file-find_file volume capital small (2, 1) 16 1 1 short refl (refl, (refl, (refl, tt)))
      (refl, (refl, (refl, tt))) (omega arith) stored_first room
