-- ===== src/Fat/Reader/Tests.antt =====
-- A volume with clusters of two bytes, and the theorem on reads at a file of three bytes.
use duvuvurkarpogeschel.Prelude.{◌%◌, ◌≡◌, refl, some, [], ◌∷◌, arith, take, drop, length, ap}
use duvuvurkarpogeschel.Fat.Table.Chain.{IsChain}
use duvuvurkarpogeschel.Fat.Volume.{Volume, DirectoryEntry, first_cluster, get_cluster_addr}
use duvuvurkarpogeschel.Fat.Reader.{FileDescriptor, new_descriptor, load}
use duvuvurkarpogeschel.Fat.Reader.Cursor.{chain_bytes}
use duvuvurkarpogeschel.Fat.Reader.Offset.{load_lem}
use duvuvurkarpogeschel.Fat.Reader.Contents.{reads, reads_file}

-- The byte at an address is the address; the chain of the file is 2, 4.
abbrev volume : Volume
volume = record {
  image = 0;
  bpb = record {
    bytes_per_sector = 2;
    sectors_per_cluster = 1;
    reserved_sector_count = 1;
    num_fats = 1;
    fat_size_32 = 10;
    root_cluster = 3;
  };
  fat = 0x0ffffff8 ∷ 0x0fffffff ∷ 4 ∷ 0x0fffffff ∷ 0x0fffffff ∷ [];
  memory = λ a. a % 256;
}

abbrev file : DirectoryEntry
file = record {
  name = [];
  attr = 0x20;
  first_cluster_high = 0;
  first_cluster_low = 2;
  file_size = 3;
}

file-IsChain : IsChain volume.fat (first_cluster file) (4 ∷ [])
unfolding first_cluster
file-IsChain = (omega arith, omega arith, refl, refl, (omega arith, omega arith, refl))

-- The clusters stand at 22 and 26.
file_bytes : chain_bytes volume (first_cluster file ∷ 4 ∷ []) ≡ 22 ∷ 23 ∷ 26 ∷ 27 ∷ []
unfolding first_cluster get_cluster_addr
file_bytes = refl

reads_file_example :
    (d : FileDescriptor) × (reads volume (new_descriptor file) (2 ∷ 5 ∷ [])
      ≡ some (take 3 (chain_bytes volume (first_cluster file ∷ 4 ∷ [])), d))
    × (d.rd_off ≡ 3)
reads_file_example =
    reads_file volume file (4 ∷ []) (2 ∷ 5 ∷ []) file-IsChain (omega arith)
      (omega (arith, ap length file_bytes)) (omega arith)

load_lem_example :
    (d : FileDescriptor) × (load volume (new_descriptor file) 2 1
      ≡ some (take 2 (drop 1 (chain_bytes volume (first_cluster file ∷ 4 ∷ []))), d))
unfolding new_descriptor
load_lem_example =
    load_lem volume (new_descriptor file) (4 ∷ []) 2 1 file-IsChain (omega arith)
      (omega (arith, ap length file_bytes)) (omega arith) (omega arith)
