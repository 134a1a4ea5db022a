-- ===== src/Fat/Writer/Tests.antt =====
-- A volume with clusters of four bytes, and a file of five bytes that is written over with three.
use duvuvurkarpogeschel.Prelude.{◌%◌, ◌≡◌, ◌≢◌, some, [], ◌∷◌, arith}
use duvuvurkarpogeschel.Fat.Volume.{Volume, DirectoryEntry, first_cluster}
use duvuvurkarpogeschel.Fat.Reader.{FileDescriptor, load_file}
use duvuvurkarpogeschel.Fat.Writer.{Writer, new_writer, write}
use duvuvurkarpogeschel.Fat.Writer.Small.{write-load_file}

abbrev volume : Volume
volume = record {
  image = 0;
  bpb = record {
    bytes_per_sector = 4;
    sectors_per_cluster = 1;
    reserved_sector_count = 1;
    num_fats = 1;
    fat_size_32 = 10;
    root_cluster = 3;
  };
  fat = 0x0ffffff8 ∷ 0x0fffffff ∷ 4 ∷ 0x0fffffff ∷ 0x0fffffff ∷ [];
  memory = λ a. a % 256;
}

abbrev file : DirectoryEntry
file = record {
  name = [];
  attr = 0x20;
  first_cluster_high = 0;
  first_cluster_low = 2;
  file_size = 5;
}

has_cluster : first_cluster file ≢ 0
unfolding first_cluster
has_cluster = omega arith

write-load_file_example :
    (w : Writer) × (write (new_writer volume file) (7 ∷ 8 ∷ 9 ∷ []) 3 ≡ some (3, w))
    × (w.fat_entry.file_size ≡ 3)
    × (d : FileDescriptor) × (load_file w.volume 3 w.fat_entry ≡ some (7 ∷ 8 ∷ 9 ∷ [], d))
write-load_file_example =
    write-load_file volume file (7 ∷ 8 ∷ 9 ∷ []) has_cluster (omega arith) (omega arith)
      (omega arith)
