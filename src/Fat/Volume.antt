-- ===== src/Fat/Volume.antt =====
-- kernel/fat.hpp and kernel/fat.cpp: the boot record, directory entries and the clusters' addresses.
use duvuvurkarpogeschel.Prelude.{ℕ, zero, suc, ◌+◌, ◌*◌, ◌%◌, ◌^◌, List, [], ◌∷◌, bit_or}
use duvuvurkarpogeschel.Prelude.Words.{add_size, sub_size, mul_size}

-- The fields of the boot record that the code reads.
pub record Bpb : Type 0 where
  pub bytes_per_sector : ℕ
  pub sectors_per_cluster : ℕ
  pub reserved_sector_count : ℕ
  pub num_fats : ℕ
  pub fat_size_32 : ℕ
  pub root_cluster : ℕ

-- `boot_volume_image` as an address and its boot record, the first table, and the memory's bytes.
pub record Volume : Type 0 where
  pub image : ℕ
  pub bpb : Bpb
  pub fat : List ℕ
  pub memory : ℕ → ℕ

abbrev pub bytes_per_cluster : Volume → ℕ
bytes_per_cluster v = v.bpb.bytes_per_sector * v.bpb.sectors_per_cluster

-- The first two terms are added as `uint32_t`.
unfoldable pub get_cluster_addr : Volume → ℕ → ℕ
get_cluster_addr v cluster =
    let system_area = (v.bpb.reserved_sector_count + v.bpb.num_fats * v.bpb.fat_size_32) % 2 ^ 32 in
    let sector_num =
      add_size system_area (mul_size (sub_size cluster 2) v.bpb.sectors_per_cluster) in
    add_size v.image (mul_size sector_num v.bpb.bytes_per_sector)

-- The bytes that `memcpy` reads.
abbrev pub bytes_at : (ℕ → ℕ) → (address n : ℕ) → List ℕ
bytes_at memory address zero = []
bytes_at memory address (suc n) = memory address ∷ bytes_at memory (address + 1) n

pub record DirectoryEntry : Type 0 where
  pub name : List ℕ
  pub attr : ℕ
  pub first_cluster_high : ℕ
  pub first_cluster_low : ℕ
  pub file_size : ℕ

unfoldable pub first_cluster : DirectoryEntry → ℕ
first_cluster e = bit_or e.first_cluster_low (e.first_cluster_high * 2 ^ 16)
