-- ===== src/Fat/Reader.antt =====
-- kernel/fat.cpp: reading through a file descriptor.
pub mod Cursor
pub mod Contents
pub mod Offset
pub mod Short
mod Tests
use duvuvurkarpogeschel.Prelude.{
  ℕ, zero, suc, ◌+◌, ◌-◌, ◌%◌, ◌^◌, min, Bool, true, false, Option, none, some, List, [], ◌∷◌, ◌++◌,
  ◌==◌, leb, ltb, if◌then◌else◌, length,
}
use duvuvurkarpogeschel.Prelude.Words.{add_size, sub_size}
use duvuvurkarpogeschel.Fat.Table.{next_cluster}
use duvuvurkarpogeschel.Fat.Volume.{
  Volume, bytes_per_cluster, get_cluster_addr, bytes_at, DirectoryEntry, first_cluster,
}

-- `rd_cluster_` and `rd_cluster_off_`
pub record Position : Type 0 where
  pub cluster : ℕ
  pub offset : ℕ

-- The reading side of `FileDescriptor`.
pub record FileDescriptor : Type 0 where
  pub fat_entry : DirectoryEntry
  pub rd_off : ℕ
  pub rd : Position

pub new_descriptor : DirectoryEntry → FileDescriptor
new_descriptor e = record { fat_entry = e; rd_off = 0; rd = record { cluster = 0; offset = 0 } }

pub advance : Volume → Position → ℕ → Position
advance v p n =
    if p.offset + n == bytes_per_cluster v
    then record { cluster = next_cluster v.fat p.cluster; offset = 0 }
    else record p { offset = p.offset + n }

abbrev pub prepend : List ℕ → Option (List ℕ × Position) → Option (List ℕ × Position)
prepend chunk none = none
prepend chunk (some (bytes, p)) = some (chunk ++ bytes, p)

-- The loop of `Read`: what it copies to the buffer. `none` means that the fuel ran out.
pub read_loop : Volume → (fuel len total : ℕ) → Position → Option (List ℕ × Position)
read_loop v zero len total p = none
read_loop v (suc fuel) len total p =
    let n = min (len - total) (bytes_per_cluster v - p.offset) in
    let chunk = bytes_at v.memory (get_cluster_addr v p.cluster + p.offset) n in
    let rest = read_loop v fuel len (total + n) (advance v p n) in
    if ltb total len then prepend chunk rest else some ([], p)

-- `if (rd_cluster_ == 0)`
pub start : FileDescriptor → Position
start d = if d.rd.cluster == 0 then record (d.rd) { cluster = first_cluster d.fat_entry } else d.rd

abbrev pub moved : FileDescriptor → Option (List ℕ × Position) → Option (List ℕ × FileDescriptor)
moved d none = none
moved d (some (bytes, p)) =
    some (bytes, record d { rd_off = add_size d.rd_off (length bytes); rd = p })

-- The bytes that `Read` copies, as many as it returns, and the descriptor after it.
pub read : Volume → FileDescriptor → ℕ → Option (List ℕ × FileDescriptor)
read v d len =
    let limit = min len (sub_size d.fat_entry.file_size d.rd_off) in
    moved d (read_loop v (suc limit) limit 0 (start d))

pub load_file : Volume → ℕ → DirectoryEntry → Option (List ℕ × FileDescriptor)
load_file v len e = read v (new_descriptor e) len

-- The loop of `Load`: the position in the chain at an offset. `none` means that the fuel ran out.
pub skip_clusters : Volume → (fuel offset cluster : ℕ) → Option Position
skip_clusters v zero offset cluster = none
skip_clusters v (suc fuel) offset cluster =
    let further =
      skip_clusters v fuel (offset - bytes_per_cluster v) (next_cluster v.fat cluster) in
    if leb (bytes_per_cluster v) offset
    then further
    else some (record { cluster = cluster; offset = offset })

abbrev pub read_at :
    Volume → DirectoryEntry → (len offset : ℕ) → Option Position → Option (List ℕ × FileDescriptor)
read_at v e len offset none = none
read_at v e len offset (some p) = read v (record { fat_entry = e; rd_off = offset; rd = p }) len

-- `Load` reads through a descriptor of its own.
pub load : Volume → FileDescriptor → (len offset : ℕ) → Option (List ℕ × FileDescriptor)
load v d len offset =
    read_at v d.fat_entry len offset
      (skip_clusters v (suc offset) offset (first_cluster d.fat_entry))
