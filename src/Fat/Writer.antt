-- ===== src/Fat/Writer.antt =====
-- kernel/fat.cpp: writing through a file descriptor. The volume's table and memory are written too.
-- A read behind the end of the buffer gives 0.
pub mod Small
mod Tests
use duvuvurkarpogeschel.Prelude.{
  ℕ, zero, suc, ◌+◌, ◌-◌, ◌/◌, ◌%◌, ◌^◌, min, Bool, Option, none, some, List, [], ◌∷◌, ◌==◌, ltb,
  if◌then◌else◌, get_or,
}
use duvuvurkarpogeschel.Prelude.Words.{add_size, sub_size}
use duvuvurkarpogeschel.Fat.Table.{
  end_of_clusterchain, next_cluster, extend_cluster, allocate_cluster_chain,
}
use duvuvurkarpogeschel.Fat.Volume.{
  Volume, bytes_per_cluster, get_cluster_addr, DirectoryEntry, first_cluster,
}

-- The writing side of `FileDescriptor`, with the volume.
pub record Writer : Type 0 where
  pub volume : Volume
  pub fat_entry : DirectoryEntry
  pub wr_cluster : ℕ
  pub wr_cluster_off : ℕ
  pub wr_off : ℕ

-- A descriptor as it is made for an entry.
abbrev pub new_writer : Volume → DirectoryEntry → Writer
new_writer v e = record {
  volume = v;
  fat_entry = e;
  wr_cluster = 0;
  wr_cluster_off = 0;
  wr_off = 0;
}

-- `num_cluster`
pub num_cluster : Volume → (bytes : ℕ) → ℕ
num_cluster v bytes = sub_size (add_size bytes (bytes_per_cluster v)) 1 / bytes_per_cluster v

with_fat : Writer → List ℕ → Writer
with_fat w fat = record w { volume = record (w.volume) { fat = fat } }

-- A file with no cluster gets a chain of its own.
new_chain : Writer → Option (List ℕ × ℕ) → Option Writer
new_chain w none = none
new_chain w (some (fat, cluster)) = some (record (with_fat w fat) {
  wr_cluster = cluster;
  fat_entry = record (w.fat_entry) {
    first_cluster_low = cluster % 2 ^ 16;
    first_cluster_high = cluster / 2 ^ 16 % 2 ^ 16;
  };
})

-- `if (wr_cluster_ == 0)`
pub start_writing : Writer → (len : ℕ) → Option Writer
start_writing w len =
    let first = first_cluster w.fat_entry in
    let chain = new_chain w (allocate_cluster_chain w.volume.fat (num_cluster w.volume len)) in
    if w.wr_cluster == 0
    then if first == 0 then chain else some (record w { wr_cluster = first })
    else some w

extended : Writer → Option (List ℕ × ℕ) → Option Writer
extended w none = none
extended w (some (fat, cluster)) =
    some (record (with_fat w fat) { wr_cluster = cluster; wr_cluster_off = 0 })

-- The step to another cluster when one is full; at the end of the chain it is extended by what is
-- left to write, and the new last cluster is the next one.
pub next_to_write : Writer → (left : ℕ) → Option Writer
next_to_write w left =
    let next = next_cluster w.volume.fat w.wr_cluster in
    let more = extended w (extend_cluster w.volume.fat w.wr_cluster (num_cluster w.volume left)) in
    if w.wr_cluster_off == bytes_per_cluster w.volume
    then if next == end_of_clusterchain
      then more
      else some (record w { wr_cluster = next; wr_cluster_off = 0 })
    else some w

-- The `memcpy` of bytes `from` and on of the buffer.
pub copy_bytes : (ℕ → ℕ) → (address : ℕ) → List ℕ → (from n : ℕ) → ℕ → ℕ
copy_bytes memory address buf from zero = memory
copy_bytes memory address buf from (suc n) =
    copy_bytes (λ a. if a == address then get_or buf from 0 else memory a) (address + 1) buf
      (from + 1) n

-- The copy in the loop: the number of bytes is the smaller one of `len` and the room in the cluster.
pub write_piece : Writer → List ℕ → (len total : ℕ) → ℕ × Writer
write_piece w buf len total =
    let n = min len (sub_size (bytes_per_cluster w.volume) w.wr_cluster_off) in
    let address = add_size (get_cluster_addr w.volume w.wr_cluster) w.wr_cluster_off in
    (
      n,
      record w {
        volume = record (w.volume) { memory = copy_bytes w.volume.memory address buf total n };
        wr_cluster_off = w.wr_cluster_off + n;
      },
    )

piece_and_rest :
    Option Writer
    → List ℕ
    → (len total : ℕ) → (ℕ → Writer → Option (ℕ × Writer))
    → Option (ℕ × Writer)
piece_and_rest none buf len total rest = none
piece_and_rest (some w) buf len total rest =
    let piece = write_piece w buf len total in rest (total + piece.0) piece.1

-- The loop of `Write`. `none` means that the fuel ran out or no cluster is free.
pub write_loop : (fuel : ℕ) → Writer → List ℕ → (len total : ℕ) → Option (ℕ × Writer)
write_loop zero w buf len total = none
write_loop (suc fuel) w buf len total =
    let step =
      piece_and_rest (next_to_write w (len - total)) buf len total
        (λ (t : ℕ) (u : Writer). write_loop fuel u buf len t) in
    if ltb total len then step else some (total, w)

finish_writing : Option (ℕ × Writer) → Option (ℕ × Writer)
finish_writing none = none
finish_writing (some (total, w)) =
    let wr_off = add_size w.wr_off total in
    some (
      total,
      record w {
        wr_off = wr_off;
        fat_entry = record (w.fat_entry) { file_size = wr_off % 2 ^ 32 };
      },
    )

write_started : Option Writer → List ℕ → (len : ℕ) → Option (ℕ × Writer)
write_started none buf len = none
write_started (some w) buf len = finish_writing (write_loop (suc len) w buf len 0)

-- The number of bytes that `Write` returns, and the descriptor and volume after it.
pub write : Writer → List ℕ → (len : ℕ) → Option (ℕ × Writer)
write w buf len = write_started (start_writing w len) buf len
