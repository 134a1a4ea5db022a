-- ===== src/Fat/Writer/Small.antt =====
-- A file that is written in one piece, within its first cluster, and read again.
use duvuvurkarpogeschel.Prelude.{
  ℕ, zero, suc, ◌+◌, ◌-◌, ◌^◌, ◌<◌, ◌≤◌, ◌≡◌, ◌≢◌, refl, sym, ap, ◌∙◌, min, true, false, some, List,
  [], ◌∷◌, ◌==◌, ltb, lt→ltb, if◌then◌else◌, get_or, length, arith,
}
use duvuvurkarpogeschel.Prelude.Words.{add_size, sub_size}
use duvuvurkarpogeschel.Fat.Volume.{
  Volume, bytes_per_cluster, get_cluster_addr, bytes_at, DirectoryEntry, first_cluster,
}
use duvuvurkarpogeschel.Fat.Reader.{FileDescriptor, load_file}
use duvuvurkarpogeschel.Fat.Reader.Short.{load_file_short}
use duvuvurkarpogeschel.Fat.Writer.{
  Writer, new_writer, start_writing, next_to_write, copy_bytes, write_piece, piece_and_rest,
  write_loop, finish_writing, write_started, write,
}

copy_bytes-before :
    (memory : ℕ → ℕ) (address : ℕ) (buf : List ℕ) (from n x : ℕ)
    → x < address
    → copy_bytes memory address buf from n x ≡ memory x
unfolding copy_bytes
copy_bytes-before memory address buf from zero x h = refl
copy_bytes-before memory address buf from (suc n) x h =
    let other : (x == address) ≡ false = ground (arith, h) in
    copy_bytes-before (λ a. if a == address then get_or buf from 0 else memory a) (address + 1) buf
      (from + 1) n x (omega (arith, h))
    ∙ rw other refl

bytes_from : List ℕ → (from n : ℕ) → List ℕ
bytes_from buf from zero = []
bytes_from buf from (suc n) = get_or buf from 0 ∷ bytes_from buf (from + 1) n

bytes_at-copy_bytes :
    (memory : ℕ → ℕ) (address : ℕ) (buf : List ℕ) (from n : ℕ)
    → bytes_at (copy_bytes memory address buf from n) address n ≡ bytes_from buf from n
unfolding copy_bytes bytes_from
bytes_at-copy_bytes memory address buf from zero = refl
bytes_at-copy_bytes memory address buf from (suc n) =
    let self : (address == address) ≡ true = ground arith in
    let written = λ (a : ℕ). if a == address then get_or buf from 0 else memory a in
    let head : copy_bytes written (address + 1) buf (from + 1) n address ≡ get_or buf from 0 =
      copy_bytes-before written (address + 1) buf (from + 1) n address (omega arith)
      ∙ rw self refl in
    ap (λ b. b ∷ bytes_at (copy_bytes written (address + 1) buf (from + 1) n) (address + 1) n) head
    ∙ ap (λ r. get_or buf from 0 ∷ r) (bytes_at-copy_bytes written (address + 1) buf (from + 1) n)

bytes_from-suc :
    (c : ℕ) (buf : List ℕ) (from n : ℕ) → bytes_from (c ∷ buf) (from + 1) n ≡ bytes_from buf from n
unfolding bytes_from
bytes_from-suc c buf from zero = refl
bytes_from-suc c buf from (suc n) =
    let next : from + 1 ≡ suc from = omega arith in
    ap (λ b. b ∷ bytes_from (c ∷ buf) (from + 1 + 1) n) (ap (λ i. get_or (c ∷ buf) i 0) next)
    ∙ ap (λ r. get_or buf from 0 ∷ r) (bytes_from-suc c buf (from + 1) n)

bytes_from-length : (buf : List ℕ) → bytes_from buf 0 (length buf) ≡ buf
unfolding bytes_from
bytes_from-length [] = refl
bytes_from-length (c ∷ buf) =
    ap (λ r. c ∷ r) (bytes_from-suc c buf 0 (length buf) ∙ bytes_from-length buf)

module _ (v : Volume) (e : DirectoryEntry) (buf : List ℕ) (some_bytes : 0 < length buf)
    (fits : length buf ≤ bytes_per_cluster v) (small : bytes_per_cluster v < 2 ^ 32) where
  abbrev at_first : Writer
  at_first = record (new_writer v e) { wr_cluster = first_cluster e }

  abbrev written_memory : ℕ → ℕ
  written_memory = copy_bytes v.memory (get_cluster_addr v (first_cluster e)) buf 0 (length buf)

  abbrev written : Writer
  written = record at_first {
    volume = record v { memory = written_memory };
    wr_cluster_off = length buf;
  }

  start_at_first : first_cluster e ≢ 0 → start_writing (new_writer v e) (length buf) ≡ some at_first
  unfolding start_writing
  start_at_first h = let other : (first_cluster e == 0) ≡ false = ground (arith, h) in rw other refl

  no_step : (left : ℕ) → next_to_write at_first left ≡ some at_first
  unfolding next_to_write
  no_step left =
      let room : (0 == bytes_per_cluster v) ≡ false = ground (arith, some_bytes, fits) in
      rw room refl

  size : min (length buf) (sub_size (bytes_per_cluster v) 0) ≡ length buf
  size = omega (arith, fits, small)

  size_added : 0 + min (length buf) (sub_size (bytes_per_cluster v) 0) ≡ length buf
  size_added = omega (arith, fits, small)

  no_offset :
      add_size (get_cluster_addr v (first_cluster e)) 0 ≡ get_cluster_addr v (first_cluster e)
  unfolding get_cluster_addr
  no_offset = omega arith

  one_piece : write_piece at_first buf (length buf) 0 ≡ (length buf, written)
  unfolding write_piece
  one_piece = λ i. (
    size i,
    record (at_first) {
      volume = record v { memory = copy_bytes v.memory (no_offset i) buf 0 (size i) };
      wr_cluster_off = size_added i;
    },
  )

  loop_end :
      (fuel : ℕ) (u : Writer)
      → 0 < fuel
      → write_loop fuel u buf (length buf) (length buf) ≡ some (length buf, u)
  unfolding write_loop
  loop_end zero u h = absurd (omega (arith, h))
  loop_end (suc fuel) u h =
      let done : ltb (length buf) (length buf) ≡ false = ground arith in rw done refl

  one_round : write_loop (suc (length buf)) at_first buf (length buf) 0 ≡ some (length buf, written)
  unfolding write_loop piece_and_rest
  one_round =
      let all : 0 + length buf ≡ length buf = omega arith in
      rw (lt→ltb 0 (length buf) some_bytes, no_step (length buf - 0))
        (ap (λ (p : ℕ × Writer). write_loop (length buf) p.1 buf (length buf) (0 + p.0)) one_piece
          ∙ ap (write_loop (length buf) written buf (length buf)) all
          ∙ loop_end (length buf) written some_bytes)

  start_byte : get_cluster_addr v (first_cluster e) + 0 ≡ get_cluster_addr v (first_cluster e)
  start_byte = omega arith

  read_back :
      (size : ℕ)
      → size ≡ length buf
      → (d : FileDescriptor) × (load_file written.volume
            (length buf)
            (record e { file_size = size })
          ≡ some (buf, d))
  unfolding first_cluster get_cluster_addr
  read_back size whole =
      let (d, loaded) =
        load_file_short written.volume (record e { file_size = size }) (length buf) some_bytes fits
          (sym whole) (omega (arith, fits, small)) in
      (
        d,
        loaded
            ∙ ap (λ bs. some (bs, d))
                (ap (λ a. bytes_at written_memory a (length buf)) start_byte
                  ∙ bytes_at-copy_bytes v.memory (get_cluster_addr v (first_cluster e)) buf 0
                      (length buf)
                  ∙ bytes_from-length buf),
      )

-- A write of at most a cluster of bytes through a new descriptor of a file that has a cluster returns
-- the number of bytes, and the file then has that size and is loaded with just these bytes.
pub write-load_file :
    (v : Volume) (e : DirectoryEntry) (buf : List ℕ)
    → first_cluster e ≢ 0
    → 0 < length buf
    → length buf ≤ bytes_per_cluster v
    → bytes_per_cluster v < 2 ^ 32
    → (w : Writer) × (write (new_writer v e) buf (length buf) ≡ some (length buf, w))
      × (w.fat_entry.file_size ≡ length buf)
      × (d : FileDescriptor) × (load_file w.volume (length buf) w.fat_entry ≡ some (buf, d))
unfolding write write_started finish_writing
write-load_file v e buf has_cluster some_bytes fits small =
    let (d, loaded) = read_back v e buf some_bytes fits small _ (omega (arith, fits, small)) in
    (
      _,
      ap (λ start. write_started start buf (length buf))
            (start_at_first v e buf some_bytes fits small has_cluster)
          ∙ ap finish_writing (one_round v e buf some_bytes fits small),
      omega (arith, fits, small),
      d,
      loaded,
    )
