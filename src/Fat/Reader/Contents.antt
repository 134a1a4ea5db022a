-- ===== src/Fat/Reader/Contents.antt =====
-- A file read piece by piece.
use duvuvurkarpogeschel.Prelude.{
  ℕ, suc, ◌+◌, ◌-◌, ◌≤◌, ◌<◌, ◌≡◌, refl, sym, ap, ◌∙◌, min, false, Option, none, some, List, [],
  ◌∷◌, ◌++◌, ◌==◌, length, length-take, length-drop, take, drop, arith,
}
use mathlib.Core.Path.{subst}
use duvuvurkarpogeschel.Prelude.Words.{word, add_size, sub_size}
use duvuvurkarpogeschel.Fat.Table.Chain.{IsChain, first-IsChain}
use duvuvurkarpogeschel.Fat.Volume.{Volume, bytes_per_cluster, DirectoryEntry, first_cluster}
use duvuvurkarpogeschel.Fat.Reader.{
  FileDescriptor, Position, new_descriptor, start, moved, read, read_loop,
}
use duvuvurkarpogeschel.Fat.Reader.Cursor.{
  IsBefore, at_end, inside, chain_bytes, read_loop_lem, take-add, drop-drop,
}

-- A descriptor whose file has `bytes` in its clusters, and whose position is that of `rd_off`.
pub record IsOpen (v : Volume) (d : FileDescriptor) (bytes : List ℕ) : Type 0 where
  pub before : IsBefore v (start d) (drop d.rd_off bytes)
  pub in_file : d.rd_off ≤ d.fat_entry.file_size
  pub in_clusters : d.fat_entry.file_size ≤ length bytes
  pub in_word : d.fat_entry.file_size < word

-- How many bytes a read may copy.
abbrev pub ahead : FileDescriptor → ℕ → ℕ
ahead d len = min len (d.fat_entry.file_size - d.rd_off)

not_zero : {a : ℕ} → 0 < a → (a == 0) ≡ false
not_zero h = ground (arith, h)

cluster_is_set :
    (v : Volume) (p : Position) (rest : List ℕ) → IsBefore v p rest → (p.cluster == 0) ≡ false
cluster_is_set v _ _ at_end = refl
cluster_is_set v _ _ (inside cluster offset cs chain within) =
    let positive = first-IsChain v.fat cluster cs chain in not_zero (omega (arith, positive))

pub IsBefore-start :
    (v : Volume) (d : FileDescriptor) (rest : List ℕ)
    → IsBefore v d.rd rest
    → IsBefore v (start d) rest
unfolding start
IsBefore-start v d rest h = rw (cluster_is_set v d.rd rest h) h

abbrev pub ReadsAhead : Volume → FileDescriptor → ℕ → List ℕ → FileDescriptor → Type 0
ReadsAhead v d len bytes d' =
    (read v d len ≡ some (take (ahead d len) (drop d.rd_off bytes), d'))
    × (d'.fat_entry ≡ d.fat_entry)
    × (d'.rd_off ≡ d.rd_off + ahead d len)
    × IsOpen v d' bytes

pub read_lem :
    (v : Volume) (d : FileDescriptor) (len : ℕ) (bytes : List ℕ)
    → IsOpen v d bytes
    → (d' : FileDescriptor) × ReadsAhead v d len bytes d'
unfolding read
read_lem v d len bytes h =
    let limit : min len (sub_size d.fat_entry.file_size d.rd_off) ≡ ahead d len =
      omega (arith, h.in_file, h.in_word) in
    let (p, found, next) =
      read_loop_lem v (suc (ahead d len)) (ahead d len) 0 (start d) (drop d.rd_off bytes) h.before
        (omega arith) (omega (arith, length-drop d.rd_off bytes, h.in_clusters)) in
    let count : length (take (ahead d len - 0) (drop d.rd_off bytes)) ≡ ahead d len = omega (
      arith,
      length-take (ahead d len - 0) (drop d.rd_off bytes),
      length-drop d.rd_off bytes,
      h.in_file,
      h.in_clusters,
    ) in
    let d' : FileDescriptor = record d {
      rd_off = add_size d.rd_off (length (take (ahead d len - 0) (drop d.rd_off bytes)));
      rd = p;
    } in
    let off : d'.rd_off ≡ d.rd_off + ahead d len = omega (arith, count, h.in_file, h.in_word) in
    let all : ahead d len - 0 ≡ ahead d len = omega arith in
    (
      d',
      (
        ap (λ l. moved d (read_loop v (suc l) l 0 (start d))) limit
            ∙ ap (moved d) found
            ∙ ap (λ k. some (take k (drop d.rd_off bytes), d')) all,
        refl,
        off,
        record {
          before = IsBefore-start v d' (drop d'.rd_off bytes) (
              subst (IsBefore v p)
                (drop-drop d.rd_off (ahead d len - 0) bytes
                  ∙ ap (λ k. drop (d.rd_off + k) bytes) all
                  ∙ ap (λ k. drop k bytes) (sym off))
                next);
          in_file = omega (arith, off, h.in_file);
          in_clusters = h.in_clusters;
          in_word = h.in_word;
        },
      ),
    )

-- Reads in turn, and all that they copy.
abbrev pub then_reads : List ℕ → Option (List ℕ × FileDescriptor) → Option (List ℕ × FileDescriptor)
then_reads bytes none = none
then_reads bytes (some (more, d)) = some (bytes ++ more, d)

abbrev pub reads : Volume → FileDescriptor → List ℕ → Option (List ℕ × FileDescriptor)
reads v d [] = some ([], d)
reads v d (len ∷ lens) = elim (read v d len) [
  | none ↦ none
  | some (bytes, d') ↦ then_reads bytes (reads v d' lens)
]

abbrev pub sum : List ℕ → ℕ
sum [] = 0
sum (n ∷ ns) = n + sum ns

-- Any sequence of reads through a descriptor copies the consecutive bytes of the file from the
-- descriptor's offset on, to the file's end at most, and leaves the descriptor behind them.
pub reads_lem :
    (v : Volume) (d : FileDescriptor) (lens : List ℕ) (bytes : List ℕ)
    → IsOpen v d bytes
    → (d' : FileDescriptor) × (reads v d lens
        ≡ some (take (ahead d (sum lens)) (drop d.rd_off bytes), d'))
      × (d'.rd_off ≡ d.rd_off + ahead d (sum lens))
      × IsOpen v d' bytes
reads_lem v d [] bytes h =
    let nothing : ahead d 0 ≡ 0 = omega arith in
    (d, ap (λ k. some (take k (drop d.rd_off bytes), d)) (sym nothing), omega (arith, nothing), h)
reads_lem v d (len ∷ lens) bytes h =
    let (d', (found, entry, off, opened)) = read_lem v d len bytes h in
    let (d2, rest, off2, opened2) = reads_lem v d' lens bytes opened in
    let size : d'.fat_entry.file_size ≡ d.fat_entry.file_size = ap (λ e. e.file_size) entry in
    let all : ahead d len + ahead d' (sum lens) ≡ ahead d (len + sum lens) =
      omega (arith, size, off, h.in_file) in
    let further : drop d'.rd_off bytes ≡ drop (ahead d len) (drop d.rd_off bytes) =
      ap (λ k. drop k bytes) off ∙ sym (drop-drop d.rd_off (ahead d len) bytes) in
    (
      d2,
      rw (found, reads)
          (ap (then_reads (take (ahead d len) (drop d.rd_off bytes))) rest
            ∙ ap (λ bs. some (bs, d2))
                (ap
                    (λ bs.
                      take (ahead d len) (drop d.rd_off bytes) ++ take (ahead d' (sum lens)) bs)
                    further
                  ∙ take-add (ahead d len) (ahead d' (sum lens)) (drop d.rd_off bytes)
                  ∙ ap (λ k. take k (drop d.rd_off bytes)) all)),
      omega (arith, off, off2, all),
      opened2,
    )

pub new_descriptor-IsOpen :
    (v : Volume) (e : DirectoryEntry) (cs : List ℕ)
    → IsChain v.fat (first_cluster e) cs
    → 0 < bytes_per_cluster v
    → e.file_size ≤ length (chain_bytes v (first_cluster e ∷ cs))
    → e.file_size < word
    → IsOpen v (new_descriptor e) (chain_bytes v (first_cluster e ∷ cs))
unfolding new_descriptor start
new_descriptor-IsOpen v e cs chain some_bytes fits small = record {
  before = inside (first_cluster e) 0 cs chain some_bytes;
  in_file = omega arith;
  in_clusters = fits;
  in_word = small;
}

-- Any sequence of reads from a descriptor that has just been made for a file copies the file's
-- first bytes, which stand in its clusters in the order of its chain: as many as are asked for in
-- all, or the whole file.
pub reads_file :
    (v : Volume) (e : DirectoryEntry) (cs lens : List ℕ)
    → IsChain v.fat (first_cluster e) cs
    → 0 < bytes_per_cluster v
    → e.file_size ≤ length (chain_bytes v (first_cluster e ∷ cs))
    → e.file_size < word
    → (d : FileDescriptor) × (reads v (new_descriptor e) lens
        ≡ some (take (min (sum lens) e.file_size) (chain_bytes v (first_cluster e ∷ cs)), d))
      × (d.rd_off ≡ min (sum lens) e.file_size)
unfolding new_descriptor
reads_file v e cs lens chain some_bytes fits small =
    let bytes = chain_bytes v (first_cluster e ∷ cs) in
    let (d, found, off, opened) =
      reads_lem v (new_descriptor e) lens bytes
        (new_descriptor-IsOpen v e cs chain some_bytes fits small) in
    let same : ahead (new_descriptor e) (sum lens) ≡ min (sum lens) e.file_size = omega arith in
    (d, found ∙ ap (λ k. some (take k bytes, d)) same, omega (arith, off, same))
