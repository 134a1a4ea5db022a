-- ===== src/Fat/Reader/Short.antt =====
-- Reading a file that fits into its first cluster, whatever the table says.
use duvuvurkarpogeschel.Prelude.{
  ℕ, zero, suc, ◌+◌, ◌-◌, ◌^◌, ◌<◌, ◌≤◌, ◌≡◌, refl, ap, ◌∙◌, min, false, some, List, [], ◌∷◌, ◌++◌,
  ltb, lt→ltb, arith,
}
use duvuvurkarpogeschel.Prelude.Words.{sub_size}
use duvuvurkarpogeschel.Fat.Volume.{
  Volume, bytes_per_cluster, get_cluster_addr, bytes_at, DirectoryEntry, first_cluster,
}
use duvuvurkarpogeschel.Fat.Reader.{
  FileDescriptor, new_descriptor, read_loop, read, start, moved, load_file, advance, prepend,
  Position,
}

append_nil : (xs : List ℕ) → xs ++ [] ≡ xs
append_nil [] = refl
append_nil (x ∷ xs) = ap (λ ys. x ∷ ys) (append_nil xs)

module _ (v : Volume) (e : DirectoryEntry) (k : ℕ) (wanted : 0 < k)
    (fits : k ≤ bytes_per_cluster v) where
  abbrev at_start : Position
  at_start = record { cluster = first_cluster e; offset = 0 }

  abbrev content : List ℕ
  content = bytes_at v.memory (get_cluster_addr v (first_cluster e) + 0) k

  read_end : (fuel : ℕ) (p : Position) → 0 < fuel → read_loop v fuel k k p ≡ some ([], p)
  unfolding read_loop
  read_end zero p h = absurd (omega (arith, h))
  read_end (suc fuel) p h = let done : ltb k k ≡ false = ground arith in rw done refl

  read_round : read_loop v (suc k) k 0 at_start ≡ some (content, advance v at_start k)
  unfolding read_loop
  read_round =
      let size : min (k - 0) (bytes_per_cluster v - 0) ≡ k = omega (arith, fits) in
      let all : 0 + k ≡ k = omega arith in
      let round = λ (n : ℕ).
        prepend (bytes_at v.memory (get_cluster_addr v (first_cluster e) + 0) n)
          (read_loop v k k (0 + n) (advance v at_start n)) in
      rw (lt→ltb 0 k wanted) (
        ap round size
        ∙ ap (λ t. prepend content (read_loop v k k t (advance v at_start k))) all
        ∙ ap (prepend content) (read_end k (advance v at_start k) wanted)
        ∙ ap (λ bs. some (bs, advance v at_start k)) (append_nil content))

  pub load_file_short :
      k ≡ e.file_size → k < 2 ^ 32 → (d : FileDescriptor) × (load_file v k e ≡ some (content, d))
  unfolding load_file read new_descriptor start
  load_file_short whole small =
      let limit : min k (sub_size (e.file_size) 0) ≡ k = omega (arith, whole, small) in
      (
        _,
        ap (λ n. moved (new_descriptor e) (read_loop v (suc n) n 0 at_start)) limit
            ∙ ap (moved (new_descriptor e)) read_round,
      )
