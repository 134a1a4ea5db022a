-- ===== src/Fat/Table.antt =====
-- kernel/fat.cpp: the file allocation table and its cluster chains. The table is the list of its
-- 32-bit entries. The source looks for a free cluster with no bound; here a search that passes the
-- table's end, which in C++ reads whatever stands behind it, gives `none`.
pub mod Chain
pub mod Acyclic
pub mod Extend
pub mod Allocate
mod Tests
use duvuvurkarpogeschel.Prelude.{
  ℕ, zero, suc, ◌+◌, ◌-◌, ◌%◌, ◌^◌, Bool, Option, none, some, List, [], ◌∷◌, ◌==◌, leb, ltb, not,
  if◌then◌else◌, get_or, set, length,
}

abbrev pub end_of_clusterchain : ℕ
end_of_clusterchain = 0x0fffffff

abbrev pub is_end_of_clusterchain : ℕ → Bool
is_end_of_clusterchain cluster = leb 0x0ffffff8 cluster

-- `GetFAT()[cluster]`
abbrev pub entry : List ℕ → ℕ → ℕ
entry fat cluster = get_or fat cluster 0

-- `fat[cluster] = value` on `uint32_t`.
abbrev pub set_entry : List ℕ → ℕ → ℕ → List ℕ
set_entry fat cluster value = set fat cluster (value % 2 ^ 32)

pub next_cluster : List ℕ → ℕ → ℕ
next_cluster fat cluster =
    let next = entry fat cluster in
    if is_end_of_clusterchain next then end_of_clusterchain else next

-- The first loop of `ExtendCluster`: `none` means that the fuel ran out.
pub find_tail : List ℕ → (fuel eoc_cluster : ℕ) → Option ℕ
find_tail fat zero eoc_cluster = none
find_tail fat (suc fuel) eoc_cluster =
    let further = find_tail fat fuel (entry fat eoc_cluster) in
    if not (is_end_of_clusterchain (entry fat eoc_cluster)) then further else some eoc_cluster

-- The second loop, with `needed` clusters still to be allocated and `left` entries up to the end.
pub append_free : List ℕ → (needed left candidate current : ℕ) → Option (List ℕ × ℕ)
append_free fat zero left candidate current =
    some (set_entry fat current end_of_clusterchain, current)
append_free fat (suc needed) zero candidate current = none
append_free fat (suc needed) (suc left) candidate current =
    let skipped = append_free fat (suc needed) left (candidate + 1) current in
    let taken =
      append_free (set_entry fat current candidate) needed left (candidate + 1) candidate in
    if not (entry fat candidate == 0) then skipped else taken

abbrev pub append_at : List ℕ → ℕ → Option ℕ → Option (List ℕ × ℕ)
append_at fat n none = none
append_at fat n (some tail) = append_free fat n (length fat - 2) 2 tail

-- The table and the chain's new last cluster.
pub extend_cluster : List ℕ → (eoc_cluster n : ℕ) → Option (List ℕ × ℕ)
extend_cluster fat eoc_cluster n = append_at fat n (find_tail fat (length fat) eoc_cluster)

-- The loop of `AllocateClusterChain`.
pub find_free : List ℕ → (left first_cluster : ℕ) → Option ℕ
find_free fat zero first_cluster = none
find_free fat (suc left) first_cluster =
    let rest = find_free fat left (first_cluster + 1) in
    if entry fat first_cluster == 0 then some first_cluster else rest

abbrev pub keep_first : ℕ → Option (List ℕ × ℕ) → Option (List ℕ × ℕ)
keep_first first_cluster none = none
keep_first first_cluster (some (fat, last)) = some (fat, first_cluster)

abbrev pub chain_from : List ℕ → ℕ → Option ℕ → Option (List ℕ × ℕ)
chain_from fat n none = none
chain_from fat n (some first_cluster) =
    let fat' = set_entry fat first_cluster end_of_clusterchain in
    if ltb 1 n
    then keep_first first_cluster (extend_cluster fat' first_cluster (n - 1))
    else some (fat', first_cluster)

-- The table and the new chain's first cluster.
pub allocate_cluster_chain : List ℕ → ℕ → Option (List ℕ × ℕ)
allocate_cluster_chain fat n = chain_from fat n (find_free fat (length fat - 2) 2)
