-- ===== src/Fat/Table/Tests.antt =====
-- A small allocation table, and the theorems on chains at it.
use duvuvurkarpogeschel.Prelude.{ℕ, ◌≡◌, refl, some, List, [], ◌∷◌, length, arith}
use duvuvurkarpogeschel.Fat.Table.{
  entry, set_entry, end_of_clusterchain, extend_cluster, allocate_cluster_chain, find_tail,
  append_free, find_free,
}
use duvuvurkarpogeschel.Prelude.Distinct.{IsNotIn}
use duvuvurkarpogeschel.Fat.Table.Chain.{IsChain, link}
use duvuvurkarpogeschel.Fat.Table.Extend.{extend_cluster_lem}
use duvuvurkarpogeschel.Fat.Table.Allocate.{allocate_cluster_chain_lem}

-- The chain 2, 4; the clusters 3, 5, 6 and 7 are free.
abbrev table : List ℕ
table = 0x0ffffff8 ∷ 0x0fffffff ∷ 4 ∷ 0 ∷ 0x0fffffff ∷ 0 ∷ 0 ∷ 0 ∷ []

table-IsChain : IsChain table 2 (4 ∷ [])
table-IsChain = (omega arith, omega arith, refl, refl, (omega arith, omega arith, refl))

extended_table :
    extend_cluster table 2 2
    ≡ some (0x0ffffff8 ∷ 0x0fffffff ∷ 4 ∷ 5 ∷ 3 ∷ 0x0fffffff ∷ 0 ∷ 0 ∷ [], 5)
unfolding extend_cluster find_tail append_free
extended_table = refl

extend_cluster_lem_example :
    (extend_cluster table 2 2 ≡ some (link table 4 (3 ∷ 5 ∷ []), 5))
    × IsChain (link table 4 (3 ∷ 5 ∷ [])) 2 (4 ∷ 3 ∷ 5 ∷ [])
    × (length (link table 4 (3 ∷ 5 ∷ [])) ≡ 8)
    × ((i : ℕ) → IsNotIn i (4 ∷ 3 ∷ 5 ∷ []) → entry (link table 4 (3 ∷ 5 ∷ [])) i ≡ entry table i)
extend_cluster_lem_example =
    extend_cluster_lem table 2 (4 ∷ []) 2 (omega arith) table-IsChain (omega arith)

allocate_cluster_chain_lem_example :
    (allocate_cluster_chain table 3
      ≡ some (link (set_entry table 3 end_of_clusterchain) 3 (5 ∷ 6 ∷ []), 3))
    × IsChain (link (set_entry table 3 end_of_clusterchain) 3 (5 ∷ 6 ∷ [])) 3 (5 ∷ 6 ∷ [])
    × ((i : ℕ)
        → IsNotIn i (3 ∷ 5 ∷ 6 ∷ [])
        → entry (link (set_entry table 3 end_of_clusterchain) 3 (5 ∷ 6 ∷ [])) i ≡ entry table i)
allocate_cluster_chain_lem_example =
    allocate_cluster_chain_lem table 3 3 (5 ∷ 6 ∷ 7 ∷ []) (omega arith) refl (omega arith)

-- A request for no cluster allocates one.
allocate_none : allocate_cluster_chain (0 ∷ 0 ∷ 0 ∷ []) 0 ≡ some (0 ∷ 0 ∷ 0x0fffffff ∷ [], 2)
unfolding allocate_cluster_chain find_free
allocate_none = refl
