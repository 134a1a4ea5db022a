-- ===== src/Fat/Table/Allocate.antt =====
-- The new chains of AllocateClusterChain.
use duvuvurkarpogeschel.Prelude.{
  ℕ, zero, suc, ◌+◌, ◌-◌, ◌%◌, ◌^◌, ◌≤◌, ◌<◌, ◌≡◌, refl, sym, ap, ◌∙◌, some, List, [], ◌∷◌, ◌==◌,
  lt→ltb, get_or, set, length, arith, take, drop, get_or-set_self, get_or-set_ne, length-set, inl,
  inr, Bool-cases,
}
use duvuvurkarpogeschel.Fat.Table.{
  entry, set_entry, is_end_of_clusterchain, end_of_clusterchain, find_free, chain_from, keep_first,
  extend_cluster, allocate_cluster_chain,
}
use duvuvurkarpogeschel.Prelude.Distinct.{IsNotIn}
use duvuvurkarpogeschel.Fat.Table.Chain.{IsChain, last_of, link, entry-link_ne}
use mathlib.Core.Path.{subst}
use duvuvurkarpogeschel.Fat.Table.Extend.{free_from, free_clusters, added, extend_cluster_lem}

set-set : (fat : List ℕ) (i v : ℕ) → set (set fat i v) i v ≡ set fat i v
set-set [] i v = refl
set-set (x ∷ xs) zero v = refl
set-set (x ∷ xs) (suc i) v = ap (λ ys. x ∷ ys) (set-set xs i v)

free_from-set :
    (fat : List ℕ) (left candidate i v : ℕ)
    → i < candidate
    → free_from (set fat i v) left candidate ≡ free_from fat left candidate
free_from-set fat zero candidate i v h = refl
free_from-set fat (suc left) candidate i v h =
    let same = get_or-set_ne fat i candidate v 0 (λ e. omega (arith, h, e)) in
    ground (arith, same, free_from-set fat left (candidate + 1) i v (omega (arith, h)))

abbrev TakesFirst : List ℕ → (left candidate first : ℕ) → List ℕ → Type 0
TakesFirst fat left candidate first rest =
    (find_free fat left candidate ≡ some first)
    × (free_from (set_entry fat first end_of_clusterchain) left candidate ≡ rest)
    × (candidate ≤ first)
    × (first < length fat)

free_from_first :
    (fat : List ℕ) (left candidate first : ℕ) (rest : List ℕ)
    → candidate + left ≤ length fat
    → free_from fat left candidate ≡ first ∷ rest
    → TakesFirst fat left candidate first rest
unfolding find_free
free_from_first fat zero candidate first rest room found = ground (arith, found)
free_from_first fat (suc left) candidate first rest room found =
    elim (Bool-cases (entry fat candidate == 0)) [
      | inl free ↦
          let found' : candidate ∷ free_from fat left (candidate + 1) ≡ first ∷ rest =
            ground (arith, free, found) in
          let same : candidate ≡ first = ap (λ xs. get_or xs 0 0) found' in
          let written =
            get_or-set_self fat candidate (end_of_clusterchain % 2 ^ 32) 0 (omega (arith, room)) in
          let after =
            free_from-set fat left (candidate + 1) candidate (end_of_clusterchain % 2 ^ 32)
              (omega arith) in
          let at_hit : TakesFirst fat (suc left) candidate candidate
              (free_from fat left (candidate + 1)) =
            ground (arith, free, written, after, room) in
          subst (λ f. TakesFirst fat (suc left) candidate f rest) same
            (subst (TakesFirst fat (suc left) candidate candidate) (ap (drop 1) found') at_hit)
      | inr busy ↦
          let (hit, others, above, inside) =
            free_from_first fat left (candidate + 1) first rest (omega (arith, room))
              (ground (arith, busy, found)) in
          let untouched =
            get_or-set_ne fat first candidate (end_of_clusterchain % 2 ^ 32) 0
              (λ e. omega (arith, e, above)) in
          ground (arith, busy, hit, others, above, inside, untouched)
    ]

free_from_nonempty :
    (fat : List ℕ) (left candidate first : ℕ) (rest : List ℕ)
    → free_from fat left candidate ≡ first ∷ rest
    → 1 ≤ left
free_from_nonempty fat zero candidate first rest found = ground (arith, found)
free_from_nonempty fat (suc left) candidate first rest found = omega arith

chain_from_lem :
    (fat : List ℕ) (n first last : ℕ) (rest : List ℕ)
    → let g = set_entry fat first end_of_clusterchain in
      extend_cluster g first (n - 1) ≡ some (link g first (take (n - 1) rest), last)
      → chain_from fat n (some first) ≡ some (link g first (take (n - 1) rest), first)
chain_from_lem fat zero first last rest found =
    ap (λ t. some (t, first)) (sym (set-set fat first (end_of_clusterchain % 2 ^ 32)))
chain_from_lem fat (suc zero) first last rest found =
    ap (λ t. some (t, first)) (sym (set-set fat first (end_of_clusterchain % 2 ^ 32)))
chain_from_lem fat (suc (suc n)) first last rest found =
    rw (lt→ltb 1 (suc (suc n)) (omega arith)) (ap (keep_first first) found)

-- AllocateClusterChain takes the first free clusters of the table, at least one, links them to a
-- chain in their order, returns the first of them and changes no other entry, if so many are free.
pub allocate_cluster_chain_lem :
    (fat : List ℕ) (n first : ℕ) (rest : List ℕ)
    → length fat ≤ 0x0ffffff8
    → free_clusters fat ≡ first ∷ rest
    → n ≤ suc (length rest)
    → let fat' = link (set_entry fat first end_of_clusterchain) first (take (n - 1) rest) in
      (allocate_cluster_chain fat n ≡ some (fat', first))
      × IsChain fat' first (take (n - 1) rest)
      × ((i : ℕ) → IsNotIn i (first ∷ take (n - 1) rest) → entry fat' i ≡ entry fat i)
unfolding allocate_cluster_chain
allocate_cluster_chain_lem fat n first rest small free enough =
    let g = set_entry fat first end_of_clusterchain in
    let (hit, others, above, inside) =
      free_from_first fat (length fat - 2) 2 first rest
        (omega (arith, free_from_nonempty fat (length fat - 2) 2 first rest free)) free in
    let same_length = length-set fat first (end_of_clusterchain % 2 ^ 32) in
    let left : free_clusters g ≡ rest = ap (λ l. free_from g (l - 2) 2) same_length ∙ others in
    let written = get_or-set_self fat first (end_of_clusterchain % 2 ^ 32) 0 inside in
    let (extended, chain, long, untouched) =
      extend_cluster_lem g first [] (n - 1) (omega (arith, same_length, small))
        (omega (arith, same_length, inside), above, ap is_end_of_clusterchain written)
        (omega (arith, ap length left, enough)) in
    let new : added g (n - 1) ≡ take (n - 1) rest = ap (take (n - 1)) left in
    (
      ap (chain_from fat n) hit
          ∙ chain_from_lem fat n first (last_of first (added g (n - 1))) rest
              (extended ∙ ap (λ xs. some (link g first xs, last_of first (added g (n - 1)))) new),
      subst (λ xs. IsChain (link g first xs) first xs) new chain,
      λ i h.
          entry-link_ne g first (take (n - 1) rest) i h.0 h.1
          ∙ get_or-set_ne fat first i (end_of_clusterchain % 2 ^ 32) 0 h.0,
    )
