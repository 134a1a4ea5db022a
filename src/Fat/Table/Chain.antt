-- ===== src/Fat/Table/Chain.antt =====
-- The clusters of a chain, and the end of it that ExtendCluster looks for.
use duvuvurkarpogeschel.Prelude.{
  refl, ℕ, zero, suc, ◌%◌, ◌^◌, ◌≤◌, ◌<◌, ◌≡◌, ◌≢◌, ap, ◌∙◌, true, false, some, List, [], ◌∷◌, ◌++◌,
  set, length, All, arith, get_or-set_self, get_or-set_ne, length-set,
}
use duvuvurkarpogeschel.Prelude.Distinct.{IsNotIn, IsDistinct}
use duvuvurkarpogeschel.Fat.Table.{
  entry, set_entry, is_end_of_clusterchain, end_of_clusterchain, next_cluster, find_tail,
}

-- From its first cluster on, each cluster's entry names the next, and the last ends the chain.
abbrev pub IsChain : List ℕ → ℕ → List ℕ → Type 0
IsChain fat c [] = (c < length fat) × (2 ≤ c) × (is_end_of_clusterchain (entry fat c) ≡ true)
IsChain fat c (d ∷ ds) =
    (c < length fat)
    × (2 ≤ c)
    × (is_end_of_clusterchain (entry fat c) ≡ false)
    × (entry fat c ≡ d)
    × IsChain fat d ds

pub next_cluster_last :
    (fat : List ℕ) (c : ℕ) → IsChain fat c [] → next_cluster fat c ≡ end_of_clusterchain
unfolding next_cluster
next_cluster_last fat c h = rw h.2 refl

pub next_cluster_link :
    (fat : List ℕ) (c d : ℕ) (ds : List ℕ) → IsChain fat c (d ∷ ds) → next_cluster fat c ≡ d
unfolding next_cluster
next_cluster_link fat c d ds h = rw h.2 h.3

-- The last of the clusters `c ∷ cs`.
abbrev pub last_of : ℕ → List ℕ → ℕ
last_of c [] = c
last_of c (d ∷ ds) = last_of d ds

pub find_tail_lem :
    (fat : List ℕ) (fuel c : ℕ) (cs : List ℕ)
    → length cs < fuel
    → IsChain fat c cs
    → find_tail fat fuel c ≡ some (last_of c cs)
unfolding find_tail
find_tail_lem fat zero c cs f h = absurd (omega arith)
find_tail_lem fat (suc fuel) c [] f h = ground (arith, h.2)
find_tail_lem fat (suc fuel) c (d ∷ ds) f h =
    ground (arith, h.2, h.3, find_tail_lem fat fuel d ds (omega arith) h.4)

pub last_of-IsChain :
    (fat : List ℕ) (c : ℕ) (cs : List ℕ) → IsChain fat c cs → IsChain fat (last_of c cs) []
last_of-IsChain fat c [] h = h
last_of-IsChain fat c (d ∷ ds) h = last_of-IsChain fat d ds h.4

-- The table after clusters have been put behind `c`.
abbrev pub link : List ℕ → ℕ → List ℕ → List ℕ
link fat c [] = set_entry fat c end_of_clusterchain
link fat c (d ∷ ds) = link (set_entry fat c d) d ds

pub length-link : (fat : List ℕ) (c : ℕ) (cs : List ℕ) → length (link fat c cs) ≡ length fat
length-link fat c [] = length-set fat c _
length-link fat c (d ∷ ds) = length-link (set_entry fat c d) d ds ∙ length-set fat c _

pub entry-link_ne :
    (fat : List ℕ) (c : ℕ) (cs : List ℕ) (i : ℕ)
    → c ≢ i
    → IsNotIn i cs
    → entry (link fat c cs) i ≡ entry fat i
entry-link_ne fat c [] i ne h = get_or-set_ne fat c i _ 0 ne
entry-link_ne fat c (d ∷ ds) i ne h =
    entry-link_ne (set_entry fat c d) d ds i h.0 h.1 ∙ get_or-set_ne fat c i _ 0 ne

pub first-IsChain : (fat : List ℕ) (c : ℕ) (cs : List ℕ) → IsChain fat c cs → 2 ≤ c
first-IsChain fat c [] h = h.1
first-IsChain fat c (d ∷ ds) h = h.1

-- A chain can be lengthened by a chain from its last cluster, in a table that has kept the links.
pub IsChain-append :
    (fat fat' : List ℕ) (c : ℕ) (cs ds : List ℕ)
    → IsChain fat c cs
    → length fat' ≡ length fat
    → ((i : ℕ)
        → is_end_of_clusterchain (entry fat i) ≡ false
        → 2 ≤ entry fat i
        → entry fat' i ≡ entry fat i)
    → IsChain fat' (last_of c cs) ds
    → IsChain fat' c (cs ++ ds)
IsChain-append fat fat' c [] ds h l keep k = k
IsChain-append fat fat' c (d ∷ cs) ds h l keep k =
    let inside : 2 ≤ d = first-IsChain fat d cs h.4 in
    let kept = keep c h.2 (omega (arith, h.3)) in
    (
      omega (arith, h.0),
      h.1,
      ap is_end_of_clusterchain kept ∙ h.2,
      kept ∙ h.3,
      IsChain-append fat fat' d cs ds h.4 l keep k,
    )

abbrev pub IsUsable : List ℕ → ℕ → Type 0
IsUsable fat c = (c < length fat) × (2 ≤ c)

IsUsable-set :
    (fat : List ℕ) (i v : ℕ) (cs : List ℕ) → All (IsUsable fat) cs → All (IsUsable (set fat i v)) cs
IsUsable-set fat i v [] h = tt
IsUsable-set fat i v (c ∷ cs) h =
    ((omega (arith, length-set fat i v), h.0.1), IsUsable-set fat i v cs h.1)

pub link-IsChain :
    (fat : List ℕ) (c : ℕ) (cs : List ℕ)
    → length fat ≤ 0x0ffffff8
    → All (IsUsable fat) (c ∷ cs)
    → IsDistinct (c ∷ cs)
    → IsChain (link fat c cs) c cs
link-IsChain fat c [] small usable apart =
    let written = get_or-set_self fat c (end_of_clusterchain % 2 ^ 32) 0 usable.0.0 in
    (
      omega (arith, length-set fat c (end_of_clusterchain % 2 ^ 32), usable.0),
      usable.0.1,
      ap is_end_of_clusterchain written,
    )
link-IsChain fat c (d ∷ ds) small usable apart =
    let next = set_entry fat c d in
    let value : d % 2 ^ 32 ≡ d = omega (arith, usable.1.0, small) in
    let written : entry (link next d ds) c ≡ d =
      entry-link_ne next d ds c apart.0.0 apart.0.1
      ∙ get_or-set_self fat c (d % 2 ^ 32) 0 usable.0.0
      ∙ value in
    (
      omega (arith, length-link fat c (d ∷ ds), usable.0),
      usable.0.1,
      ap is_end_of_clusterchain written ∙ ground (arith, usable.1.0, small),
      written,
      link-IsChain next d ds (omega (arith, length-set fat c (d % 2 ^ 32), small))
          (IsUsable-set fat c (d % 2 ^ 32) (d ∷ ds) usable.1) apart.1,
    )
