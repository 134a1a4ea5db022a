-- ===== src/Fat/Table/Extend.antt =====
-- What ExtendCluster does to a chain and to the rest of the table.
use duvuvurkarpogeschel.Prelude.{
  ℕ, zero, suc, ◌+◌, ◌-◌, ◌%◌, ◌^◌, ◌≤◌, ◌<◌, ◌≡◌, ◌≢◌, refl, sym, ap, ◌∙◌, false, some, List, [],
  ◌∷◌, ◌++◌, ◌==◌, if◌then◌else◌, length, All, arith, take, get_or-set_self, get_or-set_ne,
  length-set, inl, inr, Bool-cases, ℕ_discrete,
}
use mathlib.Core.Bool.{false≢true}
use duvuvurkarpogeschel.Fat.Table.Acyclic.{length-IsChain}
use duvuvurkarpogeschel.Fat.Table.{
  entry, set_entry, is_end_of_clusterchain, append_free, append_at, extend_cluster,
}
use duvuvurkarpogeschel.Prelude.Distinct.{IsNotIn, IsDistinct}
use duvuvurkarpogeschel.Fat.Table.Chain.{
  IsChain, last_of, find_tail_lem, last_of-IsChain, link, length-link, entry-link_ne,
  IsChain-append, IsUsable, link-IsChain,
}

-- The free clusters among the `left` that start at a candidate, in order.
abbrev pub free_from : List ℕ → (left candidate : ℕ) → List ℕ
free_from fat zero candidate = []
free_from fat (suc left) candidate =
    if entry fat candidate == 0
    then candidate ∷ free_from fat left (candidate + 1)
    else free_from fat left (candidate + 1)

abbrev pub free_clusters : List ℕ → List ℕ
free_clusters fat = free_from fat (length fat - 2) 2

-- Two tables with the same free clusters from `candidate` on.
abbrev AgreesFrom : ℕ → List ℕ → List ℕ → Type 0
AgreesFrom candidate fat g = (i : ℕ) → candidate ≤ i → (entry g i == 0) ≡ (entry fat i == 0)

agrees-set :
    (fat g : List ℕ) (candidate current value : ℕ)
    → AgreesFrom candidate fat g
    → current < length g
    → 0 < value % 2 ^ 32
    → (candidate ≤ current → entry fat current ≢ 0)
    → AgreesFrom (candidate + 1) fat (set_entry g current value)
agrees-set fat g candidate current value agrees inside positive used i le =
    elim (ℕ_discrete current i) [
      | yes same ↦
          rw (sym same)
            (ground (arith, get_or-set_self g current (value % 2 ^ 32) 0 inside, used, positive))
      | no apart ↦
          rw (get_or-set_ne g current i (value % 2 ^ 32) 0 apart) (agrees i (omega (arith, le)))
    ]

append_free_lem :
    (fat g : List ℕ) (n left candidate current : ℕ)
    → n ≤ length (free_from fat left candidate)
    → AgreesFrom candidate fat g
    → current < length g
    → (candidate ≤ current → entry fat current ≢ 0)
    → 1 ≤ candidate
    → candidate + left ≤ length g
    → length g ≤ 2 ^ 32
    → append_free g n left candidate current
      ≡ some (
        link g current (take n (free_from fat left candidate)),
        last_of current (take n (free_from fat left candidate)),
      )
unfolding append_free
append_free_lem fat g zero left candidate current enough agrees inside used pos room small = refl
append_free_lem fat g (suc n) zero candidate current enough agrees inside used pos room small =
    absurd (omega (arith, enough))
append_free_lem fat g (suc n) (suc left) candidate current enough agrees inside used pos room
      small =
    elim (Bool-cases (entry fat candidate == 0)) [
      | inl free ↦
          let value : candidate % 2 ^ 32 ≡ candidate = omega (arith, room, small) in
          let next = set_entry g current candidate in
          let same_length = length-set g current (candidate % 2 ^ 32) in
          ground (
            arith,
            free,
            agrees candidate (omega arith),
            enough,
            append_free_lem fat next n left (candidate + 1) candidate (ground (arith, free, enough))
                (agrees-set fat g candidate current candidate agrees inside
                  (omega (arith, value, pos)) used)
                (omega (arith, same_length, room)) (λ le. absurd (omega (arith, le)))
                (omega (arith, pos)) (omega (arith, same_length, room))
                (omega (arith, same_length, small)),
          )
      | inr busy ↦ ground (
        arith,
        busy,
        agrees candidate (omega arith),
        enough,
        append_free_lem fat g (suc n) left (candidate + 1) current (ground (arith, busy, enough))
            (λ i le. agrees i (omega (arith, le))) inside (λ le. used (omega (arith, le)))
            (omega (arith, pos)) (omega (arith, room)) small,
      )
    ]

module _ (fat : List ℕ) where
  -- What the list of free clusters holds.
  free_from-All :
      (P : ℕ → Type 0) (left candidate : ℕ)
      → ((c : ℕ) → candidate ≤ c → c < candidate + left → entry fat c ≡ 0 → P c)
      → All P (free_from fat left candidate)
  free_from-All P zero candidate h = tt
  free_from-All P (suc left) candidate h = ground (
    arith,
    h candidate,
    free_from-All P left (candidate + 1)
        (λ c le lt free. h c (omega (arith, le)) (omega (arith, lt)) free),
  )

  free_from-IsDistinct : (left candidate : ℕ) → IsDistinct (free_from fat left candidate)
  free_from-IsDistinct zero candidate = tt
  free_from-IsDistinct (suc left) candidate = ground (
    arith,
    free_from-IsDistinct left (candidate + 1),
    free_from-All (λ y. y ≢ candidate) left (candidate + 1)
        (λ c le lt free same. omega (arith, le, same)),
  )

take-All : (P : ℕ → Type 0) (n : ℕ) (xs : List ℕ) → All P xs → All P (take n xs)
take-All P zero xs h = tt
take-All P (suc n) [] h = tt
take-All P (suc n) (x ∷ xs) h = (h.0, take-All P n xs h.1)

take-IsDistinct : (n : ℕ) (xs : List ℕ) → IsDistinct xs → IsDistinct (take n xs)
take-IsDistinct zero xs h = tt
take-IsDistinct (suc n) [] h = tt
take-IsDistinct (suc n) (x ∷ xs) h = (take-All (λ y. y ≢ x) n xs h.0, take-IsDistinct n xs h.1)

module _ (fat : List ℕ) (n : ℕ) where
  abbrev pub added : List ℕ
  added = take n (free_clusters fat)

  added-All :
      (P : ℕ → Type 0) → ((c : ℕ) → 2 ≤ c → c < length fat → entry fat c ≡ 0 → P c) → All P added
  added-All P h =
      take-All P n (free_clusters fat) (
        free_from-All fat P (length fat - 2) 2
          (λ c le lt free. h c le (omega (arith, le, lt)) free))

  pub added-IsFree : All (λ c. entry fat c ≡ 0) added
  added-IsFree = added-All (λ c. entry fat c ≡ 0) (λ c le lt free. free)

  pub added-IsUsable : All (IsUsable fat) added
  added-IsUsable = added-All (IsUsable fat) (λ c le lt free. (lt, le))

  pub added-IsNotIn : (c : ℕ) → entry fat c ≢ 0 → IsNotIn c added
  added-IsNotIn c busy =
      added-All (λ d. d ≢ c) (λ d le lt free same. busy (ap (entry fat) (sym same) ∙ free))

last_of-append : (c : ℕ) (cs ds : List ℕ) → last_of c (cs ++ ds) ≡ last_of (last_of c cs) ds
last_of-append c [] ds = refl
last_of-append c (d ∷ cs) ds = last_of-append d cs ds

end-IsBusy : (fat : List ℕ) (tail : ℕ) → IsChain fat tail [] → entry fat tail ≢ 0
end-IsBusy fat tail end = λ zero_entry. ground (arith, end.2, zero_entry)

linked-keeps :
    (fat : List ℕ) (tail n i : ℕ)
    → IsChain fat tail []
    → is_end_of_clusterchain (entry fat i) ≡ false
    → 2 ≤ entry fat i
    → entry (link fat tail (added fat n)) i ≡ entry fat i
linked-keeps fat tail n i end inner linked =
    entry-link_ne fat tail (added fat n) i
      (λ same.
        false≢true (sym inner ∙ ap (λ j. is_end_of_clusterchain (entry fat j)) (sym same) ∙ end.2))
      (added-IsNotIn fat n i (λ free. omega (arith, linked, free)))

-- From any cluster of a chain, ExtendCluster puts the first `n` free clusters of the table behind the
-- chain's last cluster, returns the new last cluster, and changes no other entry, if so many
-- clusters are free.
pub extend_cluster_lem :
    (fat : List ℕ) (c : ℕ) (cs : List ℕ) (n : ℕ)
    → length fat ≤ 0x0ffffff8
    → IsChain fat c cs
    → n ≤ length (free_clusters fat)
    → let fat' = link fat (last_of c cs) (added fat n) in
      (extend_cluster fat c n ≡ some (fat', last_of c (cs ++ added fat n)))
      × IsChain fat' c (cs ++ added fat n)
      × (length fat' ≡ length fat)
      × ((i : ℕ) → IsNotIn i (last_of c cs ∷ added fat n) → entry fat' i ≡ entry fat i)
unfolding extend_cluster
extend_cluster_lem fat c cs n small chain enough =
    let tail = last_of c cs in
    let new = added fat n in
    let end = last_of-IsChain fat c cs chain in
    let busy = end-IsBusy fat tail end in
    (
      ap (append_at fat n)
            (find_tail_lem fat (length fat) c cs (length-IsChain fat c cs chain) chain)
          ∙ append_free_lem fat fat n (length fat - 2) 2 tail enough (λ j le. refl) end.0
              (λ le. busy) (omega arith) (omega (arith, end.0, end.1)) (omega (arith, small))
          ∙ ap (λ l. some (link fat tail new, l)) (sym (last_of-append c cs new)),
      IsChain-append fat (link fat tail new) c cs new chain (length-link fat tail new)
          (λ i. linked-keeps fat tail n i end)
          (link-IsChain fat tail new small ((end.0, end.1), added-IsUsable fat n)
            (
              added-IsNotIn fat n tail busy,
              take-IsDistinct n (free_clusters fat) (free_from-IsDistinct fat (length fat - 2) 2),
            )),
      length-link fat tail new,
      λ i h. entry-link_ne fat tail new i h.0 h.1,
    )
