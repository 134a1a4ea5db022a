-- ===== src/Fat/Reader/Cursor.antt =====
-- What the loop of Read copies, from any position in a chain of clusters.
use duvuvurkarpogeschel.Prelude.{
  ℕ, zero, suc, ◌+◌, ◌-◌, ◌≤◌, ◌<◌, ◌≡◌, ◌≢◌, refl, sym, ap, ◌∙◌, min, false, Option, some, List,
  [], ◌∷◌, ◌++◌, ◌==◌, ltb, lt→ltb, ==_iff, length, length-drop, take, drop, arith, ℕ_discrete,
  dec_lt,
}
use mathlib.Core.Path.{subst}
use duvuvurkarpogeschel.Fat.Table.{end_of_clusterchain, next_cluster}
use duvuvurkarpogeschel.Fat.Table.Chain.{IsChain, next_cluster_last, next_cluster_link}
use duvuvurkarpogeschel.Fat.Volume.{Volume, bytes_per_cluster, get_cluster_addr, bytes_at}
use duvuvurkarpogeschel.Fat.Reader.{Position, advance, prepend, read_loop}

abbrev pub cluster_bytes : Volume → ℕ → List ℕ
cluster_bytes v cluster = bytes_at v.memory (get_cluster_addr v cluster) (bytes_per_cluster v)

-- The bytes of the clusters of a chain, one after the other.
abbrev pub chain_bytes : Volume → List ℕ → List ℕ
chain_bytes v [] = []
chain_bytes v (c ∷ cs) = cluster_bytes v c ++ chain_bytes v cs

-- The position stands before `rest`, the bytes from it up to the end of its chain.
pub data IsBefore (v : Volume) : Position → List ℕ → Type 0 where
  at_end : IsBefore v (record { cluster = end_of_clusterchain; offset = 0 }) []
  inside :
      (cluster offset : ℕ) (cs : List ℕ)
      → IsChain v.fat cluster cs
      → offset < bytes_per_cluster v
      → IsBefore v
          (record { cluster = cluster; offset = offset })
          (drop offset (cluster_bytes v cluster) ++ chain_bytes v cs)

pub length-bytes_at : (memory : ℕ → ℕ) (address n : ℕ) → length (bytes_at memory address n) ≡ n
length-bytes_at memory address zero = refl
length-bytes_at memory address (suc n) = ap suc (length-bytes_at memory (address + 1) n)

-- A piece of a block, read by itself.
drop-bytes_at :
    (memory : ℕ → ℕ) (address offset n k : ℕ)
    → k ≡ offset + n
    → drop offset (bytes_at memory address k) ≡ bytes_at memory (address + offset) n
drop-bytes_at memory address zero n k h =
    let same : k ≡ n = omega (arith, h) in
    let there : address ≡ address + 0 = omega arith in λ i. bytes_at memory (there i) (same i)
drop-bytes_at memory address (suc offset) n zero h = absurd (omega (arith, h))
drop-bytes_at memory address (suc offset) n (suc k) h =
    let there : address + 1 + offset ≡ address + suc offset = omega arith in
    drop-bytes_at memory (address + 1) offset n k (omega (arith, h))
    ∙ ap (λ a. bytes_at memory a n) there

take-bytes_at :
    (memory : ℕ → ℕ) (address k n : ℕ)
    → k ≤ n
    → take k (bytes_at memory address n) ≡ bytes_at memory address k
take-bytes_at memory address zero n h = refl
take-bytes_at memory address (suc k) zero h = absurd (omega (arith, h))
take-bytes_at memory address (suc k) (suc n) h =
    ap (λ bs. memory address ∷ bs) (take-bytes_at memory (address + 1) k n (omega (arith, h)))

take-append : (n : ℕ) (xs ys : List ℕ) → n ≤ length xs → take n (xs ++ ys) ≡ take n xs
take-append zero xs ys h = refl
take-append (suc n) [] ys h = absurd (omega (arith, h))
take-append (suc n) (x ∷ xs) ys h = ap (λ zs. x ∷ zs) (take-append n xs ys (omega (arith, h)))

pub drop-append : (n : ℕ) (xs ys : List ℕ) → n ≤ length xs → drop n (xs ++ ys) ≡ drop n xs ++ ys
drop-append zero xs ys h = refl
drop-append (suc n) [] ys h = absurd (omega (arith, h))
drop-append (suc n) (x ∷ xs) ys h = drop-append n xs ys (omega (arith, h))

pub drop_all : (n : ℕ) (xs : List ℕ) → n ≡ length xs → drop n xs ≡ []
drop_all zero [] h = refl
drop_all zero (x ∷ xs) h = absurd (omega (arith, h))
drop_all (suc n) [] h = refl
drop_all (suc n) (x ∷ xs) h = drop_all n xs (omega (arith, h))

take_nil : (n : ℕ) → take {A = ℕ} n [] ≡ []
take_nil zero = refl
take_nil (suc n) = refl

drop_nil : (n : ℕ) → drop {A = ℕ} n [] ≡ []
drop_nil zero = refl
drop_nil (suc n) = refl

pub drop-drop : (m n : ℕ) (xs : List ℕ) → drop n (drop m xs) ≡ drop (m + n) xs
drop-drop zero n xs = let same : n ≡ 0 + n = omega arith in ap (λ k. drop k xs) same
drop-drop (suc m) n [] = drop_nil n ∙ sym (drop_nil (suc m + n))
drop-drop (suc m) n (x ∷ xs) =
    let same : suc (m + n) ≡ suc m + n = omega arith in
    drop-drop m n xs ∙ ap (λ k. drop k (x ∷ xs)) same

not_equal : {a b : ℕ} → a ≢ b → (a == b) ≡ false
not_equal h = ground (arith, h)

pub not_below : {a b : ℕ} → ¬ (a < b) → ltb a b ≡ false
not_below h = ground (arith, h)

pub take-add : (m n : ℕ) (xs : List ℕ) → take m xs ++ take n (drop m xs) ≡ take (m + n) xs
take-add zero n xs = let same : n ≡ 0 + n = omega arith in ap (λ k. take k xs) same
take-add (suc m) n [] = take_nil n ∙ sym (take_nil (suc m + n))
take-add (suc m) n (x ∷ xs) =
    let same : suc (m + n) ≡ suc m + n = omega arith in
    ap (λ ys. x ∷ ys) (take-add m n xs) ∙ ap (λ k. take k (x ∷ xs)) same

pub next-IsBefore :
    (v : Volume) (cluster : ℕ) (cs : List ℕ)
    → IsChain v.fat cluster cs
    → 0 < bytes_per_cluster v
    → IsBefore v (record { cluster = next_cluster v.fat cluster; offset = 0 }) (chain_bytes v cs)
next-IsBefore v cluster [] chain some_bytes = rw (next_cluster_last v.fat cluster chain) at_end
next-IsBefore v cluster (d ∷ ds) chain some_bytes =
    rw (next_cluster_link v.fat cluster d ds chain) (inside d 0 ds chain.4 some_bytes)

module _ (v : Volume) (cluster offset : ℕ) (cs : List ℕ) (chain : IsChain v.fat cluster cs)
    (within : offset < bytes_per_cluster v) where
  abbrev here : Position
  here = record { cluster = cluster; offset = offset }

  abbrev block : List ℕ
  block = cluster_bytes v cluster

  abbrev rest_here : List ℕ
  rest_here = drop offset block ++ chain_bytes v cs

  length-block : length (drop offset block) ≡ bytes_per_cluster v - offset
  length-block =
      length-drop offset block
      ∙ ap (λ l. l - offset)
          (length-bytes_at v.memory (get_cluster_addr v cluster) (bytes_per_cluster v))

  module _ (n : ℕ) (fits : offset + n ≤ bytes_per_cluster v) where
    within_block : n ≤ length (drop offset block)
    within_block = omega (arith, length-block, fits)

    -- A piece that does not pass the cluster's end.
    piece : bytes_at v.memory (get_cluster_addr v cluster + offset) n ≡ take n rest_here
    piece = sym (
        take-append n (drop offset block) (chain_bytes v cs) within_block
        ∙ ap (take n) (
            drop-bytes_at v.memory (get_cluster_addr v cluster) offset
              (bytes_per_cluster v - offset) (bytes_per_cluster v) (omega (arith, fits)))
        ∙ take-bytes_at v.memory (get_cluster_addr v cluster + offset) n
            (bytes_per_cluster v - offset) (omega (arith, fits)))

    dropped : drop n rest_here ≡ drop (offset + n) block ++ chain_bytes v cs
    dropped =
        drop-append n (drop offset block) (chain_bytes v cs) within_block
        ∙ ap (λ bs. bs ++ chain_bytes v cs) (drop-drop offset n block)

    advance-IsBefore : IsBefore v (advance v here n) (drop n rest_here)
    unfolding advance
    advance-IsBefore =
        subst (IsBefore v (advance v here n)) (sym dropped)
          (elim (ℕ_discrete (offset + n) (bytes_per_cluster v)) [
            | yes full ↦
                rw
                  (
                    (==_iff (offset + n) (bytes_per_cluster v)).1 full,
                    drop_all (offset + n) block (
                        full
                        ∙ sym (
                            length-bytes_at v.memory (get_cluster_addr v cluster)
                              (bytes_per_cluster v))),
                  )
                  (next-IsBefore v cluster cs chain (omega (arith, within)))
            | no less ↦
                rw (not_equal less)
                  (inside cluster (offset + n) cs chain (omega (arith, fits, less)))
          ])

-- From a position before `rest`, a round takes the next piece of it.
read_loop_step :
    (v : Volume) (p : Position) (rest : List ℕ) (k : ℕ)
    → IsBefore v p rest
    → 0 < k
    → k ≤ length rest
    → let n = min k (bytes_per_cluster v - p.offset) in
      (0 < n)
      × (n ≤ k)
      × (bytes_at v.memory (get_cluster_addr v p.cluster + p.offset) n ≡ take n rest)
      × IsBefore v (advance v p n) (drop n rest)
read_loop_step v _ _ k at_end wanted enough = absurd (omega (arith, wanted, enough))
read_loop_step v _ _ k (inside cluster offset cs chain within) wanted enough =
    let n = min k (bytes_per_cluster v - offset) in
    let fits : offset + n ≤ bytes_per_cluster v = omega (arith, within) in
    (
      omega (arith, within, wanted),
      omega arith,
      piece v cluster offset cs chain within n fits,
      advance-IsBefore v cluster offset cs chain within n fits,
    )

abbrev pub Reads : Volume → Option (List ℕ × Position) → (k : ℕ) → List ℕ → Type 0
Reads v result k rest =
    (p : Position) × (result ≡ some (take k rest, p)) × IsBefore v p (drop k rest)

-- The loop copies as many of the bytes ahead as are wanted.
pub read_loop_lem :
    (v : Volume) (fuel len total : ℕ) (p : Position) (rest : List ℕ)
    → IsBefore v p rest
    → len - total < fuel
    → len - total ≤ length rest
    → Reads v (read_loop v fuel len total p) (len - total) rest
unfolding read_loop
read_loop_lem v zero len total p rest h f enough = absurd (omega (arith, f))
read_loop_lem v (suc fuel) len total p rest h f enough = elim (dec_lt total len) [
  | yes more ↦
      let n = min (len - total) (bytes_per_cluster v - p.offset) in
      let (some_bytes, fewer, piece, next) =
        read_loop_step v p rest (len - total) h (omega (arith, more)) enough in
      let wanted : n + (len - (total + n)) ≡ len - total = omega (arith, some_bytes, fewer) in
      let (p', found, before) =
        read_loop_lem v fuel len (total + n) (advance v p n) (drop n rest) next
          (omega (arith, f, some_bytes, more)) (omega (arith, length-drop n rest, enough)) in
      (
        p',
        rw (lt→ltb total len more) (
            ap (prepend (bytes_at v.memory (get_cluster_addr v p.cluster + p.offset) n)) found
            ∙ ap (λ bs. some (bs, p'))
                (ap (λ bs. bs ++ take (len - (total + n)) (drop n rest)) piece
                  ∙ take-add n (len - (total + n)) rest
                  ∙ ap (λ k. take k rest) wanted)),
        subst (IsBefore v p') (drop-drop n (len - (total + n)) rest ∙ ap (λ k. drop k rest) wanted)
            before,
      )
  | no over ↦
      let nothing : len - total ≡ 0 = omega (arith, over) in
      (p, rw (not_below over, nothing) refl, rw nothing h)
]
