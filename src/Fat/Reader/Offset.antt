-- ===== src/Fat/Reader/Offset.antt =====
-- What Load copies from an offset.
use duvuvurkarpogeschel.Prelude.{
  ℕ, zero, suc, ◌-◌, ◌≤◌, ◌<◌, ◌≡◌, refl, sym, ap, ◌∙◌, min, true, false, Option, some, List, [],
  ◌∷◌, ◌++◌, leb, length, length-append, take, drop, arith, dec_lt,
}
use mathlib.Core.Path.{subst}
use duvuvurkarpogeschel.Prelude.Words.{word}
use duvuvurkarpogeschel.Fat.Table.{next_cluster, end_of_clusterchain}
use duvuvurkarpogeschel.Fat.Table.Chain.{IsChain, next_cluster_last, next_cluster_link}
use duvuvurkarpogeschel.Fat.Volume.{Volume, bytes_per_cluster, get_cluster_addr, first_cluster}
use duvuvurkarpogeschel.Fat.Reader.{FileDescriptor, Position, skip_clusters, read_at, load}
use duvuvurkarpogeschel.Fat.Reader.Cursor.{
  IsBefore, at_end, inside, cluster_bytes, chain_bytes, drop-append, length-bytes_at,
}
use duvuvurkarpogeschel.Fat.Reader.Contents.{IsBefore-start, read_lem}

drop_past : (n : ℕ) (xs ys : List ℕ) → length xs ≤ n → drop n (xs ++ ys) ≡ drop (n - length xs) ys
drop_past n [] ys h = let same : n ≡ n - 0 = omega arith in ap (λ k. drop k ys) same
drop_past zero (x ∷ xs) ys h = absurd (omega (arith, h))
drop_past (suc n) (x ∷ xs) ys h =
    let same : n - length xs ≡ suc n - suc (length xs) = omega arith in
    drop_past n xs ys (omega (arith, h)) ∙ ap (λ k. drop k ys) same

leb-true : (a b : ℕ) → a ≤ b → leb a b ≡ true
leb-true a b h = ground (arith, h)

leb-false : (a b : ℕ) → b < a → leb a b ≡ false
leb-false a b h = ground (arith, h)

abbrev Skips : Volume → Option Position → List ℕ → Type 0
Skips v found rest = (p : Position) × (found ≡ some p) × IsBefore v p rest

module _ (v : Volume) (some_bytes : 0 < bytes_per_cluster v) where
  skip_here :
      (fuel offset c : ℕ)
      → offset < bytes_per_cluster v
      → skip_clusters v (suc fuel) offset c ≡ some (record { cluster = c; offset = offset })
  unfolding skip_clusters
  skip_here fuel offset c below = rw (leb-false (bytes_per_cluster v) offset below) refl

  skip_on :
      (fuel offset c : ℕ)
      → bytes_per_cluster v ≤ offset
      → skip_clusters v (suc fuel) offset c
        ≡ skip_clusters v fuel (offset - bytes_per_cluster v) (next_cluster v.fat c)
  unfolding skip_clusters
  skip_on fuel offset c past = rw (leb-true (bytes_per_cluster v) offset past) refl

  rest_past :
      (offset c : ℕ) (cs : List ℕ)
      → bytes_per_cluster v ≤ offset
      → drop offset (chain_bytes v (c ∷ cs))
        ≡ drop (offset - bytes_per_cluster v) (chain_bytes v cs)
  rest_past offset c cs past =
      let long = length-bytes_at v.memory (get_cluster_addr v c) (bytes_per_cluster v) in
      drop_past offset (cluster_bytes v c) (chain_bytes v cs) (omega (arith, long, past))
      ∙ ap (λ l. drop (offset - l) (chain_bytes v cs)) long

  -- The walk on from a cluster that the offset passes.
  skip_next :
      (fuel offset c : ℕ) (cs : List ℕ)
      → IsChain v.fat c cs
      → ((d : ℕ) (ds : List ℕ)
          → cs ≡ d ∷ ds
          → Skips v
              (skip_clusters v fuel (offset - bytes_per_cluster v) d)
              (drop (offset - bytes_per_cluster v) (chain_bytes v cs)))
      → offset < suc fuel
      → bytes_per_cluster v ≤ offset
      → offset ≤ length (chain_bytes v (c ∷ cs))
      → Skips v
          (skip_clusters v fuel (offset - bytes_per_cluster v) (next_cluster v.fat c))
          (drop (offset - bytes_per_cluster v) (chain_bytes v cs))
  skip_next zero offset c cs chain ih f over fits = absurd (omega (arith, f, over, some_bytes))
  skip_next (suc fuel) offset c [] chain ih f over fits =
      let long = length-bytes_at v.memory (get_cluster_addr v c) (bytes_per_cluster v) in
      let all = length-append (cluster_bytes v c) [] in
      let done : offset - bytes_per_cluster v ≡ 0 = omega (arith, all, long, fits) in
      rw (done, next_cluster_last v.fat c chain)
        (
          record { cluster = end_of_clusterchain; offset = 0 },
          skip_here fuel 0 end_of_clusterchain some_bytes,
          at_end,
        )
  skip_next (suc fuel) offset c (d ∷ ds) chain ih f over fits =
      rw (next_cluster_link v.fat c d ds chain) (ih d ds refl)

  skip_clusters_lem :
      (fuel offset c : ℕ) (cs : List ℕ)
      → IsChain v.fat c cs
      → offset < fuel
      → offset ≤ length (chain_bytes v (c ∷ cs))
      → Skips v (skip_clusters v fuel offset c) (drop offset (chain_bytes v (c ∷ cs)))
  skip_clusters_lem zero offset c cs chain f fits = absurd (omega (arith, f))
  skip_clusters_lem (suc fuel) offset c cs chain f fits =
      let long = length-bytes_at v.memory (get_cluster_addr v c) (bytes_per_cluster v) in
      elim (dec_lt offset (bytes_per_cluster v)) [
        | yes below ↦ (
          record { cluster = c; offset = offset },
          skip_here fuel offset c below,
          subst (IsBefore v (record { cluster = c; offset = offset }))
              (sym (
                drop-append offset (cluster_bytes v c) (chain_bytes v cs)
                  (omega (arith, below, long))))
              (inside c offset cs chain below),
        )
        | no past ↦
            let over : bytes_per_cluster v ≤ offset = omega (arith, past) in
            let further = λ (d : ℕ) (ds : List ℕ) (same : cs ≡ d ∷ ds).
              let linked = subst (IsChain v.fat c) same chain in
              let both = length-append (cluster_bytes v c) (chain_bytes v cs) in
              let rest = offset - bytes_per_cluster v in
              subst (λ xs. Skips v (skip_clusters v fuel rest d) (drop rest (chain_bytes v xs)))
                (sym same)
                (skip_clusters_lem fuel rest d ds linked.4 (omega (arith, f, over, some_bytes))
                  (omega (arith, ap (λ xs. length (chain_bytes v xs)) same, both, long, fits))) in
            let (p, found, before) =
              skip_next fuel offset c cs chain further (omega (arith, f)) over fits in
            (
              p,
              skip_on fuel offset c over ∙ found,
              subst (IsBefore v p) (sym (rest_past offset c cs over)) before,
            )
      ]

-- Load from an offset within the file copies the bytes of the file from there on, as many as are
-- asked for or up to the file's end.
pub load_lem :
    (v : Volume) (d : FileDescriptor) (cs : List ℕ) (len offset : ℕ)
    → IsChain v.fat (first_cluster d.fat_entry) cs
    → 0 < bytes_per_cluster v
    → d.fat_entry.file_size ≤ length (chain_bytes v (first_cluster d.fat_entry ∷ cs))
    → d.fat_entry.file_size < word
    → offset ≤ d.fat_entry.file_size
    → (d' : FileDescriptor) × (load v d len offset
        ≡ some (
          take
              (min len (d.fat_entry.file_size - offset))
              (drop offset (chain_bytes v (first_cluster d.fat_entry ∷ cs))),
          d',
        ))
unfolding load
load_lem v d cs len offset chain some_bytes fits small within =
    let bytes = chain_bytes v (first_cluster d.fat_entry ∷ cs) in
    let (p, found, before) =
      skip_clusters_lem v some_bytes (suc offset) offset (first_cluster d.fat_entry) cs chain
        (omega arith) (omega (arith, within, fits)) in
    let opened : FileDescriptor = record { fat_entry = d.fat_entry; rd_off = offset; rd = p } in
    let (d', (copied, entry, off, after)) = read_lem v opened len bytes (record {
      before = IsBefore-start v opened (drop offset bytes) before;
      in_file = within;
      in_clusters = fits;
      in_word = small;
    }) in
    (d', ap (read_at v d.fat_entry len offset) found ∙ copied)
