-- ===== src/File/Delim.antt =====
-- ReadDelim cuts a stream into lines and loses nothing of it.
use duvuvurkarpogeschel.Prelude.{
  ℕ, zero, suc, ◌+◌, ◌-◌, ◌<◌, ◌≤◌, ◌≡◌, ◌⊎◌, inl, inr, refl, sym, ap, ◌∙◌, Bool, true, false,
  Option, none, some, List, [], ◌∷◌, ◌++◌, ◌==◌, if◌then◌else◌, length, arith, Bool-cases,
}
use duvuvurkarpogeschel.File.{stop_at, read_until, read_delim, add_byte}

-- A descriptor whose reads give the bytes of its content one after the other.
abbrev pub uncons : List ℕ → Option ℕ × List ℕ
uncons [] = (none, [])
uncons (b ∷ bytes) = (some b, bytes)

abbrev pub IsStream : {S : Type 0} → (S → Option ℕ × S) → (S → List ℕ) → Type 0
IsStream {S} read content =
    (fd : S)
    → ((read fd).0 ≡ (uncons (content fd)).0) × (content (read fd).1 ≡ (uncons (content fd)).1)

-- Bytes with the delimiter at their end, or nowhere.
abbrev pub has : ℕ → List ℕ → Bool
has delim [] = false
has delim (b ∷ bytes) = if b == delim then true else has delim bytes

abbrev pub IsPiece : (delim len : ℕ) → (out left : List ℕ) → Type 0
IsPiece delim len out left =
    (length out ≤ len)
    × ((has delim out ≡ false) × ((length out ≡ len) ⊎ (left ≡ []))
        ⊎ (line : List ℕ) × (has delim line ≡ false) × (out ≡ line ++ delim ∷ []))

List-cases : (l : List ℕ) → (l ≡ []) ⊎ ((b : ℕ) × (bytes : List ℕ) × (l ≡ b ∷ bytes))
List-cases [] = inl refl
List-cases (b ∷ bytes) = inr (b, bytes, refl)

module _ {S : Type 0} (read : S → Option ℕ × S) (content : S → List ℕ)
    (stream : IsStream read content) where
  add-IsPiece :
      (delim len b : ℕ) (out left : List ℕ)
      → (b == delim) ≡ false
      → IsPiece delim len out left
      → IsPiece delim (suc len) (b ∷ out) left
  add-IsPiece delim len b out left e h = (
    omega (arith, h.0),
    elim h.1 [
      | inl p ↦ inl (rw e p.0, elim p.1 [ inl full ↦ inl (ap suc full) | inr end ↦ inr end ])
      | inr p ↦ inr (b ∷ p.0, rw e p.1, ap (λ r. b ∷ r) p.2)
    ],
  )

  until_end :
      (delim len : ℕ) (fd : S)
      → (read fd).0 ≡ none
      → read_until read delim (suc len) fd ≡ ([], (read fd).1)
  unfolding read_until stop_at
  until_end delim len fd e = rw e refl

  until_delim :
      (delim len : ℕ) (fd : S) (b : ℕ)
      → (read fd).0 ≡ some b
      → (b == delim) ≡ true
      → read_until read delim (suc len) fd ≡ (b ∷ [], (read fd).1)
  unfolding read_until stop_at
  until_delim delim len fd b e h = rw (e, h) refl

  until_more :
      (delim len : ℕ) (fd : S) (b : ℕ)
      → (read fd).0 ≡ some b
      → (b == delim) ≡ false
      → read_until read delim (suc len) fd ≡ add_byte read b (read_until read delim len (read fd).1)
  unfolding read_until stop_at
  until_more delim len fd b e h = rw (e, h) refl

  until_lem :
      (delim len : ℕ) (fd : S)
      → let r = read_until read delim len fd in
        (content fd ≡ r.0 ++ content r.1) × IsPiece delim len r.0 (content r.1)
  until_lem delim zero fd = unfold read_until in (refl, (omega arith, inl (refl, inl refl)))
  until_lem delim (suc len) fd =
      let s = stream fd in
      elim (List-cases (content fd)) [
        | inl e ↦
            let end : (read fd).0 ≡ none = s.0 ∙ ap (λ c. (uncons c).0) e in
            let last : content (read fd).1 ≡ [] = s.1 ∙ ap (λ c. (uncons c).1) e in
            rw (until_end delim len fd end) (e ∙ sym last, (omega arith, inl (refl, inr last)))
        | inr c ↦
            let byte : (read fd).0 ≡ some c.0 = s.0 ∙ ap (λ c. (uncons c).0) c.2 in
            let rest : content (read fd).1 ≡ c.1 = s.1 ∙ ap (λ c. (uncons c).1) c.2 in
            elim (Bool-cases (c.0 == delim)) [
              | inl e ↦
                  let same : c.0 ≡ delim = ground (arith, e) in
                  rw (until_delim delim len fd c.0 byte e) (
                    c.2 ∙ ap (λ r. c.0 ∷ r) (sym rest),
                    (omega arith, inr ([], refl, ap (λ b. b ∷ []) same)),
                  )
              | inr e ↦
                  let more = until_lem delim len (read fd).1 in
                  rw (until_more delim len fd c.0 byte e) (
                    c.2 ∙ ap (λ r. c.0 ∷ r) (sym rest ∙ more.0),
                    add-IsPiece delim len c.0 (read_until read delim len (read fd).1).0
                        (content (read_until read delim len (read fd).1).1) e more.1,
                  )
            ]
      ]

  -- On a descriptor that reads its bytes one after the other, ReadDelim with a buffer takes the next ones: as many as
  -- the buffer has room for beside the NUL or all that are left, with no delimiter among them, or a line, that ends with
  -- the first delimiter. What follows them stays to be read.
  pub read_delim_lem :
      (delim len : ℕ) (fd : S)
      → 0 < len
      → let r = read_delim read delim len fd in
        (content fd ≡ r.0 ++ content r.1)
        × (length r.0 < len)
        × ((has delim r.0 ≡ false) × ((length r.0 + 1 ≡ len) ⊎ (content r.1 ≡ []))
            ⊎ (line : List ℕ) × (has delim line ≡ false) × (r.0 ≡ line ++ delim ∷ []))
  unfolding read_delim
  read_delim_lem delim len fd h =
      let u = until_lem delim (len - 1) fd in
      (
        u.0,
        omega (arith, u.1.0, h),
        elim u.1.1 [
          | inl p ↦
              inl (p.0, elim p.1 [ inl full ↦ inl (omega (arith, full, h)) | inr end ↦ inr end ])
          | inr p ↦ inr p
        ],
      )
