-- ===== src/Elf/Segments.antt =====
-- What the calls for one segment set up and write.
use duvuvurkarpogeschel.Prelude.{
  ℕ, ◌+◌, ◌-◌, ◌*◌, ◌/◌, ◌%◌, ◌^◌, ◌≤◌, ◌≡◌, ◌⊎◌, refl, ap, ◌∙◌, max, Bool, false, ◌&&◌, ◌||◌,
  Option, none, some, List, [], ◌∷◌, ◌==◌, leb, ltb, if◌then◌else◌, arith, Bool-cases, inl, inr,
}
use duvuvurkarpogeschel.Prelude.Words.{add_size, sub_size}
use duvuvurkarpogeschel.Paging.{Paging}
use duvuvurkarpogeschel.Elf.{
  pt_load, ProgramHeader, Step, set_up, copied, zeroed, Loader, copy_segment, end_of, num_4kpages,
}

-- Bytes from `dst` on, `n` of them, and the others.
abbrev pub in_block : (dst n x : ℕ) → Bool
in_block dst n x = leb dst x && ltb x (dst + n)

-- What a byte of memory was written with last: the byte of the file at an offset, or 0.
pub data Written : Type 0 where
  from_file : (offset : ℕ) → Written
  zero_byte : Written

-- By the calls, the latest first; `none` for an address that they do not write.
abbrev pub last_write : List Step → (x : ℕ) → Option Written
last_write [] x = none
last_write (set_up dest_addr num_4kpages ∷ steps) x = last_write steps x
last_write (copied dst src n ∷ steps) x =
    if in_block dst n x then some (from_file (src + (x - dst))) else last_write steps x
last_write (zeroed dst n ∷ steps) x =
    if in_block dst n x then some zero_byte else last_write steps x

-- Whether a page, by its number, was set up.
abbrev pub is_set_up : List Step → (page : ℕ) → Bool
is_set_up [] page = false
is_set_up (set_up dest_addr num_4kpages ∷ steps) page =
    in_block (dest_addr / 4096) num_4kpages page || is_set_up steps page
is_set_up (copied dst src n ∷ steps) page = is_set_up steps page
is_set_up (zeroed dst n ∷ steps) page = is_set_up steps page

-- One of the calls has set up all the pages that bytes stand in.
abbrev pub HavePages : List Step → (dst n : ℕ) → Type 0
HavePages [] dst n = ⊥
HavePages (set_up dest_addr num_4kpages ∷ steps) dst n =
    (dest_addr / 4096 * 4096 ≤ dst) × (dst + n ≤ (dest_addr / 4096 + num_4kpages) * 4096)
    ⊎ HavePages steps dst n
HavePages (copied _ _ _ ∷ steps) dst n = HavePages steps dst n
HavePages (zeroed _ _ ∷ steps) dst n = HavePages steps dst n

-- Each write goes to pages that were set up before.
abbrev pub AreBacked : List Step → Type 0
AreBacked [] = Unit
AreBacked (set_up dest_addr num_4kpages ∷ steps) = AreBacked steps
AreBacked (copied dst src n ∷ steps) = HavePages steps dst n × AreBacked steps
AreBacked (zeroed dst n ∷ steps) = HavePages steps dst n × AreBacked steps

-- The byte of a segment at an address: from the file, or 0 behind what the file has of it.
abbrev pub segment_byte : ProgramHeader → (x : ℕ) → Option Written → Option Written
segment_byte p x old =
    if in_block p.p_vaddr p.p_filesz x
    then some (from_file (p.p_offset + (x - p.p_vaddr)))
    else if in_block p.p_vaddr p.p_memsz x
    then some zero_byte
    else old

-- The later segments win.
unfoldable pub loaded_byte : List ProgramHeader → (x : ℕ) → Option Written → Option Written
loaded_byte [] x old = old
loaded_byte (p ∷ ps) x old =
    loaded_byte ps x (if p.p_type == pt_load then segment_byte p x old else old)

-- The pages from that of a segment's address on up to its end.
abbrev pub has_page : ProgramHeader → (page : ℕ) → Bool
has_page p page = leb (p.p_vaddr / 4096) page && ltb (page * 4096) (p.p_vaddr + p.p_memsz)

unfoldable pub loaded_page : List ProgramHeader → (page : ℕ) → Bool → Bool
loaded_page [] page old = old
loaded_page (p ∷ ps) page old =
    loaded_page ps page (if p.p_type == pt_load then has_page p page || old else old)

unfoldable pub loaded_end : List ProgramHeader → (last_addr : ℕ) → ℕ
loaded_end [] last_addr = last_addr
loaded_end (p ∷ ps) last_addr =
    loaded_end ps (if p.p_type == pt_load then max last_addr (end_of p) else last_addr)

-- The file has no more of a segment than the memory, and no segment reaches the last page of the
-- addresses.
unfoldable pub Fits : List ProgramHeader → Type 0
Fits [] = Unit
Fits (p ∷ ps) = (p.p_filesz ≤ p.p_memsz) × (p.p_vaddr + p.p_memsz + 4096 ≤ 2 ^ 64) × Fits ps

two_blocks :
    (dst n m x : ℕ) (byte old : Option Written)
    → n ≤ m
    → (if in_block (dst + n) (m - n) x
        then some zero_byte
        else if in_block dst n x
        then byte
        else old)
      ≡ (if in_block dst n x then byte else if in_block dst m x then some zero_byte else old)
two_blocks dst n m x byte old fits = elim (Bool-cases (in_block dst n x)) [
  | inl within ↦
      let first : in_block (dst + n) (m - n) x ≡ false = ground (arith, within) in
      rw (within, first) refl
  | inr outside ↦
      let same : in_block (dst + n) (m - n) x ≡ in_block dst m x = ground (arith, outside, fits) in
      rw (outside, same) refl
]

module _ (p : ProgramHeader) (fits : p.p_filesz ≤ p.p_memsz)
    (room : p.p_vaddr + p.p_memsz + 4096 ≤ 2 ^ 64) where
  abbrev pub with_segment : Loader → Paging → Loader
  with_segment s t =
      copy_segment (record { paging = t; steps = set_up p.p_vaddr (num_4kpages p) ∷ s.steps }) p

  behind_file : add_size p.p_vaddr p.p_filesz ≡ p.p_vaddr + p.p_filesz
  behind_file = omega (arith, fits, room)

  zeros : sub_size p.p_memsz p.p_filesz ≡ p.p_memsz - p.p_filesz
  zeros = omega (arith, fits, room)

  pub segment-last_write :
      (s : Loader) (t : Paging) (x : ℕ)
      → last_write (with_segment s t).steps x ≡ segment_byte p x (last_write s.steps x)
  unfolding copy_segment
  segment-last_write s t x =
      let before =
        if in_block p.p_vaddr p.p_filesz x
        then some (from_file (p.p_offset + (x - p.p_vaddr)))
        else last_write s.steps x in
      ap (λ a. if in_block a (sub_size p.p_memsz p.p_filesz) x then some zero_byte else before)
        behind_file
      ∙ ap (λ n. if in_block (p.p_vaddr + p.p_filesz) n x then some zero_byte else before) zeros
      ∙ two_blocks p.p_vaddr p.p_filesz p.p_memsz x
          (some (from_file (p.p_offset + (x - p.p_vaddr)))) (last_write s.steps x) fits

  pages : num_4kpages p ≡ (p.p_vaddr % 4096 + p.p_memsz + 4095) / 4096
  unfolding num_4kpages
  pages = omega (arith, room)

  segment_pages : (page : ℕ) → in_block (p.p_vaddr / 4096) (num_4kpages p) page ≡ has_page p page
  segment_pages page = rw pages (ground arith)

  pub segment-is_set_up :
      (s : Loader) (t : Paging) (page : ℕ)
      → is_set_up (with_segment s t).steps page ≡ (has_page p page || is_set_up s.steps page)
  unfolding copy_segment
  segment-is_set_up s t page = ap (λ b. b || is_set_up s.steps page) (segment_pages page)

  pub segment-AreBacked :
      (s : Loader) (t : Paging) → AreBacked s.steps → AreBacked (with_segment s t).steps
  unfolding copy_segment
  segment-AreBacked s t h = (
    inl (
      omega (arith, pages, behind_file, zeros),
      omega (arith, pages, behind_file, zeros, fits, room),
    ),
    (inl (omega (arith, pages), omega (arith, pages, fits)), h),
  )
