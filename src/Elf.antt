-- ===== src/Elf.antt =====
-- kernel/elf.hpp and the loading of ELF files in kernel/terminal.cpp. The program headers are the
-- `e_phnum` ones that GetProgramHeader points to. The calls that write through the page maps are
-- recorded, since what the pages hold afterwards is the work of the hardware that reads the maps.
pub mod Segments
pub mod Loading
mod Tests
use duvuvurkarpogeschel.Prelude.{
  ℕ, zero, suc, ◌+◌, ◌/◌, ◌%◌, ◌^◌, max, Bool, true, false, Option, none, some, List, [], ◌∷◌, ◌==◌,
  ltb, if◌then◌else◌,
}
use duvuvurkarpogeschel.Prelude.Words.{add_size, sub_size}
use duvuvurkarpogeschel.Error.{WithError, ok, err, invalid_format}
use duvuvurkarpogeschel.Paging.{Paging, Outcome, setup_page_maps}

abbrev pub et_exec : ℕ
et_exec = 2

abbrev pub pt_load : ℕ
pt_load = 1

-- The fields of `Elf64_Phdr` that the code reads.
pub record ProgramHeader : Type 0 where
  pub p_type : ℕ
  pub p_offset : ℕ
  pub p_vaddr : ℕ
  pub p_filesz : ℕ
  pub p_memsz : ℕ

-- The fields of `Elf64_Ehdr` that the code reads.
pub record ElfHeader : Type 0 where
  pub e_type : ℕ
  pub program_headers : List ProgramHeader

-- A call that CopyLoadSegments made: SetupPageMaps for so many pages that may not be written, which
-- succeeded, `memcpy` to an address from an offset of the file, or `memset` to 0.
pub data Step : Type 0 where
  set_up : (dest_addr num_4kpages : ℕ) → Step
  copied : (dst src n : ℕ) → Step
  zeroed : (dst n : ℕ) → Step

-- The page maps, and the calls made so far, the latest first.
pub record Loader : Type 0 where
  pub paging : Paging
  pub steps : List Step

first_load_address : List ProgramHeader → ℕ
first_load_address [] = 0
first_load_address (p ∷ ps) =
    let later = first_load_address ps in if p.p_type == pt_load then p.p_vaddr else later

pub get_first_load_address : ElfHeader → ℕ
get_first_load_address e = first_load_address e.program_headers

pub copy_segment : Loader → ProgramHeader → Loader
copy_segment s p = record s {
  steps =
      zeroed (add_size p.p_vaddr p.p_filesz) (sub_size p.p_memsz p.p_filesz)
      ∷ copied p.p_vaddr p.p_offset p.p_filesz
      ∷ s.steps;
}

pub end_of : ProgramHeader → ℕ
end_of p = add_size p.p_vaddr p.p_memsz

pub num_4kpages : ProgramHeader → ℕ
num_4kpages p = add_size (add_size (p.p_vaddr % 4096) p.p_memsz) 4095 / 4096

-- `if (err) return`. The address that comes with an error is not read.
with_pages :
    Outcome ℕ
    → Loader
    → ProgramHeader
    → (Loader → Option (WithError ℕ × Loader))
    → Option (WithError ℕ × Loader)
with_pages none s p next = none
with_pages (some (err e, paging)) s p next = some (err e, record s { paging = paging })
with_pages (some (ok left, paging)) s p next =
    next (record { paging = paging; steps = set_up p.p_vaddr (num_4kpages p) ∷ s.steps })

-- The loop of `CopyLoadSegments`.
pub copy_segments :
    (cr3 : ℕ) → Loader → List ProgramHeader → (last_addr : ℕ) → Option (WithError ℕ × Loader)
copy_segments cr3 s [] last_addr = some (ok last_addr, s)
copy_segments cr3 s (p ∷ ps) last_addr =
    let skipped = copy_segments cr3 s ps last_addr in
    let loaded =
      with_pages (setup_page_maps cr3 s.paging p.p_vaddr (num_4kpages p) false) s p
        (λ (t : Loader). copy_segments cr3 (copy_segment t p) ps (max last_addr (end_of p))) in
    if p.p_type == pt_load then loaded else skipped

pub copy_load_segments : (cr3 : ℕ) → Loader → ElfHeader → Option (WithError ℕ × Loader)
copy_load_segments cr3 s e = copy_segments cr3 s e.program_headers 0

pub load_elf : (cr3 : ℕ) → Loader → ElfHeader → Option (WithError ℕ × Loader)
load_elf cr3 s e =
    if e.e_type == et_exec
    then if ltb (get_first_load_address e) 0xffff800000000000
      then some (err invalid_format, s)
      else copy_load_segments cr3 s e
    else some (err invalid_format, s)
