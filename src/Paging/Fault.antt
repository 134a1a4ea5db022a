-- ===== src/Paging/Fault.antt =====
-- kernel/paging.cpp: the page fault handler. The hardware reads and writes through the page maps by
-- a walk from CR3, which is `walk`. `Load` of a file's descriptor is a virtual call, and so a
-- parameter: the bytes from an offset on, at most as many as asked for.
pub mod Copy
use duvuvurkarpogeschel.Prelude.{
  ℕ, zero, suc, ◌+◌, ◌-◌, ◌*◌, ◌/◌, ◌%◌, ◌^◌, Bool, true, false, ◌&&◌, Option, none, some, List, [],
  ◌∷◌, ◌++◌, ◌==◌, leb, ltb, if◌then◌else◌, length, take, drop,
}
use duvuvurkarpogeschel.Prelude.Int.{ℤ}
use duvuvurkarpogeschel.Prelude.Words.{sub_size}
use duvuvurkarpogeschel.Error.{Error, WithError, ok, err, already_allocated, index_out_of_range}
use duvuvurkarpogeschel.Task.{Task, FileMapping}
use duvuvurkarpogeschel.Paging.{
  PageMapEntry, Paging, part, set_part, map_pointer, set_pointer, write_entry, page_size_4k,
  Outcome, and_then, new_page_map, setup_page_maps,
}

-- The entry of the last level for an address, as the processor finds it.
pub walk : (level : ℕ) → Paging → (table addr : ℕ) → Option PageMapEntry
walk zero s table addr = none
walk (suc zero) s table addr =
    let entry = s.tables table (part addr 1) in if entry.present then some entry else none
walk (suc (suc level)) s table addr =
    let entry = s.tables table (part addr (suc (suc level))) in
    let below = walk (suc level) s (map_pointer entry) addr in if entry.present then below else none

page_bytes : Paging → Option PageMapEntry → List ℕ
page_bytes s none = []
page_bytes s (some entry) = s.pages (map_pointer entry)

abbrev pub write_page : Paging → (page : ℕ) → List ℕ → Paging
write_page s page bytes = record s { pages = λ p. if p == page then bytes else s.pages p }

unfoldable pub find_file_mapping : List FileMapping → (causal_vaddr : ℕ) → Option FileMapping
find_file_mapping [] causal_vaddr = none
find_file_mapping (m ∷ fmaps) causal_vaddr =
    let later = find_file_mapping fmaps causal_vaddr in
    if leb m.vaddr_begin causal_vaddr && ltb causal_vaddr m.vaddr_end then some m else later

pub set_page_content : (level : ℕ) → Paging → (table addr content : ℕ) → Paging
set_page_content zero s table addr content = s
set_page_content (suc zero) s table addr content =
    let i = part addr 1 in
    write_entry s table i (record (set_pointer (s.tables table i) content) { writable = true })
set_page_content (suc (suc level)) s table addr content =
    set_page_content (suc level) s (map_pointer (s.tables table (part addr (suc (suc level))))) addr
      content

-- `causal_addr & 0xffff'ffff'ffff'f000`
abbrev pub page_of : ℕ → ℕ
page_of addr = addr / 2 ^ 12 * 2 ^ 12

pub copy_one_page : (cr3 : ℕ) → Paging → (causal_addr : ℕ) → Outcome Unit
copy_one_page cr3 s causal_addr = and_then (new_page_map s) (λ (p : ℕ) (t : Paging).
    let copied = write_page t p (page_bytes t (walk 4 t cr3 (page_of causal_addr))) in
    some (ok tt, set_page_content 4 copied cr3 causal_addr p))

-- What is written over the first bytes of a page.
load_page : Paging → Option PageMapEntry → List ℕ → Paging
load_page s none bytes = s
load_page s (some entry) bytes =
    write_page s (map_pointer entry) (bytes ++ drop (length bytes) (s.pages (map_pointer entry)))

module _ (load : (fd : ℤ) (len offset : ℕ) → List ℕ) where
  pub prepare_page_cache : (cr3 : ℕ) → Paging → FileMapping → (causal_vaddr : ℕ) → Outcome Unit
  prepare_page_cache cr3 s m causal_vaddr =
      let page_vaddr = set_part causal_vaddr 0 0 in
      and_then (setup_page_maps cr3 s page_vaddr 1 true) (λ (remain : ℕ) (t : Paging). some (
        ok tt,
        load_page t (walk 4 t cr3 page_vaddr)
            (load m.fd page_size_4k (sub_size page_vaddr m.vaddr_begin)),
      ))

  map_file_page : (cr3 : ℕ) → Paging → Option FileMapping → (causal_addr : ℕ) → Outcome Unit
  map_file_page cr3 s none causal_addr = some (err index_out_of_range, s)
  map_file_page cr3 s (some m) causal_addr = prepare_page_cache cr3 s m causal_addr

  pub handle_page_fault : (cr3 : ℕ) → Paging → Task → (error_code causal_addr : ℕ) → Outcome Unit
  handle_page_fault cr3 s task error_code causal_addr =
      let present = error_code % 2 == 1 in
      let is_write = error_code / 2 % 2 == 1 in
      let user = error_code / 4 % 2 == 1 in
      elim (present && is_write && user) [
        | true ↦ copy_one_page cr3 s causal_addr
        | false ↦ elim present [
          | true ↦ some (err already_allocated, s)
          | false ↦ elim (leb task.dpaging_begin causal_addr && ltb causal_addr task.dpaging_end) [
            | true ↦
                and_then (setup_page_maps cr3 s causal_addr 1 true)
                  (λ (remain : ℕ) (t : Paging). some (ok tt, t))
            | false ↦ map_file_page cr3 s (find_file_mapping task.file_maps causal_addr) causal_addr
          ]
        ]
      ]
