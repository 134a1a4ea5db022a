-- ===== src/Paging.antt =====
-- kernel/paging.hpp and kernel/paging.cpp: page maps. The memory of the page maps is a function
-- from a map's address and an index to the entry; that of the pages, from a page's address to its
-- bytes. The register CR3 is a parameter of what reads it. `none` means that fuel ran out.
pub mod Address
pub mod Setup
pub mod Fault
mod Tests
use duvuvurkarpogeschel.Prelude.{
  ℕ, zero, suc, ◌+◌, ◌-◌, ◌*◌, ◌/◌, ◌%◌, ◌^◌, Bool, true, false, ◌&&◌, Option, none, some, List, [],
  ◌∷◌, ◌==◌, leb, ltb, if◌then◌else◌, replicate,
}
use duvuvurkarpogeschel.Error.{Error, WithError, ok, err}
use duvuvurkarpogeschel.Memory.{BitmapMemoryManager, allocate, free, bytes_per_frame}

-- `LinearAddress4Level::Part`.
pub part : ℕ → (page_map_level : ℕ) → ℕ
part a zero = a % 2 ^ 12
part a (suc zero) = a / 2 ^ 12 % 2 ^ 9
part a (suc (suc zero)) = a / 2 ^ 21 % 2 ^ 9
part a (suc (suc (suc zero))) = a / 2 ^ 30 % 2 ^ 9
part a (suc (suc (suc (suc zero)))) = a / 2 ^ 39 % 2 ^ 9
part a level = 0

-- A bit field of `width` bits from bit `shift` on is overwritten.
abbrev pub put_field : (shift width : ℕ) → ℕ → (value : ℕ) → ℕ
put_field shift width a value =
    a / 2 ^ (shift + width) * 2 ^ (shift + width) + value % 2 ^ width * 2 ^ shift + a % 2 ^ shift

pub set_part : ℕ → (page_map_level value : ℕ) → ℕ
set_part a zero value = put_field 0 12 a value
set_part a (suc zero) value = put_field 12 9 a value
set_part a (suc (suc zero)) value = put_field 21 9 a value
set_part a (suc (suc (suc zero))) value = put_field 30 9 a value
set_part a (suc (suc (suc (suc zero)))) value = put_field 39 9 a value
set_part a level value = a

-- The loop that sets the parts of the levels up to `level` to 0.
pub clear_parts : ℕ → (level : ℕ) → ℕ
clear_parts a zero = a
clear_parts a (suc level) = clear_parts (set_part a (suc level) 0) level

-- The address that SetupPageMap goes on with after the entry `entry_index` of a map.
pub next_address : ℕ → (page_map_level entry_index : ℕ) → ℕ
next_address a page_map_level entry_index =
    clear_parts (set_part a page_map_level (entry_index + 1)) (page_map_level - 1)

-- The bits that the code gives no meaning to are one number.
pub record PageMapEntry : Type 0 where
  pub present : Bool
  pub writable : Bool
  pub user : Bool
  pub addr : ℕ
  pub other_bits : ℕ

abbrev pub zero_entry : PageMapEntry
zero_entry = record { present = false; writable = false; user = false; addr = 0; other_bits = 0 }

pub map_pointer : PageMapEntry → ℕ
map_pointer e = e.addr * 2 ^ 12

pub set_pointer : PageMapEntry → ℕ → PageMapEntry
set_pointer e p = record e { addr = p / 2 ^ 12 % 2 ^ 40 }

pub record Paging : Type 0 where
  pub manager : BitmapMemoryManager
  pub tables : (table index : ℕ) → PageMapEntry
  pub pages : (page : ℕ) → List ℕ

pub write_entry : Paging → (table index : ℕ) → PageMapEntry → Paging
write_entry s table index e = record s {
  tables = λ t i. if t == table && i == index then e else s.tables t i;
}

pub page_size_4k : ℕ
page_size_4k = 4096

-- What an operation with an error leaves: the value or the error, and the memory.
abbrev pub Outcome : Type 0 → Type 0
Outcome A = Option (WithError A × Paging)

-- `if (err) return`.
abbrev pub and_then : {A B : Type 0} → Outcome A → (A → Paging → Outcome B) → Outcome B
and_then none next = none
and_then (some (ok a, s)) next = next a s
and_then (some (err e, s)) next = some (err e, s)

pub clear_map : Paging → (page : ℕ) → Paging
clear_map s page = record s {
  tables = λ t i. if t == page then zero_entry else s.tables t i;
  pages = λ p. if p == page then replicate page_size_4k 0 else s.pages p;
}

new_map_of : Paging → Option (WithError ℕ × BitmapMemoryManager) → Outcome ℕ
new_map_of s none = none
new_map_of s (some (ok frame, m)) =
    some
      (ok (frame * bytes_per_frame), clear_map (record s { manager = m }) (frame * bytes_per_frame))
new_map_of s (some (err e, m)) = some (err e, record s { manager = m })

pub new_page_map : Paging → Outcome ℕ
new_page_map s = new_map_of s (allocate s.manager 1)

pub free_page_map : Paging → (table : ℕ) → Paging
free_page_map s table = record s { manager = free s.manager (table / bytes_per_frame) 1 }

-- The entry gets a map that was made.
link_map : (table index child_map : ℕ) → Paging → Outcome ℕ
link_map table index child_map s = some (
  ok child_map,
  write_entry s table index
      (record (set_pointer (s.tables table index) child_map) { present = true }),
)

pub map_or_new : Paging → (table index : ℕ) → (present : Bool) → Outcome ℕ
map_or_new s table index true = some (ok (map_pointer (s.tables table index)), s)
map_or_new s table index false = and_then (new_page_map s) (link_map table index)

pub set_new_page_map_if_not_present : Paging → (table index : ℕ) → Outcome ℕ
set_new_page_map_if_not_present s table index =
    map_or_new s table index (s.tables table index).present

-- The loop of SetupPageMap on a map of level `level`, with `child` for the maps below it. A map
-- has 512 entries, which is fuel enough.
module _ (child : Paging → (table addr num_4kpages : ℕ) → Outcome ℕ) (level : ℕ)
    (writable : Bool) where
  setup_child : Paging → (table entry_index child_map addr left : ℕ) → Outcome ℕ
  setup_child s table entry_index child_map addr left =
      let entry = s.tables table entry_index in
      elim level [
        | suc zero ↦ some (
          ok left,
          write_entry s table entry_index (record entry { user = true; writable = writable }),
        )
        | _ ↦
            child (write_entry s table entry_index (record entry { user = true; writable = true }))
              child_map addr (suc left)
      ]

  setup_entries : (fuel : ℕ) → Paging → (table addr num_4kpages : ℕ) → Outcome ℕ
  setup_entries zero s table addr num_4kpages = none
  setup_entries (suc fuel) s table addr num_4kpages =
      let entry_index = part addr level in
      elim num_4kpages [
        | zero ↦ some (ok 0, s)
        | suc left ↦
            and_then (set_new_page_map_if_not_present s table entry_index)
              (λ (child_map : ℕ) (t : Paging).
                and_then (setup_child t table entry_index child_map addr left)
                  (λ (remain : ℕ) (u : Paging). elim (entry_index == 511) [
                    | true ↦ some (ok remain, u)
                    | false ↦
                        setup_entries fuel u table (next_address addr level entry_index) remain
                  ]))
      ]

pub setup_page_map :
    (page_map_level : ℕ) (writable : Bool) → Paging → (table addr num_4kpages : ℕ) → Outcome ℕ
setup_page_map zero writable s table addr num_4kpages = some (ok num_4kpages, s)
setup_page_map (suc level) writable s table addr num_4kpages =
    setup_entries (setup_page_map level writable) (suc level) writable 512 s table addr num_4kpages

pub setup_page_maps : (cr3 : ℕ) → Paging → (addr num_4kpages : ℕ) → (writable : Bool) → Outcome ℕ
setup_page_maps cr3 s addr num_4kpages writable = setup_page_map 4 writable s cr3 addr num_4kpages

-- The loop of CleanPageMap, with the rounds left. `Free` always returns kSuccess.
module _ (child : Paging → (table : ℕ) → Paging) where
  clean_entry : Paging → (table index : ℕ) → Paging
  clean_entry s table index =
      let entry = s.tables table index in
      let below = child s (map_pointer entry) in
      let freed = if entry.writable then free_page_map below (map_pointer entry) else below in
      if entry.present then write_entry freed table index zero_entry else s

  clean_entries : (left : ℕ) → Paging → (table index : ℕ) → Paging
  clean_entries zero s table index = s
  clean_entries (suc left) s table index =
      clean_entries left (clean_entry s table index) table (index + 1)

pub clean_page_map : (page_map_level : ℕ) → (addr : ℕ) → Paging → (table : ℕ) → Paging
clean_page_map zero addr s table = s
clean_page_map (suc level) addr s table =
    clean_entries (clean_page_map level addr) (512 - part addr (suc level)) s table
      (part addr (suc level))

pub clean_page_maps : (cr3 : ℕ) → Paging → (addr : ℕ) → Paging
clean_page_maps cr3 s addr = clean_page_map 4 addr s cr3

-- The loop of CopyPageMaps above the last level, with `child` for the maps below.
module _ (child : Paging → (dest src : ℕ) → Outcome Unit) where
  copy_entry : Paging → (dest src index : ℕ) → Outcome Unit
  copy_entry s dest src index =
      let entry = s.tables src index in
      elim entry.present [
        | false ↦ some (ok tt, s)
        | true ↦ and_then (new_page_map s) (λ (table : ℕ) (t : Paging).
            child (write_entry t dest index (set_pointer (t.tables src index) table)) table
              (map_pointer (t.tables src index)))
      ]

  copy_entries : (left : ℕ) → Paging → (dest src index : ℕ) → Outcome Unit
  copy_entries zero s dest src index = some (ok tt, s)
  copy_entries (suc left) s dest src index =
      and_then (copy_entry s dest src index)
        (λ (done : Unit) (t : Paging). copy_entries left t dest src (index + 1))

copy_leaf : Paging → (dest src index : ℕ) → Paging
copy_leaf s dest src index =
    let entry = s.tables src index in
    if entry.present then write_entry s dest index (record entry { writable = false }) else s

copy_leaves : (left : ℕ) → Paging → (dest src index : ℕ) → Paging
copy_leaves zero s dest src index = s
copy_leaves (suc left) s dest src index =
    copy_leaves left (copy_leaf s dest src index) dest src (index + 1)

-- `level` counts from the last one, which is part 1.
pub copy_page_maps : (level : ℕ) → Paging → (dest src start : ℕ) → Outcome Unit
copy_page_maps zero s dest src start = some (ok tt, copy_leaves (512 - start) s dest src start)
copy_page_maps (suc level) s dest src start =
    copy_entries (λ (t : Paging) (d e : ℕ). copy_page_maps level t d e 0) (512 - start) s dest src
      start
