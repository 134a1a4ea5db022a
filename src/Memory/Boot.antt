-- ===== src/Memory/Boot.antt =====
-- `InitializeMemoryManager`: the UEFI memory map (kernel/memory_map.hpp) read into the bitmap, and
-- the kernel's heap. The map's buffer is the list of its descriptors.
pub mod Available
pub mod ProgramBreak
use duvuvurkarpogeschel.Prelude.{
  ℕ, ◌+◌, ◌*◌, ◌/◌, ◌<◌, ◌≡◌, Bool, ◌||◌, ◌==◌, ltb, if◌then◌else◌, List, [], ◌∷◌, Option, none,
  some,
}
use duvuvurkarpogeschel.Prelude.Words.{add_size, sub_size, mul_size}
use duvuvurkarpogeschel.Error.{Error, WithError, ok, err}
use duvuvurkarpogeschel.Memory.{
  BitmapMemoryManager, new_manager, mark_allocated, set_memory_range, allocate, bytes_per_frame,
}

abbrev pub uefi_page_size : ℕ
uefi_page_size = 4096

pub record MemoryDescriptor : Type 0 where
  pub type : ℕ
  pub physical_start : ℕ
  pub virtual_start : ℕ
  pub number_of_pages : ℕ
  pub attribute : ℕ

-- kEfiBootServicesCode, kEfiBootServicesData and kEfiConventionalMemory
unfoldable pub is_available : ℕ → Bool
is_available memory_type = memory_type == 3 || memory_type == 4 || memory_type == 7

-- The loop's variables: the manager and `available_end`.
pub record Regions : Type 0 where
  pub manager : BitmapMemoryManager
  pub available_end : ℕ

abbrev pub physical_end : MemoryDescriptor → ℕ
physical_end desc = add_size desc.physical_start (mul_size desc.number_of_pages uefi_page_size)

-- The frames between the last available region and this one.
unfoldable pub mark_gap : Regions → MemoryDescriptor → BitmapMemoryManager
mark_gap r desc =
    if ltb r.available_end desc.physical_start
    then mark_allocated r.manager (r.available_end / bytes_per_frame)
        (sub_size desc.physical_start r.available_end / bytes_per_frame)
    else r.manager

-- One round of the loop over the memory map.
unfoldable pub add_region : Regions → MemoryDescriptor → Regions
unfolding mark_gap
add_region r desc =
    let m = mark_gap r desc in
    if is_available desc.type
    then record { manager = m; available_end = physical_end desc }
    else record {
      manager =
          mark_allocated m (desc.physical_start / bytes_per_frame)
            (mul_size desc.number_of_pages uefi_page_size / bytes_per_frame);
      available_end = r.available_end;
    }

unfoldable pub add_regions : Regions → List MemoryDescriptor → Regions
add_regions r [] = r
add_regions r (desc ∷ rest) = add_regions (add_region r desc) rest

-- The bitmap after the loop, its range set.
unfoldable pub load_memory_map : BitmapMemoryManager → List MemoryDescriptor → BitmapMemoryManager
load_memory_map m memory_map =
    let r = add_regions (record { manager = m; available_end = 0 }) memory_map in
    set_memory_range r.manager 1 (r.available_end / bytes_per_frame)

abbrev pub heap_frames : ℕ
heap_frames = 64 * 512

-- `program_break` and `program_break_end`
pub record Heap : Type 0 where
  pub program_break : ℕ
  pub program_break_end : ℕ

abbrev pub heap_at : ℕ → Heap
heap_at start =
    let program_break = mul_size start bytes_per_frame in
    record {
      program_break = program_break;
      program_break_end = add_size program_break (heap_frames * bytes_per_frame);
    }

abbrev pub heap_of : WithError ℕ × BitmapMemoryManager → WithError Heap × BitmapMemoryManager
heap_of (ok start, m) = (ok (heap_at start), m)
heap_of (err e, m) = (err e, m)

pub initialize_heap : BitmapMemoryManager → Option (WithError Heap × BitmapMemoryManager)
initialize_heap m = elim (allocate m heap_frames) [ none ↦ none | some r ↦ some (heap_of r) ]

-- An error here ends the kernel by `exit(1)`.
pub initialize_memory_manager :
    List MemoryDescriptor → Option (WithError Heap × BitmapMemoryManager)
initialize_memory_manager memory_map = initialize_heap (load_memory_map new_manager memory_map)
