-- ===== src/Memory/Tests.antt =====
-- Runs of the memory manager, and the theorems at inputs that meet their hypotheses.
use duvuvurkarpogeschel.Prelude.{
  ℕ, ◌+◌, ◌≡◌, ◌≢◌, refl, some, List, [], ◌∷◌, arith, true, not, if◌then◌else◌,
}
use duvuvurkarpogeschel.Error.{WithError, ok, err, no_enough_memory}
use duvuvurkarpogeschel.Memory.{
  BitmapMemoryManager, new_manager, get_bit, set_bit, set_bits, mark_allocated, free, scan,
  search_run, allocate, commit, stat, count_ones, sum_lines, set_memory_range,
}
use duvuvurkarpogeschel.Memory.Line.{
  IsWellFormed, new_manager-IsWellFormed, new_manager-lines, get_bit-new_manager,
}
use duvuvurkarpogeschel.Memory.Marks.{in_run}
use duvuvurkarpogeschel.Memory.Allocate.{FirstFit, allocate-FirstFit}
use duvuvurkarpogeschel.Memory.Ownership.{allocate_effect, free_undoes_allocate, allocate_disjoint}
use duvuvurkarpogeschel.Memory.Statistics.{stat_lem, count_used}
use duvuvurkarpogeschel.Memory.Boot.{
  MemoryDescriptor, Heap, add_region, add_regions, load_memory_map, initialize_memory_manager,
  is_available,
}
use duvuvurkarpogeschel.Memory.Boot.Available.{in_available, get_bit-load_memory_map}
use duvuvurkarpogeschel.Memory.Boot.ProgramBreak.{HeapResult, initialize_memory_manager-heap}

-- Frames 0, 1 and 3 are in use.
abbrev small : BitmapMemoryManager
small = record { alloc_map = 0b1011 ∷ 0 ∷ []; range_begin = 1; range_end = 100 }

abbrev after_two : BitmapMemoryManager
after_two = record small { alloc_map = 0b111011 ∷ 0 ∷ [] }

abbrev after_three : BitmapMemoryManager
after_three = record small { alloc_map = 0b111111011 ∷ 0 ∷ [] }

small-IsWellFormed : IsWellFormed small
small-IsWellFormed = omega arith

allocate_two : allocate small 2 ≡ some (ok 4, after_two)
unfolding allocate search_run scan get_bit mark_allocated set_bits set_bit
allocate_two = refl

allocate_three : allocate after_two 3 ≡ some (ok 6, after_three)
unfolding allocate search_run scan get_bit mark_allocated set_bits set_bit
allocate_three = refl

allocate_too_many : allocate small 97 ≡ some (err no_enough_memory, small)
unfolding allocate search_run scan get_bit
allocate_too_many = refl

stat-small : stat small ≡ (3, 99)
unfolding stat sum_lines count_ones
stat-small = refl

allocate-FirstFit_example :
    (r : WithError ℕ) × (allocate small 2 ≡ some (commit small 2 r)) × FirstFit small 2 1 r
allocate-FirstFit_example = allocate-FirstFit small 2 small-IsWellFormed

allocate_effect_example :
    IsWellFormed after_two
    × ((g : ℕ) → get_bit after_two g ≡ (if in_run 4 2 g then true else get_bit small g))
allocate_effect_example = allocate_effect small 2 4 after_two small-IsWellFormed allocate_two

free_undoes_allocate_example : get_bit (free after_two 4 2) 5 ≡ get_bit small 5
free_undoes_allocate_example =
    free_undoes_allocate small 2 4 after_two small-IsWellFormed allocate_two 5

allocate_disjoint_example : 4 + 1 ≢ 6 + 2
allocate_disjoint_example =
    allocate_disjoint small 2 4 after_two small-IsWellFormed allocate_two 3 6 after_three
      allocate_three 1 2 (omega arith) (omega arith)

stat_lem_example : ((stat small).0 ≡ count_used small 0 64) × ((stat small).1 ≡ 99)
stat_lem_example = stat_lem small small-IsWellFormed

-- One available region of 1 MiB from 0 on, a reserved page, and 256 MiB more from 2 MiB on.
abbrev memory_map : List MemoryDescriptor
memory_map =
    record { type = 7; physical_start = 0; virtual_start = 0; number_of_pages = 256; attribute = 0 }
    ∷ record {
      type = 0;
      physical_start = 0x100000;
      virtual_start = 0;
      number_of_pages = 1;
      attribute = 0;
    }
    ∷ record {
      type = 4;
      physical_start = 0x200000;
      virtual_start = 0;
      number_of_pages = 65536;
      attribute = 0;
    }
    ∷ []

memory_map_end : (load_memory_map new_manager memory_map).range_end ≡ 66048
unfolding load_memory_map set_memory_range add_regions add_region is_available
memory_map_end = refl

get_bit-load_memory_map_example :
    get_bit (load_memory_map new_manager memory_map) 300 ≡ not (in_available memory_map 300)
get_bit-load_memory_map_example =
    get_bit-load_memory_map new_manager 0x1_0000_0000 memory_map new_manager-IsWellFormed
      (omega (arith, new_manager-lines)) get_bit-new_manager (omega arith) 300
      (omega (arith, memory_map_end))

initialize_memory_manager-heap_example :
    (r : WithError Heap × BitmapMemoryManager) × (initialize_memory_manager memory_map ≡ some r)
    × HeapResult (load_memory_map new_manager memory_map) memory_map r.0
initialize_memory_manager-heap_example =
    initialize_memory_manager-heap memory_map (omega arith) (omega (arith, memory_map_end))
