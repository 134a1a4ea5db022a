-- ===== src/Memory/Boot/ProgramBreak.antt =====
-- The kernel's heap is taken from the available memory.
use duvuvurkarpogeschel.Prelude.{ℕ, ◌+◌, ◌*◌, ◌/◌, ◌%◌, ◌<◌, ◌≤◌, ◌≡◌, true, not, List, some, arith}
use duvuvurkarpogeschel.Prelude.Words.{word, mul_size}
use duvuvurkarpogeschel.Error.{WithError, ok, err, no_enough_memory}
use duvuvurkarpogeschel.Memory.{
  BitmapMemoryManager, new_manager, bytes_per_frame, frame_count, commit, get_bit,
}
use duvuvurkarpogeschel.Memory.Line.{
  IsWellFormed, new_manager-IsWellFormed, new_manager-lines, get_bit-new_manager,
}
use duvuvurkarpogeschel.Memory.Allocate.{FirstFit, allocate-FirstFit}
use duvuvurkarpogeschel.Memory.Boot.{
  MemoryDescriptor, load_memory_map, initialize_heap, initialize_memory_manager, Heap, heap_frames,
  heap_of,
}
use duvuvurkarpogeschel.Memory.Boot.Available.{
  Ascending, in_available, get_bit-load_memory_map, load_memory_map-IsWellFormed,
  range_begin-load_memory_map, range_end-load_memory_map,
}

abbrev pub physical_limit : ℕ
physical_limit = bytes_per_frame * frame_count

-- What the boot says of the heap: it lies in available memory, or there is no room for it.
abbrev pub HeapResult : BitmapMemoryManager → List MemoryDescriptor → WithError Heap → Type 0
HeapResult m memory_map (ok heap) =
    (heap.program_break % bytes_per_frame ≡ 0)
    × (heap.program_break_end ≡ heap.program_break + heap_frames * bytes_per_frame)
    × (1 ≤ heap.program_break / bytes_per_frame)
    × ((i : ℕ)
        → i < heap_frames
        → in_available memory_map (heap.program_break / bytes_per_frame + i) ≡ true)
HeapResult m memory_map (err e) =
    (e ≡ no_enough_memory)
    × ((t : ℕ)
        → 1 ≤ t
        → ¬ (
            (i : ℕ)
            → i < heap_frames
            → (t + i < m.range_end) × (in_available memory_map (t + i) ≡ true)))

module _ (memory_map : List MemoryDescriptor) (ascending : Ascending 0 physical_limit memory_map)
    (some_memory : 1 ≤ (load_memory_map new_manager memory_map).range_end) where
  loaded_free :
      (g : ℕ)
      → g < (load_memory_map new_manager memory_map).range_end
      → get_bit (load_memory_map new_manager memory_map) g ≡ not (in_available memory_map g)
  loaded_free =
      get_bit-load_memory_map new_manager physical_limit memory_map new_manager-IsWellFormed
        (omega (arith, new_manager-lines)) get_bit-new_manager ascending

  loaded-IsWellFormed : IsWellFormed (load_memory_map new_manager memory_map)
  loaded-IsWellFormed =
      load_memory_map-IsWellFormed new_manager physical_limit memory_map new_manager-IsWellFormed
        (omega (arith, new_manager-lines)) get_bit-new_manager ascending some_memory

  loaded_begin : (load_memory_map new_manager memory_map).range_begin ≡ 1
  loaded_begin =
      range_begin-load_memory_map new_manager physical_limit memory_map new_manager-IsWellFormed
        (omega (arith, new_manager-lines)) get_bit-new_manager ascending

  -- No address of the heap wraps.
  heap_address :
      (start : ℕ)
      → start ≤ (load_memory_map new_manager memory_map).range_end
      → (mul_size start bytes_per_frame ≡ start * bytes_per_frame)
        × (start * bytes_per_frame + heap_frames * bytes_per_frame < word)
  heap_address start within = omega (
    arith,
    range_end-load_memory_map new_manager physical_limit memory_map new_manager-IsWellFormed
        (omega (arith, new_manager-lines)) get_bit-new_manager ascending,
  )

  heap_of-HeapResult :
      (r : WithError ℕ)
      → FirstFit
          (load_memory_map new_manager memory_map)
          heap_frames
          (load_memory_map new_manager memory_map).range_begin
          r
      → HeapResult
          (load_memory_map new_manager memory_map)
          memory_map
          (heap_of (commit (load_memory_map new_manager memory_map) heap_frames r)).0
  heap_of-HeapResult (ok start) (above, within, run, first) = (
    omega (arith, heap_address start within),
    omega (arith, heap_address start within),
    omega (arith, heap_address start within, loaded_begin),
    λ i h.
        let at : mul_size start bytes_per_frame / bytes_per_frame ≡ start =
          omega (arith, heap_address start within) in
        rw at (ground (arith, run i h, loaded_free (start + i))),
  )
  heap_of-HeapResult (err e) (short, never) = (
    short,
    λ t h run.
        never t (omega (arith, loaded_begin))
          λ i k. ((run i k).0, ground (arith, run i k, loaded_free (t + i))),
  )

  -- The boot always ends. If it succeeds, the heap is 128 MiB of page-aligned memory, not
  -- from frame 0 on, each frame of which lies in an available region of the memory map; else it
  -- fails for want of memory and there is no such run of available frames in the range.
  pub initialize_memory_manager-heap :
      (r : WithError Heap × BitmapMemoryManager) × (initialize_memory_manager memory_map ≡ some r)
      × HeapResult (load_memory_map new_manager memory_map) memory_map r.0
  unfolding initialize_memory_manager initialize_heap
  initialize_memory_manager-heap =
      let (r, found, fit) =
        allocate-FirstFit (load_memory_map new_manager memory_map) heap_frames
          loaded-IsWellFormed in
      (
        heap_of (commit (load_memory_map new_manager memory_map) heap_frames r),
        rw (found, initialize_memory_manager, initialize_heap),
        heap_of-HeapResult r fit,
      )
