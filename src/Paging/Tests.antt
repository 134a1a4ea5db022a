-- ===== src/Paging/Tests.antt =====
-- A small memory of page maps, and the theorems at it.
use duvuvurkarpogeschel.Prelude.{
  ℕ, ◌+◌, ◌*◌, ◌/◌, ◌≡◌, refl, ap, ◌∙◌, Bool, true, false, some, [], ◌∷◌, ◌==◌, if◌then◌else◌,
  arith,
}
use duvuvurkarpogeschel.Error.{ok}
use duvuvurkarpogeschel.Memory.{
  BitmapMemoryManager, allocate, search_run, scan, get_bit, mark_allocated, set_bits, set_bit,
  bytes_per_frame,
}
use duvuvurkarpogeschel.Memory.Line.{IsWellFormed}
use duvuvurkarpogeschel.Paging.{PageMapEntry, Paging, part, map_pointer, setup_page_maps}
use duvuvurkarpogeschel.Paging.Setup.{Returns, setup_page_maps-Returns}
use duvuvurkarpogeschel.Paging.Fault.{walk, copy_one_page}
use duvuvurkarpogeschel.Paging.Fault.Copy.{Reaches, copy_one_page_lem}

-- Frames 0 to 5 are in use.
abbrev frames : BitmapMemoryManager
frames = record { alloc_map = 0b111111 ∷ 0 ∷ []; range_begin = 1; range_end = 100 }

abbrev frames_after : BitmapMemoryManager
frames_after = record frames { alloc_map = 0b1111111 ∷ 0 ∷ [] }

abbrev entry_to : (frame : ℕ) (writable : Bool) → PageMapEntry
entry_to frame writable = record {
  present = true;
  writable = writable;
  user = true;
  addr = frame;
  other_bits = 0;
}

-- The maps stand in the frames 1 to 4, the page in frame 5; the first entry of each map is set.
abbrev memory : Paging
memory = record {
  manager = frames;
  tables = λ table index.
      if table == 4 * 4096 then entry_to 5 false else entry_to (table / 4096 + 1) true;
  pages = λ page. page ∷ [];
}

frames-IsWellFormed : IsWellFormed frames
frames-IsWellFormed = omega arith

one_frame : allocate frames 1 ≡ some (ok 6, frames_after)
unfolding allocate search_run scan get_bit mark_allocated set_bits set_bit
one_frame = refl

used_frames :
    (get_bit frames 1 ≡ true)
    × (get_bit frames 2 ≡ true)
    × (get_bit frames 3 ≡ true)
    × (get_bit frames 4 ≡ true)
    × (get_bit frames 5 ≡ true)
unfolding get_bit
used_frames = (refl, refl, refl, refl, refl)

setup_page_maps-Returns_example : Returns frames (setup_page_maps 4096 memory 0x200000 3 true)
setup_page_maps-Returns_example =
    setup_page_maps-Returns 4096 memory 0x200000 3 true frames-IsWellFormed

path : Reaches 4 memory 4096 0 (4 * 4096)
unfolding part map_pointer
path = (
  refl,
  (refl, (refl, refl, omega arith, used_frames.2), omega arith, used_frames.1),
  omega arith,
  used_frames.0,
)

leaf_entry :
    ((memory.tables (4 * 4096) (part 0 1)).present ≡ true)
    × (map_pointer (memory.tables (4 * 4096) (part 0 1)) / bytes_per_frame ≡ 5)
unfolding part map_pointer
leaf_entry = (refl, refl)

copy_one_page_lem_example :
    (after : Paging) × (copy_one_page 4096 memory 0 ≡ some (ok tt, after))
    × (get_bit frames 6 ≡ false)
    × (walk 4 after 4096 0
        ≡ some (record (memory.tables (4 * 4096) (part 0 1)) { writable = true; addr = 6 }))
    × (after.pages (6 * bytes_per_frame)
        ≡ memory.pages (map_pointer (memory.tables (4 * 4096) (part 0 1))))
    × (after.pages (map_pointer (memory.tables (4 * 4096) (part 0 1)))
        ≡ memory.pages (map_pointer (memory.tables (4 * 4096) (part 0 1))))
copy_one_page_lem_example =
    copy_one_page_lem 4096 memory 0 (4 * 4096) 6 frames_after frames-IsWellFormed one_frame path
      used_frames.3 leaf_entry.0 (ap (get_bit frames) leaf_entry.1 ∙ used_frames.4) (omega arith)
