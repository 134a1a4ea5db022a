-- ===== src/Elf/Tests.antt =====
-- A file with a note and a segment of four bytes, two of them from the file.
use duvuvurkarpogeschel.Prelude.{◌≡◌, true, false, refl, none, some, [], ◌∷◌}
use duvuvurkarpogeschel.Memory.{BitmapMemoryManager}
use duvuvurkarpogeschel.Paging.{zero_entry, Paging}
use duvuvurkarpogeschel.Elf.{ElfHeader, ProgramHeader, end_of}
use duvuvurkarpogeschel.Elf.Segments.{from_file, zero_byte, loaded_byte, loaded_page, loaded_end}

abbrev frames : BitmapMemoryManager
frames = record { alloc_map = 0b11 ∷ 0 ∷ []; range_begin = 1; range_end = 100 }

abbrev paging : Paging
paging = record { manager = frames; tables = λ table index. zero_entry; pages = λ page. [] }

abbrev note : ProgramHeader
note = record { p_type = 4; p_offset = 0; p_vaddr = 0; p_filesz = 8; p_memsz = 8 }

abbrev segment : ProgramHeader
segment = record {
  p_type = 1;
  p_offset = 100;
  p_vaddr = 0xffff800000000fff;
  p_filesz = 2;
  p_memsz = 4;
}

abbrev program : ElfHeader
program = record { e_type = 2; program_headers = note ∷ segment ∷ [] }

-- The end of the segment.
program_end : loaded_end program.program_headers 0 ≡ 0xffff800000001003
unfolding loaded_end end_of
program_end = refl

-- The segment stands in two pages.
program_pages :
    (loaded_page program.program_headers 0xffff800000000 false ≡ true)
    × (loaded_page program.program_headers 0xffff800000001 false ≡ true)
    × (loaded_page program.program_headers 0xffff800000002 false ≡ false)
    × (loaded_page program.program_headers 0 false ≡ false)
unfolding loaded_page
program_pages = (refl, refl, refl, refl)

-- The second byte is from the file, the third is 0, the fifth is not written.
program_bytes :
    (loaded_byte program.program_headers 0xffff800000001000 none ≡ some (from_file 101))
    × (loaded_byte program.program_headers 0xffff800000001001 none ≡ some zero_byte)
    × (loaded_byte program.program_headers 0xffff800000001003 none ≡ none)
unfolding loaded_byte
program_bytes = (refl, refl, refl)
