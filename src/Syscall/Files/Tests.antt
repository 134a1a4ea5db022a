-- ===== src/Syscall/Files/Tests.antt =====
-- A task with two descriptors, and one with a mapping.
use duvuvurkarpogeschel.Prelude.{
  ℕ, ◌+◌, ◌%◌, ◌^◌, ◌<◌, ◌≤◌, ◌≡◌, ◌≢◌, Option, none, some, List, [], ◌∷◌, ◌==◌, ltb, leb,
  if◌then◌else◌, arith,
}
use duvuvurkarpogeschel.Prelude.Int.{pos}
use duvuvurkarpogeschel.Task.{Task, FileMapping, new}
use duvuvurkarpogeschel.Paging.Fault.{find_file_mapping}
use duvuvurkarpogeschel.Syscall.Files.{open_at, lookup_fd, map_at}
use duvuvurkarpogeschel.Syscall.Files.Table.{open_at_lem}
use duvuvurkarpogeschel.Syscall.Files.Mappings.{AreAbove, map_at_lem}

abbrev files : List (Option ℕ)
files = some 10 ∷ none ∷ some 12 ∷ []

open_at_lem_example :
    let fd = (open_at files 11).0 in
    (lookup_fd files (pos fd) ≡ none)
    × ((i : ℕ) → i < fd → lookup_fd files (pos i) ≢ none)
    × (lookup_fd (open_at files 11).1 (pos fd) ≡ some 11)
    × (lookup_fd (open_at files 11).1 (pos 2)
        ≡ (if 2 == fd then some 11 else lookup_fd files (pos 2)))
open_at_lem_example = open_at_lem files 11 2

abbrev first : FileMapping
first = record { fd = pos 0; vaddr_begin = 0x8000; vaddr_end = 0x9000 }

abbrev task : Task
task = record (new 3) { file_map_end = 0x8000; file_maps = first ∷ [] }

map_at_lem_example :
    let begin = (map_at task (pos 1) 0x1234).0.value in
    let after = (map_at task (pos 1) 0x1234).1 in
    let new : FileMapping = record { fd = pos 1; vaddr_begin = begin; vaddr_end = 0x8000 } in
    (begin % 2 ^ 12 ≡ 0)
    × (begin + 0x1234 ≤ 0x8000)
    × (after.file_map_end ≡ begin)
    × AreAbove after.file_maps after.file_map_end
    × (find_file_mapping after.file_maps 0x6500 ≡ (
        if ltb 0x6500 0x8000
        then if leb begin 0x6500 then some new else none
        else find_file_mapping task.file_maps 0x6500))
map_at_lem_example =
    map_at_lem task (pos 1) 0x1234 0x6500 (omega arith, tt) (omega arith) (omega arith)
