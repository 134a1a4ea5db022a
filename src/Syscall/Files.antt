-- ===== src/Syscall/Files.antt =====
-- kernel/syscall.cpp: the file calls. A task's descriptors are a list, with `none` for a null pointer; what a
-- descriptor itself does is its virtual call, and so a parameter. What the volume's
-- FindFile and CreateFile return are arguments of OpenFile.
pub mod Mappings
pub mod Table
mod Tests
use duvuvurkarpogeschel.Prelude.{
  ℕ, zero, suc, ◌+◌, ◌*◌, ◌/◌, ◌%◌, ◌^◌, Bool, true, false, ◌&&◌, ◌||◌, not, Option, none, some,
  List, [], ◌∷◌, ◌++◌, ◌==◌, ltb, leb, if◌then◌else◌, length, get_elem?, set,
}
use duvuvurkarpogeschel.Prelude.Int.{ℤ, pos, negsuc}
use duvuvurkarpogeschel.Prelude.Words.{add_size, sub_size, mul_size}
use duvuvurkarpogeschel.Error.{
  Error, WithError, ok, err, is_directory, no_such_entry, no_enough_memory,
}
use duvuvurkarpogeschel.Task.{Task, FileMapping}
use duvuvurkarpogeschel.Syscall.{
  Result, success, failed, e2big, ebadf, eisdir, enoent, enospc, int_of,
}

-- `CreateFile` of this file: fat::CreateFile has no other errors.
create_errno : Error → ℕ
create_errno is_directory = eisdir
create_errno no_such_entry = enoent
create_errno no_enough_memory = enospc
create_errno e = 0

-- `flags & O_CREAT`, which is 0x200.
creates : ℤ → Bool
creates (pos flags) = flags / 0x200 % 2 == 1
creates (negsuc n) = not (n / 0x200 % 2 == 1)

-- What FindFile finds: no file, or one that is a directory or not, and whether the path ends in a slash.
pub data Found (F : Type 0) : Type 0 where
  nothing : Found F
  found_file : (file : F) (directory post_slash : Bool) → Found F

module _ {F : Type 0} where
  -- The first null pointer from index `i` on; a new one is added when there is none.
  abbrev next_free : (i : ℕ) → List (Option F) → ℕ
  next_free i [] = i
  next_free i (none ∷ files) = i
  next_free i (some f ∷ files) = next_free (i + 1) files

  pub allocate_fd : List (Option F) → ℕ × List (Option F)
  allocate_fd files =
      let fd = next_free 0 files in
      if ltb fd (length files) then (fd, files) else (fd, files ++ none ∷ [])

  -- `task.Files()[fd] = ...`, with the descriptor that is free.
  pub open_at : List (Option F) → F → ℕ × List (Option F)
  open_at files f =
      ((allocate_fd files).0, set (allocate_fd files).1 (allocate_fd files).0 (some f))

  -- The descriptor of a number, or `none`, which is EBADF.
  lookup_from : List (Option F) → ℕ → Option F
  lookup_from [] fd = none
  lookup_from (f ∷ files) zero = f
  lookup_from (f ∷ files) (suc fd) = lookup_from files fd

  pub lookup_fd : List (Option F) → ℤ → Option F
  lookup_fd files (pos fd) = lookup_from files fd
  lookup_fd files (negsuc n) = none

  open_new : List (Option F) → WithError F → Result × List (Option F)
  open_new files (ok f) = (success (open_at files f).0, (open_at files f).1)
  open_new files (err e) = (failed (create_errno e), files)

  open_found :
      List (Option F) → (flags : ℤ) → Found F → (create : WithError F) → Result × List (Option F)
  open_found files flags nothing create =
      if creates flags then open_new files create else (failed enoent, files)
  open_found files flags (found_file f directory post_slash) create =
      if not directory && post_slash
      then (failed enoent, files)
      else (success (open_at files f).0, (open_at files f).1)

  -- `stdin` says whether the path is "@stdin".
  pub open_file :
      List (Option F)
      → (stdin : Bool) (arg2 : ℕ) → Found F
      → (create : WithError F) → Result × List (Option F)
  open_file files stdin arg2 found create =
      if stdin then (success 0, files) else open_found files (int_of arg2) found create

  -- A read or a write by a descriptor returns the number of bytes and what it makes of the descriptor.
  set_fd : List (Option F) → ℤ → F → List (Option F)
  set_fd files (pos fd) f = set files fd (some f)
  set_fd files (negsuc n) f = files

  run_on : List (Option F) → ℤ → Option F → (F → ℕ × F) → Result × List (Option F)
  run_on files fd none operation = (failed ebadf, files)
  run_on files fd (some f) operation = (success (operation f).0, set_fd files fd (operation f).1)

  pub read_file :
      (read : (count : ℕ) → F → ℕ × F)
      → List (Option F)
      → (arg1 count : ℕ) → Result × List (Option F)
  read_file read files arg1 count =
      run_on files (int_of arg1) (lookup_fd files (int_of arg1)) (read count)

  -- PutString takes the 64-bit number as it is.
  pub put_string :
      (write : (len : ℕ) → F → ℕ × F) → List (Option F) → (arg1 len : ℕ) → Result × List (Option F)
  put_string write files arg1 len =
      if ltb 1024 len
      then (failed e2big, files)
      else run_on files (pos arg1) (lookup_fd files (pos arg1)) (write len)

-- DemandPages and MapFile return an address; `size` is the file's.
pub demand_pages : Task → (num_pages : ℕ) → Result × Task
demand_pages task num_pages = (
  success task.dpaging_end,
  record task { dpaging_end = add_size task.dpaging_end (mul_size 4096 num_pages) },
)

-- `& 0xffff'ffff'ffff'f000`
abbrev pub page_floor : ℕ → ℕ
page_floor a = a / 2 ^ 12 * 2 ^ 12

pub map_at : Task → (fd : ℤ) (size : ℕ) → Result × Task
map_at task fd size =
    let vaddr_end = task.file_map_end in
    let vaddr_begin = page_floor (sub_size vaddr_end size) in
    (
      success vaddr_begin,
      record task {
        file_map_end = vaddr_begin;
        file_maps =
            task.file_maps
            ++ record { fd = fd; vaddr_begin = vaddr_begin; vaddr_end = vaddr_end } ∷ [];
      },
    )

map_found : {F : Type 0} → Task → ℤ → (size : F → ℕ) → Option F → Result × Task
map_found task fd size none = (failed ebadf, task)
map_found task fd size (some f) = map_at task fd (size f)

pub map_file : {F : Type 0} → (size : F → ℕ) → List (Option F) → Task → (arg1 : ℕ) → Result × Task
map_file size files task arg1 = map_found task (int_of arg1) size (lookup_fd files (int_of arg1))
