-- ===== src/Syscall/Files/Mappings.antt =====
-- The mappings that MapFile adds, and how the page fault handler finds them.
use duvuvurkarpogeschel.Prelude.{
  ℕ, ◌+◌, ◌-◌, ◌%◌, ◌^◌, ◌<◌, ◌≤◌, ◌≡◌, refl, ◌∙◌, false, ◌&&◌, none, some, List, [], ◌∷◌, ◌++◌,
  ltb, leb, if◌then◌else◌, All, arith, Bool-cases, inl, inr,
}
use duvuvurkarpogeschel.Prelude.Int.{ℤ}
use duvuvurkarpogeschel.Prelude.Words.{word, sub_size}
use duvuvurkarpogeschel.Task.{Task, FileMapping}
use duvuvurkarpogeschel.Paging.Fault.{find_file_mapping}
use duvuvurkarpogeschel.Syscall.Files.{page_floor, map_at}

-- No mapping reaches below an address.
abbrev pub AreAbove : List FileMapping → ℕ → Type 0
AreAbove maps low = All (λ m. low ≤ m.vaddr_begin) maps

find-below :
    (maps : List FileMapping) (new : FileMapping) (low a : ℕ)
    → AreAbove maps low
    → a < low
    → find_file_mapping (maps ++ new ∷ []) a ≡ find_file_mapping (new ∷ []) a
unfolding find_file_mapping
find-below [] new low a h k = refl
find-below (m ∷ maps) new low a h k =
    let not_here : (leb m.vaddr_begin a && ltb a m.vaddr_end) ≡ false = ground (arith, h.0, k) in
    rw not_here (find-below maps new low a h.1 k)

find-other :
    (maps : List FileMapping) (new : FileMapping) (a : ℕ)
    → new.vaddr_end ≤ a
    → find_file_mapping (maps ++ new ∷ []) a ≡ find_file_mapping maps a
unfolding find_file_mapping
find-other [] new a h = ground (arith, h)
find-other (m ∷ maps) new a h = elim (Bool-cases (leb m.vaddr_begin a && ltb a m.vaddr_end)) [
  | inl e ↦ rw e refl
  | inr e ↦ rw e (find-other maps new a h)
]

find-new :
    (new : FileMapping) (a : ℕ)
    → a < new.vaddr_end
    → find_file_mapping (new ∷ []) a ≡ (if leb new.vaddr_begin a then some new else none)
unfolding find_file_mapping
find-new new a h = ground (arith, h)

AreAbove-append :
    (maps : List FileMapping) (new : FileMapping) (low low' : ℕ)
    → AreAbove maps low
    → low' ≤ low
    → low' ≤ new.vaddr_begin
    → AreAbove (maps ++ new ∷ []) low'
AreAbove-append [] new low low' h k l = (l, tt)
AreAbove-append (m ∷ maps) new low low' h k l =
    (omega (arith, h.0, k), AreAbove-append maps new low low' h.1 k l)

-- The mappings of a task are above its FileMapEnd, and a file fits below that. MapFile puts it there:
-- the new mapping starts on a page, has room for the file, and all mappings are above the
-- new FileMapEnd. At its addresses a page fault finds it, and from the old FileMapEnd on what was
-- found before.
pub map_at_lem :
    (task : Task) (fd : ℤ) (size a : ℕ)
    → AreAbove task.file_maps task.file_map_end
    → size ≤ task.file_map_end
    → task.file_map_end < word
    → let begin = (map_at task fd size).0.value in
      let after = (map_at task fd size).1 in
      let new : FileMapping = record {
        fd = fd;
        vaddr_begin = begin;
        vaddr_end = task.file_map_end;
      } in
      (begin % 2 ^ 12 ≡ 0)
      × (begin + size ≤ task.file_map_end)
      × (after.file_map_end ≡ begin)
      × AreAbove after.file_maps after.file_map_end
      × (find_file_mapping after.file_maps a ≡ (
          if ltb a task.file_map_end
          then if leb begin a then some new else none
          else find_file_mapping task.file_maps a))
unfolding map_at
map_at_lem task fd size a h fits small =
    let exact : sub_size task.file_map_end size ≡ task.file_map_end - size =
      omega (arith, fits, small) in
    let begin = page_floor (sub_size task.file_map_end size) in
    let new : FileMapping = record {
      fd = fd;
      vaddr_begin = begin;
      vaddr_end = task.file_map_end;
    } in
    let room : begin + size ≤ task.file_map_end = omega (arith, exact, fits) in
    let aligned : begin % 2 ^ 12 ≡ 0 = omega arith in
    (
      aligned,
      room,
      refl,
      AreAbove-append task.file_maps new task.file_map_end begin h (omega (arith, room))
          (omega arith),
      elim (Bool-cases (ltb a task.file_map_end)) [
        | inl e ↦ rw e (
            find-below task.file_maps new task.file_map_end a h (ground (arith, e))
            ∙ find-new new a (ground (arith, e)))
        | inr e ↦ rw e (find-other task.file_maps new a (ground (arith, e)))
      ],
    )
