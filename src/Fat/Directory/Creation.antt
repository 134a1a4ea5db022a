-- ===== src/Fat/Directory/Creation.antt =====
-- A file that is created in the root directory is found there.
use duvuvurkarpogeschel.Prelude.{
  ℕ, zero, suc, ◌+◌, ◌≡◌, ◌≢◌, ◌⊎◌, inl, inr, refl, sym, ap, ◌∙◌, Bool, true, false, ◌||◌, Option,
  none, some, List, [], ◌∷◌, ◌==◌, get_or, set, All, map, length, ltb, ◌<◌, arith, Bool-cases,
}
use mathlib.Core.Path.{subst}
use mathlib.Core.Bool.{false≢true}
use duvuvurkarpogeschel.Error.{ok}
use duvuvurkarpogeschel.Fat.Table.{end_of_clusterchain, next_cluster}
use duvuvurkarpogeschel.Fat.Name.{name_is_equal, set_file_name, toupper, slash, strrchr}
use duvuvurkarpogeschel.Fat.Name.Matching.{IsShort, created_is_found}
use duvuvurkarpogeschel.Fat.Volume.{DirectoryEntry}
use duvuvurkarpogeschel.Fat.Directory.{
  Directories, first_name_byte, exhausted, found_at, search_entries, search_clusters, free_entry,
  allocate_entry, take_or_go, search_at, find_at, write_new, entry_at, create_at, create_behind,
  create_file, find_file, start_of, split_path, path_elem_size, next_path_element, find_element,
  is_last, has_slash, path_behind,
}

-- An entry that AllocateEntry takes.
abbrev pub is_free : DirectoryEntry → Bool
is_free e = first_name_byte e == 0 || first_name_byte e == 0xe5

-- The first free entry of a cluster is at an index; no entry is free; no entry has a name.
abbrev pub IsFreeAt : List DirectoryEntry → ℕ → Type 0
IsFreeAt [] j = ⊥
IsFreeAt (e ∷ es) zero = is_free e ≡ true
IsFreeAt (e ∷ es) (suc j) = (is_free e ≡ false) × IsFreeAt es j

abbrev pub AreTaken : List DirectoryEntry → Type 0
AreTaken es = All (λ e. is_free e ≡ false) es

abbrev pub IsAbsent : List ℕ → List DirectoryEntry → Type 0
IsAbsent name es = All (λ e. name_is_equal e.name name ≡ false) es

-- Along at most `fuel` clusters of a directory no entry has the name, up to the cluster with the
-- first free entry.
abbrev pub HasRoom : Directories → (name : List ℕ) (fuel cluster : ℕ) → ℕ × ℕ → Type 0
HasRoom d name zero cluster place = ⊥
HasRoom d name (suc fuel) cluster place =
    (cluster ≢ end_of_clusterchain)
    × IsAbsent name (d.entries cluster)
    × ((cluster ≡ place.0) × IsFreeAt (d.entries cluster) place.1
        ⊎ AreTaken (d.entries cluster)
          × (next_cluster d.fat cluster ≢ end_of_clusterchain)
          × HasRoom d name fuel (next_cluster d.fat cluster) place)

free_entry-IsFreeAt :
    (i j : ℕ) (es : List DirectoryEntry) → IsFreeAt es j → free_entry i es ≡ some (i + j)
unfolding free_entry
free_entry-IsFreeAt i j [] h = absurd h
free_entry-IsFreeAt i zero (e ∷ es) h = rw h (ap some (omega arith))
free_entry-IsFreeAt i (suc j) (e ∷ es) h =
    rw h.0 (free_entry-IsFreeAt (i + 1) j es h.1 ∙ ap some (omega arith))

free_entry-AreTaken : (i : ℕ) (es : List DirectoryEntry) → AreTaken es → free_entry i es ≡ none
unfolding free_entry
free_entry-AreTaken i [] h = refl
free_entry-AreTaken i (e ∷ es) h = rw h.0 (free_entry-AreTaken (i + 1) es h.1)

free_not_taken : (es : List DirectoryEntry) (j : ℕ) → IsFreeAt es j → AreTaken es → ⊥
free_not_taken [] j h k = h
free_not_taken (e ∷ es) zero h k = false≢true (sym k.0 ∙ h)
free_not_taken (e ∷ es) (suc j) h k = free_not_taken es j h.1 k.1

taken-first : (e : DirectoryEntry) → is_free e ≡ false → (first_name_byte e == 0) ≡ false
taken-first e h = ground (arith, h)

-- The search of a cluster in which nothing is free or has the name, and of one with a new entry.
search_entries-AreTaken :
    (name : List ℕ) (i : ℕ) (es : List DirectoryEntry)
    → IsAbsent name es
    → AreTaken es
    → search_entries name i es ≡ exhausted
unfolding search_entries
search_entries-AreTaken name i [] h k = refl
search_entries-AreTaken name i (e ∷ es) h k =
    let used = taken-first e k.0 in rw (used, h.0) (search_entries-AreTaken name (i + 1) es h.1 k.1)

search_entries-set :
    (name : List ℕ) (new : DirectoryEntry) (i j : ℕ) (es : List DirectoryEntry)
    → (first_name_byte new == 0) ≡ false
    → name_is_equal new.name name ≡ true
    → IsAbsent name es
    → IsFreeAt es j
    → search_entries name i (set es j new) ≡ found_at (i + j)
unfolding search_entries
search_entries-set name new i j [] first same h k = absurd k
search_entries-set name new i zero (e ∷ es) first same h k =
    rw (first, same) (ap found_at (omega arith))
search_entries-set name new i (suc j) (e ∷ es) first same h k =
    let used = taken-first e k.0 in
    rw (used, h.0)
      (search_entries-set name new (i + 1) j es first same h.1 k.1 ∙ ap found_at (omega arith))

module _ (d : Directories) (name filename : List ℕ) (place : ℕ × ℕ) where
  room-IsFreeAt :
      (fuel cluster : ℕ) → HasRoom d name fuel cluster place → IsFreeAt (d.entries place.0) place.1
  room-IsFreeAt zero cluster h = absurd h
  room-IsFreeAt (suc fuel) cluster h = elim h.2 [
    | inl here ↦ subst (λ c. IsFreeAt (d.entries c) place.1) here.0 here.1
    | inr further ↦ room-IsFreeAt fuel (next_cluster d.fat cluster) further.2
  ]

  allocate_entry-HasRoom :
      (size fuel cluster : ℕ)
      → HasRoom d name fuel cluster place
      → allocate_entry d size fuel cluster ≡ some (place, d)
  unfolding allocate_entry take_or_go
  allocate_entry-HasRoom size zero cluster h = absurd h
  allocate_entry-HasRoom size (suc fuel) cluster h = elim h.2 [
    | inl here ↦
        let free = free_entry-IsFreeAt 0 place.1 (d.entries cluster) here.1 in
        let index : 0 + place.1 ≡ place.1 = omega arith in
        rw (free, index) (ap (λ c. some ((c, place.1), d)) here.0)
    | inr further ↦
        let taken = free_entry-AreTaken 0 (d.entries cluster) further.0 in
        let more : (next_cluster d.fat cluster == end_of_clusterchain) ≡ false =
          ground (arith, further.1) in
        rw (taken, more) (allocate_entry-HasRoom size fuel (next_cluster d.fat cluster) further.2)
  ]

  -- The directory with the new entry.
  abbrev after : Directories
  after = write_new d place filename

  search-HasRoom :
      (fuel cluster : ℕ)
      → (get_or (set_file_name filename) 0 0 == 0) ≡ false
      → name_is_equal (set_file_name filename) name ≡ true
      → IsFreeAt (d.entries place.0) place.1
      → HasRoom d name fuel cluster place
      → search_clusters after name fuel cluster ≡ some (some place)
  unfolding search_clusters search_at write_new
  search-HasRoom zero cluster first same free h = absurd h
  search-HasRoom (suc fuel) cluster first same free h =
      let inside : (cluster == end_of_clusterchain) ≡ false = ground (arith, h.0) in
      elim h.2 [
        | inl here ↦
            let written : (cluster == place.0) ≡ true = ground (arith, here.0) in
            let hit =
              search_entries-set name
                (record (entry_at d place) { name = set_file_name filename; file_size = 0 }) 0
                place.1 (d.entries cluster) first same h.1 here.1 in
            let index : 0 + place.1 ≡ place.1 = omega arith in
            rw (inside, written, hit, index) (ap (λ c. some (some (c, place.1))) here.0)
        | inr further ↦
            let kept : (cluster == place.0) ≡ false =
              let other : cluster ≢ place.0 = λ e.
                free_not_taken (d.entries cluster) place.1
                  (subst (λ c. IsFreeAt (d.entries c) place.1) (sym e) free) further.0 in
              ground (arith, other) in
            let miss = search_entries-AreTaken name 0 (d.entries cluster) h.1 further.0 in
            rw (inside, kept, miss)
              (search-HasRoom fuel (next_cluster d.fat cluster) first same free further.2)
      ]

abbrev pub HasNoSlash : List ℕ → Type 0
HasNoSlash s = All (λ c. (c == slash) ≡ false) s

last_slash : (s : List ℕ) → HasNoSlash s → strrchr s slash ≡ none
unfolding strrchr
last_slash [] h = refl
last_slash (c ∷ s) h = ground (arith, h.0, last_slash s h.1)

only_element : (s : List ℕ) → HasNoSlash s → split_path s ≡ (s, none)
unfolding split_path
only_element [] h = refl
only_element (c ∷ s) h = rw (h.0, only_element s h.1) refl

one_element :
    (s : List ℕ) → HasNoSlash s → length s < path_elem_size → next_path_element s ≡ some (s, none)
unfolding next_path_element
one_element s h fits =
    let room : ltb (length s) path_elem_size ≡ true = ground (arith, fits) in
    rw (only_element s h, room) refl

from_root : (d : Directories) (s : List ℕ) → HasNoSlash s → start_of d s 0 ≡ (s, d.root_cluster)
unfolding start_of
from_root d [] h = refl
from_root d (c ∷ s) h = rw h.0 refl

find_at-last :
    (d : Directories) (place : ℕ × ℕ) (inside : ℕ → Option (Option (ℕ × ℕ) × Bool))
    → find_at d none (some (some place)) inside ≡ some (some place, false)
unfolding find_at is_last has_slash
find_at-last d place inside = elim (Bool-cases ((entry_at d place).attr == 0x10)) [
  | inl e ↦ rw e refl
  | inr e ↦ rw e refl
]

-- A short name with no slash, that fits into the array of FindFile and that no
-- entry of the root directory has up to its first free one.
-- CreateFile of it succeeds with that entry, and FindFile of the name, in any case of letters, gives
-- that entry then.
pub create_file-find_file :
    (d : Directories) (name filename : List ℕ) (place : ℕ × ℕ) (size depth fuel : ℕ)
    → IsShort filename
    → map toupper name ≡ map toupper filename
    → HasNoSlash filename
    → HasNoSlash name
    → length name < path_elem_size
    → (get_or (set_file_name filename) 0 0 == 0) ≡ false
    → HasRoom d name fuel d.root_cluster place
    → (create_file d size depth fuel filename ≡ some (ok place, write_new d place filename))
      × (find_file (write_new d place filename) (suc depth) fuel name 0 ≡ some (some place, false))
unfolding create_file create_behind create_at find_file find_element
create_file-find_file d name filename place size depth fuel short same no_slash no_slash' fits first
      room =
    let found =
      search-HasRoom d name filename place fuel d.root_cluster first
        (created_is_found filename name short same)
        (room-IsFreeAt d name filename place fuel d.root_cluster room) room in
    let root : (write_new d place filename).root_cluster ≡ d.root_cluster =
      unfold write_new in refl in
    (
      rw
          (
            last_slash filename no_slash,
            allocate_entry-HasRoom d name filename place size fuel d.root_cluster room,
          )
          refl,
      rw
          (
            from_root (write_new d place filename) name no_slash',
            one_element name no_slash' fits,
            ap (search_clusters (write_new d place filename) name fuel) root ∙ found,
          )
          (find_at-last (write_new d place filename) place
            (find_file (write_new d place filename) depth fuel (path_behind none))),
    )
