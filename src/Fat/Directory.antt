-- ===== src/Fat/Directory.antt =====
-- kernel/fat.cpp: the search of a path and the creation of a file. A directory's cluster is the list of
-- its entries; an entry's address is its cluster and its index. `none` means that fuel ran out, or
-- that the search for a free cluster passed the table's end, or that a path element does not fit into the
-- array `path_elem` of FindFile, which is undefined.
pub mod Creation
mod Tests
use duvuvurkarpogeschel.Prelude.{
  ℕ, zero, suc, ◌+◌, Bool, true, false, ◌&&◌, ◌||◌, not, Option, none, some, List, [], ◌∷◌, ◌==◌,
  ltb, if◌then◌else◌, get_or, set, replicate, length, take, drop,
}
use duvuvurkarpogeschel.Error.{WithError, ok, err, is_directory, no_such_entry}
use duvuvurkarpogeschel.Fat.Table.{end_of_clusterchain, next_cluster, extend_cluster}
use duvuvurkarpogeschel.Fat.Name.{name_is_equal, set_file_name, slash, strrchr}
use duvuvurkarpogeschel.Fat.Volume.{DirectoryEntry, first_cluster}

pub record Directories : Type 0 where
  pub fat : List ℕ
  pub root_cluster : ℕ
  pub entries : (cluster : ℕ) → List DirectoryEntry

abbrev pub directory_attribute : ℕ
directory_attribute = 0x10

-- The first byte of an entry's name: 0 ends a directory, 0xe5 is a deleted entry.
abbrev pub first_name_byte : DirectoryEntry → ℕ
first_name_byte e = get_or e.name 0 0

-- The size of `path_elem`, with the NUL.
abbrev pub path_elem_size : ℕ
path_elem_size = 13

-- A path's first element, and the path behind its slash if there is one.
pub split_path : List ℕ → List ℕ × Option (List ℕ)
split_path [] = ([], none)
split_path (c ∷ path) =
    let rest = split_path path in if c == slash then ([], some path) else (c ∷ rest.0, rest.1)

-- The same, copied to `path_elem`: `none` when it does not fit.
pub next_path_element : List ℕ → Option (List ℕ × Option (List ℕ))
next_path_element path =
    let element = split_path path in
    if ltb (length element.0) path_elem_size then some element else none

-- How the loop over the entries of a cluster ends.
pub data Search : Type 0 where
  ended : Search
  exhausted : Search
  found_at : ℕ → Search

pub search_entries : (name : List ℕ) (i : ℕ) → List DirectoryEntry → Search
search_entries name i [] = exhausted
search_entries name i (e ∷ es) =
    let later = search_entries name (i + 1) es in
    if first_name_byte e == 0
    then ended
    else if name_is_equal e.name name
    then found_at i
    else later

-- What the end of that loop means for the one over the clusters.
search_at : (cluster : ℕ) → Search → (rest : Option (Option (ℕ × ℕ))) → Option (Option (ℕ × ℕ))
search_at cluster ended rest = some none
search_at cluster (found_at i) rest = some (some (cluster, i))
search_at cluster exhausted rest = rest

pub search_clusters : Directories → (name : List ℕ) (fuel cluster : ℕ) → Option (Option (ℕ × ℕ))
search_clusters d name zero cluster = none
search_clusters d name (suc fuel) cluster =
    let rest = search_clusters d name fuel (next_cluster d.fat cluster) in
    if cluster == end_of_clusterchain
    then some none
    else search_at cluster (search_entries name 0 (d.entries cluster)) rest

abbrev pub blank_entry : DirectoryEntry
blank_entry = record {
  name = replicate 11 0;
  attr = 0;
  first_cluster_high = 0;
  first_cluster_low = 0;
  file_size = 0;
}

abbrev pub entry_at : Directories → ℕ × ℕ → DirectoryEntry
entry_at d place = get_or (d.entries place.0) place.1 blank_entry

-- Where the search starts, and the path from there.
pub start_of : Directories → List ℕ → (directory_cluster : ℕ) → List ℕ × ℕ
start_of d [] directory_cluster =
    ([], if directory_cluster == 0 then d.root_cluster else directory_cluster)
start_of d (c ∷ path) directory_cluster =
    if c == slash
    then (path, d.root_cluster)
    else (c ∷ path, if directory_cluster == 0 then d.root_cluster else directory_cluster)

-- A path whose last element was taken: there is no slash, or nothing behind it.
is_last : Option (List ℕ) → Bool
is_last none = true
is_last (some []) = true
is_last (some (c ∷ path)) = false

has_slash : Option (List ℕ) → Bool
has_slash none = false
has_slash (some path) = true

path_behind : Option (List ℕ) → List ℕ
path_behind none = []
path_behind (some path) = path

-- What the search of one directory gives: a directory that is not the path's last element is gone
-- into.
find_at :
    Directories
    → (path : Option (List ℕ)) → Option (Option (ℕ × ℕ))
    → (inside : ℕ → Option (Option (ℕ × ℕ) × Bool)) → Option (Option (ℕ × ℕ) × Bool)
find_at d path none inside = none
find_at d path (some none) inside = some (none, has_slash path)
find_at d path (some (some place)) inside =
    if (entry_at d place).attr == directory_attribute && not (is_last path)
    then inside (first_cluster (entry_at d place))
    else some (some place, has_slash path)

-- The search for the element that was copied, and what is behind it.
find_element :
    Directories
    → (fuel cluster : ℕ) → Option (List ℕ × Option (List ℕ))
    → (inside : List ℕ → ℕ → Option (Option (ℕ × ℕ) × Bool)) → Option (Option (ℕ × ℕ) × Bool)
find_element d fuel cluster none inside = none
find_element d fuel cluster (some element) inside =
    find_at d element.1 (search_clusters d element.0 fuel cluster) (inside (path_behind element.1))

-- The entry's place and `post_slash`. Each directory on the path takes one of `depth`, which its
-- length bounds; `fuel` is for the clusters of one directory.
pub find_file :
    Directories
    → (depth fuel : ℕ) → List ℕ
    → (directory_cluster : ℕ) → Option (Option (ℕ × ℕ) × Bool)
find_file d zero fuel path directory_cluster = none
find_file d (suc depth) fuel path directory_cluster =
    let from = start_of d path directory_cluster in
    find_element d fuel from.1 (next_path_element from.0) (find_file d depth fuel)

-- The loop of AllocateEntry over the entries of a cluster.
pub free_entry : (i : ℕ) → List DirectoryEntry → Option ℕ
free_entry i [] = none
free_entry i (e ∷ es) =
    let later = free_entry (i + 1) es in
    if first_name_byte e == 0 || first_name_byte e == 0xe5 then some i else later

-- The directory gets another cluster, which is cleared; `size` entries stand in a cluster.
grow_directory : Directories → (size : ℕ) → Option (List ℕ × ℕ) → Option ((ℕ × ℕ) × Directories)
grow_directory d size none = none
grow_directory d size (some (fat, cluster)) = some (
  (cluster, 0),
  record d {
    fat = fat;
    entries = λ c. if c == cluster then replicate size blank_entry else d.entries c;
  },
)

take_or_go :
    Directories
    → (size cluster : ℕ) → Option ℕ
    → (last : Bool) → Option ((ℕ × ℕ) × Directories)
    → Option ((ℕ × ℕ) × Directories)
take_or_go d size cluster (some i) last rest = some ((cluster, i), d)
take_or_go d size cluster none true rest = grow_directory d size (extend_cluster d.fat cluster 1)
take_or_go d size cluster none false rest = rest

pub allocate_entry : Directories → (size fuel dir_cluster : ℕ) → Option ((ℕ × ℕ) × Directories)
allocate_entry d size zero dir_cluster = none
allocate_entry d size (suc fuel) dir_cluster =
    let next = next_cluster d.fat dir_cluster in
    take_or_go d size dir_cluster (free_entry 0 (d.entries dir_cluster))
      (next == end_of_clusterchain) (allocate_entry d size fuel next)

-- The name and the size of the new entry; its other fields stay.
pub write_new : Directories → ℕ × ℕ → (filename : List ℕ) → Directories
write_new d place filename = record d {
  entries = λ c.
      if c == place.0
      then set (d.entries c) place.1
          (record (entry_at d place) { name = set_file_name filename; file_size = 0 })
      else d.entries c;
}

create_at :
    (filename : List ℕ) → Option ((ℕ × ℕ) × Directories) → Option (WithError (ℕ × ℕ) × Directories)
create_at filename none = none
create_at filename (some r) = some (ok r.0, write_new r.1 r.0 filename)

create_in :
    Directories
    → (size fuel : ℕ) → (filename : List ℕ) → Option (Option (ℕ × ℕ) × Bool)
    → Option (WithError (ℕ × ℕ) × Directories)
create_in d size fuel filename none = none
create_in d size fuel filename (some (none, post_slash)) = some (err no_such_entry, d)
create_in d size fuel filename (some (some place, post_slash)) =
    create_at filename (allocate_entry d size fuel (first_cluster (entry_at d place)))

create_behind :
    Directories
    → (size depth fuel : ℕ) → List ℕ
    → Option ℕ
    → Option (WithError (ℕ × ℕ) × Directories)
create_behind d size depth fuel path none =
    create_at path (allocate_entry d size fuel d.root_cluster)
create_behind d size depth fuel path (some i) =
    let filename = drop (i + 1) path in
    let parent = take i path in
    if length filename == 0
    then some (err is_directory, d)
    else if length parent == 0
    then create_at filename (allocate_entry d size fuel d.root_cluster)
    else create_in d size fuel filename (find_file d depth fuel parent 0)

pub create_file :
    Directories → (size depth fuel : ℕ) → List ℕ → Option (WithError (ℕ × ℕ) × Directories)
create_file d size depth fuel path = create_behind d size depth fuel path (strrchr path slash)
