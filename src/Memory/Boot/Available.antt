-- ===== src/Memory/Boot/Available.antt =====
-- What the bitmap holds once the memory map is read.
use duvuvurkarpogeschel.Prelude.{
  ℕ, ◌+◌, ◌-◌, ◌*◌, ◌/◌, ◌%◌, ◌<◌, ◌≤◌, ◌≡◌, refl, Bool, true, false, not, ◌||◌, ◌&&◌,
  if◌then◌else◌, List, [], ◌∷◌, length, arith,
}
use duvuvurkarpogeschel.Prelude.Words.{word, sub_size, mul_size}
use duvuvurkarpogeschel.Memory.{
  BitmapMemoryManager, set_memory_range, get_bit, bytes_per_frame, bits_per_map_line,
}
use duvuvurkarpogeschel.Memory.Line.{IsWellFormed}
use duvuvurkarpogeschel.Memory.Marks.{
  in_run, get_bit-mark_allocated, mark_allocated-IsWellFormed, mark_allocated-SameFrame,
}
use duvuvurkarpogeschel.Memory.Boot.{
  MemoryDescriptor, Regions, is_available, mark_gap, add_region, add_regions, load_memory_map,
  physical_end, uefi_page_size,
}

-- Frame `f` lies in an available region of the map.
pub in_available : List MemoryDescriptor → ℕ → Bool
in_available [] f = false
in_available (desc ∷ rest) f =
    (is_available desc.type
      && in_run (desc.physical_start / bytes_per_frame) desc.number_of_pages f)
    || in_available rest f

-- Page-aligned regions in ascending order from `lo` on, all below `hi`.
abbrev pub Ascending : ℕ → ℕ → List MemoryDescriptor → Type 0
Ascending lo hi [] = Unit {0}
Ascending lo hi (desc ∷ rest) =
    (desc.physical_start % bytes_per_frame ≡ 0)
    × (lo ≤ desc.physical_start)
    × (desc.physical_start + desc.number_of_pages * uefi_page_size ≤ hi)
    × Ascending (desc.physical_start + desc.number_of_pages * uefi_page_size) hi rest

-- Everything below `hi` has a bit and an address.
abbrev pub Fits : ℕ → BitmapMemoryManager → Type 0
Fits hi m = (hi ≤ bytes_per_frame * (bits_per_map_line * length m.alloc_map)) × (hi < word)

-- The loop's state before a region that starts at `lo` or later.
record At (r : Regions) (lo hi : ℕ) : Type 0 where
  formed : IsWellFormed r.manager
  fits : Fits hi r.manager
  aligned : r.available_end % bytes_per_frame ≡ 0
  before : r.available_end ≤ lo
  aligned_lo : lo % bytes_per_frame ≡ 0
  untouched : (f : ℕ) → lo / bytes_per_frame ≤ f → get_bit r.manager f ≡ false

module _ (r : Regions) (desc : MemoryDescriptor) (lo hi : ℕ) (at : At r lo hi)
    (aligned : desc.physical_start % bytes_per_frame ≡ 0) (after : lo ≤ desc.physical_start)
    (below : desc.physical_start + desc.number_of_pages * uefi_page_size ≤ hi) where
  abbrev first_gap : ℕ
  first_gap = r.available_end / bytes_per_frame

  abbrev gap : ℕ
  gap = (desc.physical_start - r.available_end) / bytes_per_frame

  abbrev start : ℕ
  start = desc.physical_start / bytes_per_frame

  abbrev pages : ℕ
  pages = desc.number_of_pages

  gap_lem : sub_size desc.physical_start r.available_end / bytes_per_frame ≡ gap
  gap_lem =
      let e : sub_size desc.physical_start r.available_end ≡ desc.physical_start - r.available_end =
        omega (arith, at.fits, at.before) in
      rw e

  get_bit-mark_gap :
      (g : ℕ)
      → get_bit (mark_gap r desc) g ≡ (if in_run first_gap gap g then true else get_bit r.manager g)
  unfolding mark_gap
  get_bit-mark_gap g = rw gap_lem (
      ground (
        arith,
        at.fits,
        at.before,
        get_bit-mark_allocated r.manager first_gap gap g at.formed
            (omega (arith, at.fits, at.before)),
      ))

  mark_gap-IsWellFormed : IsWellFormed (mark_gap r desc)
  unfolding mark_gap
  mark_gap-IsWellFormed =
      rw gap_lem
        (ground (arith, at.formed, mark_allocated-IsWellFormed r.manager first_gap gap at.formed))

  mark_gap-lines : length (mark_gap r desc).alloc_map ≡ length r.manager.alloc_map
  unfolding mark_gap
  mark_gap-lines = rw gap_lem (ground (arith, mark_allocated-SameFrame r.manager first_gap gap))

  pages_lem : mul_size pages uefi_page_size / bytes_per_frame ≡ pages
  pages_lem = omega (arith, at.fits)

  end_lem : physical_end desc ≡ desc.physical_start + pages * uefi_page_size
  end_lem = omega (arith, at.fits)

  -- The bitmap after a region: the gap before it is used, and so is the region itself unless it is available.
  get_bit-add_region :
      (g : ℕ)
      → get_bit (add_region r desc).manager g ≡ (
          if in_run first_gap gap g
          then true
          else if not (is_available desc.type) && in_run start pages g
          then true
          else get_bit r.manager g)
  unfolding add_region
  get_bit-add_region g = rw pages_lem (
      ground (
        arith,
        at.fits,
        mark_gap-lines,
        get_bit-mark_gap g,
        get_bit-mark_allocated (mark_gap r desc) start pages g mark_gap-IsWellFormed
            (omega (arith, at.fits, mark_gap-lines)),
      ))

  add_region-IsWellFormed : IsWellFormed (add_region r desc).manager
  unfolding add_region
  add_region-IsWellFormed = rw pages_lem (
      ground (
        arith,
        mark_gap-IsWellFormed,
        mark_allocated-IsWellFormed (mark_gap r desc) start pages mark_gap-IsWellFormed,
      ))

  add_region-lines : length (add_region r desc).manager.alloc_map ≡ length r.manager.alloc_map
  unfolding add_region
  add_region-lines =
      rw pages_lem
        (ground (arith, mark_gap-lines, mark_allocated-SameFrame (mark_gap r desc) start pages))

  available_end-add_region : (add_region r desc).available_end ≡ (
      if is_available desc.type
      then desc.physical_start + pages * uefi_page_size
      else r.available_end)
  unfolding add_region
  available_end-add_region = rw end_lem (ground arith)

  add_region-At : At (add_region r desc) (desc.physical_start + pages * uefi_page_size) hi
  add_region-At = record {
    formed = add_region-IsWellFormed;
    fits = omega (arith, at.fits, add_region-lines);
    aligned = ground (arith, available_end-add_region, at.aligned);
    before = ground (arith, available_end-add_region, at.before);
    aligned_lo = omega arith;
    untouched = λ f h. ground (arith, get_bit-add_region f, at.untouched f, at.before);
  }

-- Regions from `lo` on hold no frame below `lo`.
in_available_below :
    (memory_map : List MemoryDescriptor) (lo hi f : ℕ)
    → Ascending lo hi memory_map
    → f < lo / bytes_per_frame
    → in_available memory_map f ≡ false
unfolding in_available
in_available_below [] lo hi f a h = refl
in_available_below (desc ∷ rest) lo hi f a h = ground (
  arith,
  in_available_below rest (desc.physical_start + desc.number_of_pages * uefi_page_size) hi f,
)

-- What the loop over `memory_map` does to the state `r`.
record Loaded (r : Regions) (hi : ℕ) (memory_map : List MemoryDescriptor) (r' : Regions)
    : Type 0 where
  formed : IsWellFormed r'.manager
  lines : length r'.manager.alloc_map ≡ length r.manager.alloc_map
  grows : r.available_end ≤ r'.available_end
  within : r'.available_end ≤ hi
  earlier :
      (g : ℕ) → g < r.available_end / bytes_per_frame → get_bit r'.manager g ≡ get_bit r.manager g
  later :
      (g : ℕ)
      → r.available_end / bytes_per_frame ≤ g
      → g < r'.available_end / bytes_per_frame
      → get_bit r'.manager g ≡ not (in_available memory_map g)

add_regions-Loaded :
    (memory_map : List MemoryDescriptor) (r : Regions) (lo hi : ℕ)
    → At r lo hi
    → lo ≤ hi
    → Ascending lo hi memory_map
    → Loaded r hi memory_map (add_regions r memory_map)
unfolding add_regions in_available
add_regions-Loaded [] r lo hi at h a = record {
  formed = at.formed;
  lines = refl;
  grows = omega arith;
  within = omega (arith, at.before);
  earlier = λ g k. refl;
  later = λ g k l. absurd (omega arith);
}
add_regions-Loaded (desc ∷ rest) r lo hi at h (aligned, after, below, a) =
    let end : ℕ = desc.physical_start + desc.number_of_pages * uefi_page_size in
    let r1 : Regions = add_region r desc in
    let ih =
      add_regions-Loaded rest r1 end hi (add_region-At r desc lo hi at aligned after below) below
        a in
    let ae = available_end-add_region r desc lo hi at aligned after below in
    record {
      formed = ih.formed;
      lines = omega (arith, ih.lines, add_region-lines r desc lo hi at aligned after below);
      grows = ground (arith, ih.grows, ae, at.before);
      within = ih.within;
      earlier = λ g k. ground (
        arith,
        ih.earlier g,
        ih.later g,
        ae,
        at.before,
        get_bit-add_region r desc lo hi at aligned after below g,
      );
      later = λ g k l. ground (
        arith,
        ih.earlier g,
        ih.later g,
        ae,
        at.before,
        at.untouched g,
        in_available_below rest end hi g a,
        get_bit-add_region r desc lo hi at aligned after below g,
      );
    }

module _ (m : BitmapMemoryManager) (hi : ℕ) (memory_map : List MemoryDescriptor)
    (v : IsWellFormed m) (fits : Fits hi m) (clear : (f : ℕ) → get_bit m f ≡ false)
    (ascending : Ascending 0 hi memory_map) where
  loaded :
      Loaded
        (record { manager = m; available_end = 0 })
        hi
        memory_map
        (add_regions (record { manager = m; available_end = 0 }) memory_map)
  loaded =
      add_regions-Loaded memory_map (record { manager = m; available_end = 0 }) 0 hi
        (record {
          formed = v;
          fits = fits;
          aligned = refl;
          before = omega arith;
          aligned_lo = refl;
          untouched = λ f h. clear f;
        })
        (omega arith) ascending

  -- Of the frames below the end of the range that the boot sets, just those are free that lie in
  -- an available region of the memory map. The map's regions are page-aligned, ascending and
  -- within the bitmap, which starts out clear.
  pub get_bit-load_memory_map :
      (g : ℕ)
      → g < (load_memory_map m memory_map).range_end
      → get_bit (load_memory_map m memory_map) g ≡ not (in_available memory_map g)
  unfolding load_memory_map set_memory_range get_bit
  get_bit-load_memory_map g h = unfold get_bit in (loaded.later g (omega arith) h)

  -- The boot leaves a well-formed manager, if a frame is left beside frame 0.
  pub load_memory_map-IsWellFormed :
      1 ≤ (load_memory_map m memory_map).range_end → IsWellFormed (load_memory_map m memory_map)
  unfolding load_memory_map set_memory_range
  load_memory_map-IsWellFormed h = record {
    words = loaded.formed.words;
    ordered = h;
    mapped = omega (arith, loaded.within, loaded.lines, fits);
    addressable = loaded.formed.addressable;
  }

  pub range_begin-load_memory_map : (load_memory_map m memory_map).range_begin ≡ 1
  unfolding load_memory_map set_memory_range
  range_begin-load_memory_map = refl

  pub range_end-load_memory_map : (load_memory_map m memory_map).range_end ≤ hi / bytes_per_frame
  unfolding load_memory_map set_memory_range
  range_end-load_memory_map = omega (arith, loaded.within)
