-- ===== src/Paging/Fault/Copy.antt =====
-- CopyOnePage: a write to a page that was mapped read-only.
use duvuvurkarpogeschel.Prelude.{
  ℕ, zero, suc, ◌*◌, ◌/◌, ◌%◌, ◌^◌, ◌<◌, ◌≡◌, ◌≢◌, refl, sym, ap, ◌∙◌, true, false, none, some,
  ◌==◌, if◌then◌else◌, arith,
}
use mathlib.Core.Bool.{false≢true}
use duvuvurkarpogeschel.Error.{ok}
use duvuvurkarpogeschel.Memory.{BitmapMemoryManager, allocate, get_bit, bytes_per_frame}
use duvuvurkarpogeschel.Memory.Line.{IsWellFormed}
use duvuvurkarpogeschel.Memory.Ownership.{run_was_free}
use duvuvurkarpogeschel.Paging.{
  part, Paging, map_pointer, set_pointer, write_entry, new_map_of, new_page_map, clear_map,
}
use duvuvurkarpogeschel.Paging.Fault.{
  walk, page_bytes, write_page, set_page_content, page_of, copy_one_page,
}

abbrev FrameUsed : Paging → (page : ℕ) → Type 0
FrameUsed s page = get_bit s.manager (page / bytes_per_frame) ≡ true

-- The maps from `table` on lead to the map `leaf` of the last level. They are in use, and the upper
-- ones are other maps than the last one.
abbrev pub Reaches : (level : ℕ) → Paging → (table addr leaf : ℕ) → Type 0
Reaches zero s table addr leaf = ⊥
Reaches (suc zero) s table addr leaf = table ≡ leaf
Reaches (suc (suc level)) s table addr leaf =
    ((s.tables table (part addr (suc (suc level)))).present ≡ true)
    × Reaches (suc level) s (map_pointer (s.tables table (part addr (suc (suc level))))) addr leaf
    × (table ≢ leaf)
    × FrameUsed s table

-- The maps in use but the last one are the same.
abbrev Keeps : Paging → Paging → (leaf : ℕ) → Type 0
Keeps s u leaf = (x i : ℕ) → FrameUsed s x → x ≢ leaf → u.tables x i ≡ s.tables x i

module _ (s u : Paging) (leaf : ℕ) (keeps : Keeps s u leaf) where
  walk-keeps :
      (level table addr : ℕ)
      → Reaches level s table addr leaf
      → walk level u table addr ≡ walk 1 u leaf addr
  unfolding walk map_pointer
  walk-keeps zero table addr h = absurd h
  walk-keeps (suc zero) table addr h = ap (λ t. walk 1 u t addr) h
  walk-keeps (suc (suc level)) table addr h =
      rw (keeps table (part addr (suc (suc level))) h.3 h.2, h.0)
        (walk-keeps (suc level) (map_pointer (s.tables table (part addr (suc (suc level))))) addr
          h.1)

  set_page_content-keeps :
      (level table addr content : ℕ)
      → Reaches level s table addr leaf
      → set_page_content level u table addr content ≡ set_page_content 1 u leaf addr content
  unfolding set_page_content
  set_page_content-keeps zero table addr content h = absurd h
  set_page_content-keeps (suc zero) table addr content h =
      ap (λ t. set_page_content 1 u t addr content) h
  set_page_content-keeps (suc (suc level)) table addr content h =
      rw (keeps table (part addr (suc (suc level))) h.3 h.2) (
        set_page_content-keeps (suc level)
          (map_pointer (s.tables table (part addr (suc (suc level))))) addr content h.1)

part-page_of : (a level : ℕ) → part (page_of a) (suc level) ≡ part a (suc level)
unfolding part
part-page_of a zero = omega arith
part-page_of a (suc zero) = omega arith
part-page_of a (suc (suc zero)) = omega arith
part-page_of a (suc (suc (suc zero))) = omega arith
part-page_of a (suc (suc (suc (suc level)))) = refl

walk-page_of :
    (level : ℕ) (s : Paging) (table a : ℕ) → walk level s table (page_of a) ≡ walk level s table a
unfolding walk
walk-page_of zero s table a = refl
walk-page_of (suc zero) s table a = rw (part-page_of a 0) refl
walk-page_of (suc (suc level)) s table a = rw (part-page_of a (suc level)) (
    ap (λ w. if (s.tables table (part a (suc (suc level)))).present then w else none)
      (walk-page_of (suc level) s (map_pointer (s.tables table (part a (suc (suc level))))) a))

-- The frame that `Allocate` returns was free, and so no page in use is its own.
not_new :
    (s : Paging) (frame : ℕ) (m : BitmapMemoryManager) (page : ℕ)
    → IsWellFormed s.manager
    → allocate s.manager 1 ≡ some (ok frame, m)
    → FrameUsed s page
    → page ≢ frame * bytes_per_frame
not_new s frame m page h a used e =
    let free : get_bit s.manager frame ≡ false =
      run_was_free s.manager 1 frame m h a frame (ground arith) in
    let same : page / bytes_per_frame ≡ frame = omega (arith, e) in
    false≢true (sym free ∙ ap (get_bit s.manager) (sym same) ∙ used)

abbrev new_map : Paging → ℕ → BitmapMemoryManager → Paging
new_map s frame m = clear_map (record s { manager = m }) (frame * bytes_per_frame)

new_map-tables :
    (s : Paging) (frame : ℕ) (m : BitmapMemoryManager) (x i : ℕ)
    → x ≢ frame * bytes_per_frame
    → (new_map s frame m).tables x i ≡ s.tables x i
unfolding clear_map
new_map-tables s frame m x i h =
    let other : (x == frame * 4096) ≡ false = ground (arith, h) in rw other refl

new_map-pages :
    (s : Paging) (frame : ℕ) (m : BitmapMemoryManager) (x : ℕ)
    → x ≢ frame * bytes_per_frame
    → (new_map s frame m).pages x ≡ s.pages x
unfolding clear_map
new_map-pages s frame m x h =
    let other : (x == frame * 4096) ≡ false = ground (arith, h) in rw other refl

module _ (cr3 : ℕ) (s : Paging) (addr leaf frame : ℕ) (m : BitmapMemoryManager)
    (h : IsWellFormed s.manager) (a : allocate s.manager 1 ≡ some (ok frame, m))
    (path : Reaches 4 s cr3 addr leaf) (used : FrameUsed s leaf)
    (mapped : (s.tables leaf (part addr 1)).present ≡ true)
    (page_used : FrameUsed s (map_pointer (s.tables leaf (part addr 1))))
    (addressable : frame < 2 ^ 40) where
  abbrev copied : Paging
  copied =
      write_page (new_map s frame m) (frame * bytes_per_frame)
        (s.pages (map_pointer (s.tables leaf (part addr 1))))

  abbrev remapped : Paging
  remapped =
      write_entry copied leaf (part addr 1)
        (record (set_pointer (copied.tables leaf (part addr 1)) (frame * bytes_per_frame)) {
          writable = true;
        })

  Keeps-new : Keeps s (new_map s frame m) leaf
  Keeps-new x i x_used other = new_map-tables s frame m x i (not_new s frame m x h a x_used)

  Keeps-remapped : Keeps s remapped leaf
  unfolding write_entry
  Keeps-remapped x i x_used other =
      let off : (x == leaf) ≡ false = ground (arith, other) in rw off (Keeps-new x i x_used other)

  source :
      page_bytes (new_map s frame m) (walk 4 (new_map s frame m) cr3 (page_of addr))
      ≡ s.pages (map_pointer (s.tables leaf (part addr 1)))
  unfolding page_bytes walk map_pointer
  source =
      let leaf_entry =
        new_map-tables s frame m leaf (part addr 1) (not_new s frame m leaf h a used) in
      ap (page_bytes (new_map s frame m)) (
        walk-page_of 4 (new_map s frame m) cr3 addr
        ∙ walk-keeps s (new_map s frame m) leaf Keeps-new 4 cr3 addr path)
      ∙ rw (leaf_entry, mapped)
          (new_map-pages s frame m (map_pointer (s.tables leaf (part addr 1)))
            (not_new s frame m (map_pointer (s.tables leaf (part addr 1))) h a page_used))

  copied-once :
      copy_one_page cr3 s addr
      ≡ some (ok tt, set_page_content 4 copied cr3 addr (frame * bytes_per_frame))
  unfolding copy_one_page new_page_map new_map_of
  copied-once = rw (a, source) refl

  content_set : set_page_content 4 copied cr3 addr (frame * bytes_per_frame) ≡ remapped
  content_set =
      set_page_content-keeps s copied leaf Keeps-new 4 cr3 addr (frame * bytes_per_frame) path
      ∙ unfold set_page_content in refl

  remapped-entry :
      walk 1 remapped leaf addr
      ≡ some (record (s.tables leaf (part addr 1)) { writable = true; addr = frame })
  unfolding walk write_entry set_pointer
  remapped-entry =
      let leaf_entry =
        new_map-tables s frame m leaf (part addr 1) (not_new s frame m leaf h a used) in
      let self : (leaf == leaf) ≡ true = ground arith in
      let self_part : (part addr 1 == part addr 1) ≡ true = ground arith in
      let exact : frame * 4096 / 4096 % 2 ^ 40 ≡ frame = omega (arith, addressable) in
      rw (self, self_part, leaf_entry, mapped, exact) refl

  new_bytes :
      remapped.pages (frame * bytes_per_frame) ≡ s.pages (map_pointer (s.tables leaf (part addr 1)))
  unfolding write_entry
  new_bytes = let self : (frame * 4096 == frame * 4096) ≡ true = ground arith in rw self refl

  old_bytes :
      remapped.pages (map_pointer (s.tables leaf (part addr 1)))
      ≡ s.pages (map_pointer (s.tables leaf (part addr 1)))
  unfolding write_entry
  old_bytes =
      let page = map_pointer (s.tables leaf (part addr 1)) in
      let other = not_new s frame m page h a page_used in
      let off : (page == frame * 4096) ≡ false = ground (arith, other) in
      rw off (new_map-pages s frame m page other)

  -- A frame is free, and an address is mapped through maps that are in use, the last one of them
  -- apart from the others, to a page in use. Then CopyOnePage succeeds. The address is mapped then to
  -- the new frame, which was not in use, as writable and else as before; its page has the bytes of the old
  -- page, which keeps them.
  pub copy_one_page_lem :
      (s' : Paging) × (copy_one_page cr3 s addr ≡ some (ok tt, s'))
      × (get_bit s.manager frame ≡ false)
      × (walk 4 s' cr3 addr
          ≡ some (record (s.tables leaf (part addr 1)) { writable = true; addr = frame }))
      × (s'.pages (frame * bytes_per_frame) ≡ s.pages (map_pointer (s.tables leaf (part addr 1))))
      × (s'.pages (map_pointer (s.tables leaf (part addr 1)))
          ≡ s.pages (map_pointer (s.tables leaf (part addr 1))))
  copy_one_page_lem = (
    remapped,
    copied-once ∙ ap (λ u. some (ok tt, u)) content_set,
    run_was_free s.manager 1 frame m h a frame (ground arith),
    walk-keeps s remapped leaf Keeps-remapped 4 cr3 addr path ∙ remapped-entry,
    new_bytes,
    old_bytes,
  )
