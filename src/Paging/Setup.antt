-- ===== src/Paging/Setup.antt =====
-- SetupPageMap always returns, and takes only frames that are free.
use duvuvurkarpogeschel.Prelude.{
  ℕ, zero, suc, ◌+◌, ◌*◌, ◌<◌, ◌≤◌, ◌≡◌, refl, ◌∙◌, Bool, true, false, some, ◌==◌, arith,
  Bool-cases, inl, inr,
}
use duvuvurkarpogeschel.Error.{WithError, ok, err}
use duvuvurkarpogeschel.Memory.{BitmapMemoryManager, allocate, commit, get_bit, bytes_per_frame}
use duvuvurkarpogeschel.Memory.Marks.{in_run}
use duvuvurkarpogeschel.Memory.Line.{IsWellFormed}
use duvuvurkarpogeschel.Memory.Allocate.{allocate-FirstFit}
use duvuvurkarpogeschel.Memory.Ownership.{allocate_effect}
use duvuvurkarpogeschel.Paging.{
  part, next_address, Paging, Outcome, and_then, write_entry, new_map_of, new_page_map, link_map,
  map_or_new, set_new_page_map_if_not_present, map_pointer, set_pointer, clear_map, setup_child,
  setup_entries, setup_page_map, setup_page_maps,
}
use duvuvurkarpogeschel.Paging.Address.{next_address_lem}

-- A manager that came from another one by allocations.
pub record Grown (m m' : BitmapMemoryManager) : Type 0 where
  pub well_formed : IsWellFormed m'
  pub keeps : (g : ℕ) → get_bit m g ≡ true → get_bit m' g ≡ true

pub grown-refl : (m : BitmapMemoryManager) → IsWellFormed m → Grown m m
grown-refl m h = record { well_formed = h; keeps = λ g e. e }

pub grown-trans : {m n o : BitmapMemoryManager} → Grown m n → Grown n o → Grown m o
grown-trans g h = record { well_formed = h.well_formed; keeps = λ f e. h.keeps f (g.keeps f e) }

-- It returns, with a value or an error, and has done nothing to the frames but allocations.
pub record Returns {A : Type 0} (m : BitmapMemoryManager) (o : Outcome A) : Type 0 where
  pub value : WithError A
  pub after : Paging
  pub is_result : o ≡ some (value, after)
  pub grown : Grown m after.manager

-- What `Allocate` of one frame does, for the result that it has.
allocated :
    (m : BitmapMemoryManager) (r : WithError ℕ)
    → IsWellFormed m
    → allocate m 1 ≡ some (commit m 1 r)
    → (x : WithError ℕ) × (m' : BitmapMemoryManager) × (allocate m 1 ≡ some (x, m')) × Grown m m'
allocated m (err e) h a = (err e, m, a, grown-refl m h)
allocated m (ok start) h a =
    let m' = (commit m 1 (ok start)).1 in
    let effect = allocate_effect m 1 start m' h a in
    (
      ok start,
      m',
      a,
      record {
        well_formed = effect.0;
        keeps = λ g e.
            effect.1 g
            ∙ rw e (elim (Bool-cases (in_run start 1 g)) [ inl i ↦ rw i refl | inr i ↦ rw i refl ]);
      },
    )

clear_map-Grown :
    (s : Paging) (m : BitmapMemoryManager) (page : ℕ)
    → Grown s.manager m
    → Grown s.manager (clear_map (record s { manager = m }) page).manager
unfolding clear_map
clear_map-Grown s m page h = h

new_map_of-Returns :
    (s : Paging) (r : WithError ℕ) (m : BitmapMemoryManager)
    → Grown s.manager m
    → Returns s.manager (new_map_of s (some (r, m)))
unfolding new_map_of
new_map_of-Returns s (ok frame) m h = record {
  value = ok (frame * bytes_per_frame);
  after = clear_map (record s { manager = m }) (frame * bytes_per_frame);
  is_result = refl;
  grown = clear_map-Grown s m (frame * bytes_per_frame) h;
}
new_map_of-Returns s (err e) m h = record {
  value = err e;
  after = record s { manager = m };
  is_result = refl;
  grown = h;
}

new_page_map-Returns : (s : Paging) → IsWellFormed s.manager → Returns s.manager (new_page_map s)
unfolding new_page_map
new_page_map-Returns s h =
    let first = allocate-FirstFit s.manager 1 h in
    let a = allocated s.manager first.0 h first.1 in rw a.2 (new_map_of-Returns s a.0 a.1 a.3)

and_then-result :
    {A B : Type 0} (m : BitmapMemoryManager) (value : WithError A) (s : Paging)
    (next : A → Paging → Outcome B)
    → Grown m s.manager
    → ((a : A) (t : Paging) → Grown m t.manager → Returns m (next a t))
    → Returns m (and_then (some (value, s)) next)
and_then-result m (ok a) s next h k = k a s h
and_then-result m (err e) s next h k = record {
  value = err e;
  after = s;
  is_result = refl;
  grown = h;
}

and_then-Returns :
    {A B : Type 0} (m : BitmapMemoryManager) (o : Outcome A) (next : A → Paging → Outcome B)
    → Returns m o
    → ((a : A) (t : Paging) → Grown m t.manager → Returns m (next a t))
    → Returns m (and_then o next)
and_then-Returns m o next r k = rw r.is_result (and_then-result m r.value r.after next r.grown k)

after-Returns :
    {A : Type 0} {m : BitmapMemoryManager} {n : BitmapMemoryManager} {o : Outcome A}
    → Grown m n
    → Returns n o
    → Returns m o
after-Returns g r = record {
  value = r.value;
  after = r.after;
  is_result = r.is_result;
  grown = grown-trans g r.grown;
}

link_map-Returns :
    (m : BitmapMemoryManager) (table index child_map : ℕ) (s : Paging)
    → Grown m s.manager
    → Returns m (link_map table index child_map s)
unfolding link_map write_entry
link_map-Returns m table index child_map s h = record {
  value = ok child_map;
  after =
      write_entry s table index
        (record (set_pointer (s.tables table index) child_map) { present = true });
  is_result = refl;
  grown = h;
}

map_or_new-Returns :
    (s : Paging) (table index : ℕ) (present : Bool)
    → IsWellFormed s.manager
    → Returns s.manager (map_or_new s table index present)
unfolding map_or_new
map_or_new-Returns s table index true h = record {
  value = ok (map_pointer (s.tables table index));
  after = s;
  is_result = refl;
  grown = grown-refl s.manager h;
}
map_or_new-Returns s table index false h =
    and_then-Returns s.manager (new_page_map s) (link_map table index) (new_page_map-Returns s h)
      (λ c t g. link_map-Returns s.manager table index c t g)

set_new-Returns :
    (s : Paging) (table index : ℕ)
    → IsWellFormed s.manager
    → Returns s.manager (set_new_page_map_if_not_present s table index)
unfolding set_new_page_map_if_not_present
set_new-Returns s table index h = map_or_new-Returns s table index (s.tables table index).present h

part_lt : (a level : ℕ) → 1 ≤ level → level ≤ 4 → part a level < 512
unfolding part
part_lt a zero h k = absurd (omega arith)
part_lt a (suc zero) h k = omega arith
part_lt a (suc (suc zero)) h k = omega arith
part_lt a (suc (suc (suc zero))) h k = omega arith
part_lt a (suc (suc (suc (suc zero)))) h k = omega arith
part_lt a (suc (suc (suc (suc (suc level))))) h k = absurd (omega arith)

-- A map of a level, given that the maps below it are set up.
abbrev AlwaysReturns : (Paging → (table addr num_4kpages : ℕ) → Outcome ℕ) → Type 0
AlwaysReturns child =
    (s : Paging) (table addr num_4kpages : ℕ)
    → IsWellFormed s.manager
    → Returns s.manager (child s table addr num_4kpages)

module _ (child : Paging → (table addr num_4kpages : ℕ) → Outcome ℕ) (writable : Bool)
    (below : AlwaysReturns child) where
  setup_child-Returns :
      (level : ℕ) (s : Paging) (table index child_map addr left : ℕ)
      → IsWellFormed s.manager
      → Returns s.manager (setup_child child level writable s table index child_map addr left)
  unfolding setup_child write_entry
  setup_child-Returns zero s table index child_map addr left h =
      below
        (write_entry s table index (record (s.tables table index) { user = true; writable = true }))
        child_map addr (suc left) h
  setup_child-Returns (suc zero) s table index child_map addr left h = record {
    value = ok left;
    after =
        write_entry s table index
          (record (s.tables table index) { user = true; writable = writable });
    is_result = refl;
    grown = grown-refl s.manager h;
  }
  setup_child-Returns (suc (suc level)) s table index child_map addr left h =
      below
        (write_entry s table index (record (s.tables table index) { user = true; writable = true }))
        child_map addr (suc left) h

  setup_entries-Returns :
      (level fuel : ℕ) (s : Paging) (table addr num_4kpages : ℕ)
      → 1 ≤ level
      → level ≤ 4
      → 512 ≤ part addr level + fuel
      → IsWellFormed s.manager
      → Returns s.manager (setup_entries child level writable fuel s table addr num_4kpages)
  unfolding setup_entries
  setup_entries-Returns level zero s table addr n h k enough w =
      absurd (let small = part_lt addr level h k in omega arith)
  setup_entries-Returns level (suc fuel) s table addr zero h k enough w = record {
    value = ok 0;
    after = s;
    is_result = refl;
    grown = grown-refl s.manager w;
  }
  setup_entries-Returns level (suc fuel) s table addr (suc left) h k enough w =
      let index = part addr level in
      and_then-Returns s.manager (set_new_page_map_if_not_present s table index) _
        (set_new-Returns s table index w)
        (λ c t g.
          and_then-Returns s.manager (setup_child child level writable t table index c addr left) _
            (after-Returns g (setup_child-Returns level t table index c addr left g.well_formed))
            (λ remain u g'. elim (Bool-cases (index == 511)) [
              | inl e ↦ rw e (record { value = ok remain; after = u; is_result = refl; grown = g' })
              | inr e ↦
                  let small = part_lt addr level h k in
                  let inside : index < 511 = ground (arith, e, small) in
                  let next = (next_address_lem addr level h k inside).1 in
                  rw e (
                    after-Returns g' (
                      setup_entries-Returns level fuel u table (next_address addr level index)
                        remain h k (omega (arith, next, enough)) g'.well_formed))
            ]))

setup_page_map-Returns :
    (level : ℕ) (writable : Bool) → level ≤ 4 → AlwaysReturns (setup_page_map level writable)
unfolding setup_page_map
setup_page_map-Returns zero writable k s table addr num_4kpages h = record {
  value = ok num_4kpages;
  after = s;
  is_result = refl;
  grown = grown-refl s.manager h;
}
setup_page_map-Returns (suc level) writable k s table addr num_4kpages h =
    setup_entries-Returns (setup_page_map level writable) writable
      (setup_page_map-Returns level writable (omega arith)) (suc level) 512 s table addr num_4kpages
      (omega arith) k (omega arith) h

-- SetupPageMaps always returns, with success or an error, whatever the address, the number of pages
-- and what the page maps hold. The frames that were in use are in use then, and the bitmap stays
-- well-formed.
pub setup_page_maps-Returns :
    (cr3 : ℕ) (s : Paging) (addr num_4kpages : ℕ) (writable : Bool)
    → IsWellFormed s.manager
    → Returns s.manager (setup_page_maps cr3 s addr num_4kpages writable)
unfolding setup_page_maps
setup_page_maps-Returns cr3 s addr num_4kpages writable h =
    setup_page_map-Returns 4 writable (omega arith) s cr3 addr num_4kpages h
