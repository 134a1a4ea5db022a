-- ===== src/Memory/Ownership.antt =====
-- Who owns which frame: allocations never overlap, and `Free` gives back what was taken.
use duvuvurkarpogeschel.Prelude.{
  ℕ, zero, suc, ◌+◌, ◌-◌, ◌*◌, ◌≤◌, ◌<◌, ◌≡◌, ◌≢◌, true, false, if◌then◌else◌, length, some, arith,
}
use mathlib.Core.Path.{subst}
use duvuvurkarpogeschel.Error.{ok}
use duvuvurkarpogeschel.Memory.{
  BitmapMemoryManager, get_bit, allocate, mark_allocated, free, bits_per_map_line,
}
use duvuvurkarpogeschel.Memory.Line.{IsWellFormed}
use duvuvurkarpogeschel.Memory.Marks.{
  in_run, get_bit-mark_allocated, get_bit-free, mark_allocated-IsWellFormed,
  mark_allocated-SameFrame,
}
use duvuvurkarpogeschel.Memory.Allocate.{IsFreeRun, FirstFit, allocate-FirstFit, commit_inv}

-- What a successful call has found and done.
pub record Granted (m : BitmapMemoryManager) (n start : ℕ) (m' : BitmapMemoryManager) : Type 0 where
  pub run : IsFreeRun m start n
  pub above : m.range_begin ≤ start
  pub below : start ≤ m.range_end
  pub marked : m' ≡ mark_allocated m start n

pub allocate-Granted :
    (m : BitmapMemoryManager) (n start : ℕ) (m' : BitmapMemoryManager)
    → IsWellFormed m
    → allocate m n ≡ some (ok start, m')
    → Granted m n start m'
allocate-Granted m n start m' v h =
    let (r, found, fit) = allocate-FirstFit m n v in
    let (re, marked) = commit_inv m n r {start = start} {m' = m'} (cc (found, h)) in
    let fit' = subst (FirstFit m n m.range_begin) re fit in
    record { run = fit'.2; above = fit'.0; below = fit'.1; marked = marked }

-- The run of a grant lies in the bitmap.
run_mapped :
    (m : BitmapMemoryManager) (n start : ℕ)
    → IsWellFormed m
    → IsFreeRun m start n
    → start ≤ m.range_end
    → start + n ≤ bits_per_map_line * length m.alloc_map
run_mapped m zero start v run h = omega (arith, v.mapped)
run_mapped m (suc n) start v run h = omega (arith, v.mapped, run n (omega arith))

module _ (m : BitmapMemoryManager) (n start : ℕ) (m' : BitmapMemoryManager) (v : IsWellFormed m)
    (granted : allocate m n ≡ some (ok start, m')) where
  -- A successful `Allocate` leaves a well-formed manager, in which just the frames of the run that it returns have
  -- become used.
  pub allocate_effect :
      IsWellFormed m' × ((g : ℕ) → get_bit m' g ≡ (if in_run start n g then true else get_bit m g))
  allocate_effect =
      let g = allocate-Granted m n start m' v granted in
      (
        rw g.marked (mark_allocated-IsWellFormed m start n v),
        λ f.
            rw g.marked
              (get_bit-mark_allocated m start n f v (run_mapped m n start v g.run g.below)),
      )

  pub run_was_free : (g : ℕ) → in_run start n g ≡ true → get_bit m g ≡ false
  run_was_free g h =
      let e : start + (g - start) ≡ g = ground arith in
      rw e at ((allocate-Granted m n start m' v granted).run (g - start) (ground arith)).1

  run_mapped_after : start + n ≤ bits_per_map_line * length m'.alloc_map
  run_mapped_after =
      let g = allocate-Granted m n start m' v granted in
      rw g.marked
        (omega (arith, run_mapped m n start v g.run g.below, mark_allocated-SameFrame m start n))

  -- `Free` of a run that `Allocate` returned makes each frame as it was before.
  pub free_undoes_allocate : (g : ℕ) → get_bit (free m' start n) g ≡ get_bit m g
  free_undoes_allocate g = ground (
    arith,
    get_bit-free m' start n g allocate_effect.0 run_mapped_after,
    allocate_effect.1 g,
    run_was_free g,
  )

  -- Two runs that are allocated one after the other have no frame in common.
  pub allocate_disjoint :
      (k next : ℕ) (m'' : BitmapMemoryManager)
      → allocate m' k ≡ some (ok next, m'')
      → (i j : ℕ) → i < n
      → j < k
      → start + i ≢ next + j
  allocate_disjoint k next m'' again i j a b same =
      let h = allocate-Granted m' k next m'' allocate_effect.0 again in
      ground (arith, allocate_effect.1 (start + i), rw (← same) at (h.run j b).1)
