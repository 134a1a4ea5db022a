-- ===== src/Memory/Allocate.antt =====
-- `Allocate` finds the first run of free frames, or there is none.
use duvuvurkarpogeschel.Prelude.{
  ℕ, zero, suc, ◌+◌, ◌-◌, ◌≤◌, ◌<◌, ◌≡◌, refl, ap, ◌∙◌, inl, inr, true, false, leb, some, arith,
  Bool-cases, leb→le, ℕ_discrete, dec_lt,
}
use duvuvurkarpogeschel.Prelude.Words.{add_size}
use duvuvurkarpogeschel.Error.{WithError, ok, err, no_enough_memory}
use duvuvurkarpogeschel.Memory.{
  BitmapMemoryManager, Scan, out_of_range, used_at, all_free, get_bit, scan, search_run, allocate,
  commit, mark_allocated,
}
use duvuvurkarpogeschel.Memory.Line.{IsWellFormed}

-- The `n` frames from `start` on lie below the end of the range, and none is in use.
abbrev pub IsFreeRun : BitmapMemoryManager → ℕ → ℕ → Type 0
IsFreeRun m start n = (i : ℕ) → i < n → (start + i < m.range_end) × (get_bit m (start + i) ≡ false)

module _ (m : BitmapMemoryManager) where
  abbrev ScanResult : (start left i : ℕ) → Scan → Type 0
  ScanResult start left i all_free =
      (k : ℕ) → i ≤ k → k < i + left → (start + k < m.range_end) × (get_bit m (start + k) ≡ false)
  ScanResult start left i (used_at k) =
      (i ≤ k) × (k < i + left) × (start + k < m.range_end) × (get_bit m (start + k) ≡ true)
  ScanResult start left i out_of_range =
      (k : ℕ) × (i ≤ k) × (k < i + left) × (m.range_end ≤ start + k)

  all_free_step :
      (start left i : ℕ) (r : Scan)
      → start + i < m.range_end
      → get_bit m (start + i) ≡ false
      → ScanResult start left (i + 1) r
      → ScanResult start (suc left) i r
  all_free_step start left i out_of_range h e (k, p, q, t) = (k, omega arith, omega arith, t)
  all_free_step start left i (used_at k) h e t = ground arith
  all_free_step start left i all_free h e t = λ k p q. elim (ℕ_discrete k i) [
    | yes here ↦ rw here (h, e)
    | no later ↦ t k (omega arith) (omega arith)
  ]

  scan_lem :
      (start left i : ℕ)
      → IsWellFormed m
      → start + i ≤ m.range_end
      → ScanResult start left i (scan m start left i)
  unfolding scan
  scan_lem start zero i v h = λ k p q. absurd (omega arith)
  scan_lem start (suc left) i v h =
      let exact : add_size start i ≡ start + i = omega arith in
      rw exact (elim (Bool-cases (leb m.range_end (start + i))) [
        | inl out ↦ rw out (i, omega arith, omega arith, leb→le _ _ out)
        | inr inside ↦ rw inside (elim (Bool-cases (get_bit m (start + i))) [
          | inl used ↦ rw used (omega arith, omega arith, ground arith, used)
          | inr unused ↦ rw unused (
              all_free_step start left i (scan m start left (i + 1)) (ground arith) unused
                (scan_lem start left (i + 1) v (ground arith)))
        ])
      ])

  -- What the search from `start` on returns.
  abbrev pub FirstFit : ℕ → ℕ → WithError ℕ → Type 0
  FirstFit n from (ok start) =
      (from ≤ start)
      × (start ≤ m.range_end)
      × IsFreeRun m start n
      × ((t : ℕ) → from ≤ t → t < start → ¬ IsFreeRun m t n)
  FirstFit n from (err e) = (e ≡ no_enough_memory) × ((t : ℕ) → from ≤ t → ¬ IsFreeRun m t n)

  no_run_over : (n t f : ℕ) → get_bit m f ≡ true → t ≤ f → f < t + n → ¬ IsFreeRun m t n
  no_run_over n t f used lo hi run =
      let e : t + (f - t) ≡ f = omega arith in cc (used, (rw e at (run (f - t) (omega arith)).1))

  skip_used :
      (n from k : ℕ) (r : WithError ℕ)
      → k < n
      → get_bit m (from + k) ≡ true
      → FirstFit n (from + (k + 1)) r
      → FirstFit n from r
  skip_used n from k (ok start) h used (p, within, run, first) = (
    omega arith,
    within,
    run,
    λ t a b. elim (dec_lt (from + k) t) [
      | yes past ↦ first t (omega arith) b
      | no before ↦ no_run_over n t (from + k) used (omega arith) (omega arith)
    ],
  )
  skip_used n from k (err e) h used (p, never) = (
    p,
    λ t a. elim (dec_lt (from + k) t) [
      | yes past ↦ never t (omega arith)
      | no before ↦ no_run_over n t (from + k) used (omega arith) (omega arith)
    ],
  )

  abbrev Searched : (n fuel from : ℕ) → Type 0
  Searched n fuel from = (r : WithError ℕ) × (search_run m n fuel from ≡ some r) × FirstFit n from r

  search_step :
      (n fuel from : ℕ) (result : Scan)
      → IsWellFormed m
      → from ≤ m.range_end
      → scan m from n 0 ≡ result
      → ScanResult from n 0 result
      → ((next : ℕ) → from < next → next ≤ m.range_end → Searched n fuel next)
      → Searched n (suc fuel) from
  unfolding search_run
  search_step n fuel from out_of_range v h e (k, p, q, t) again = (
    err no_enough_memory,
    rw (e, search_run),
    (refl, λ u a run. absurd (omega (arith, run k (omega arith)))),
  )
  search_step n fuel from (used_at k) v h e (p, q, t, used) again =
      let exact : add_size from (k + 1) ≡ from + (k + 1) = omega arith in
      let (r, found, fit) = again (from + (k + 1)) (omega arith) (omega arith) in
      (
        r,
        rw (e, search_run) (ap (search_run m n fuel) exact ∙ found),
        skip_used n from k r (omega arith) used fit,
      )
  search_step n fuel from all_free v h e run again = (
    ok from,
    rw (e, search_run),
    (omega arith, h, λ i k. run i (omega arith) (omega arith), λ t a b. absurd (omega arith)),
  )

  search_lem :
      (n fuel from : ℕ)
      → IsWellFormed m
      → from ≤ m.range_end
      → m.range_end < from + fuel
      → Searched n fuel from
  search_lem n zero from v h k = absurd (omega arith)
  search_lem n (suc fuel) from v h k =
      search_step n fuel from (scan m from n 0) v h refl (scan_lem from n 0 v (omega arith))
        λ next a b. search_lem n fuel next v b (omega arith)

  -- `Allocate` always returns. It returns the first start in the range of `n` frames that are all
  -- free, having marked them, or `kNoEnoughMemory` and an unchanged manager if there is no such
  -- start.
  pub allocate-FirstFit :
      (n : ℕ)
      → IsWellFormed m
      → (r : WithError ℕ) × (allocate m n ≡ some (commit m n r)) × FirstFit n m.range_begin r
  unfolding allocate
  allocate-FirstFit n v =
      let (r, found, fit) =
        search_lem n (suc (m.range_end - m.range_begin)) m.range_begin v (omega arith)
          (omega arith) in
      (r, rw (found, allocate), fit)

  pub commit_inv :
      (n : ℕ) (r : WithError ℕ) {start : ℕ} {m' : BitmapMemoryManager}
      → commit m n r ≡ (ok start, m')
      → (r ≡ ok start) × (m' ≡ mark_allocated m start n)
  commit_inv n (ok s) h = ground arith
  commit_inv n (err e) h = ground arith
