-- ===== src/TaskManager/Operations.antt =====
-- Every operation of the scheduler keeps its invariant.
use duvuvurkarpogeschel.Prelude.{
  ℕ, ◌≤◌, ◌≡◌, ◌≢◌, refl, ◌∙◌, true, some, ◌==◌, arith, Bool-cases, ==_iff, ==_iff, inl, inr,
}
use duvuvurkarpogeschel.Prelude.Int.{ℤ, pos, negsuc}
use duvuvurkarpogeschel.Task.{Task, set_level}
use duvuvurkarpogeschel.RunQueue.{find_task, update_task}
use duvuvurkarpogeschel.TaskManager.{
  TaskManager, max_level, current_task, level_of, change_level_other, change_level_myself,
  change_level_running, wakeup, wakeup_level,
}
use duvuvurkarpogeschel.TaskManager.Invariant.{IsScheduled, IsTable, idle_id}
use duvuvurkarpogeschel.TaskManager.Wake.{
  is_running_lem, wakeup_running, update_task-IsTable, awake-IsScheduled, wakeup_still,
}
use duvuvurkarpogeschel.TaskManager.Level.{
  other-IsFiled, other-IsCurrent, myself-IsFiled, myself-IsCurrent,
}

-- A level that the run queues have; a negative one stands for the task's own.
abbrev pub IsLevel : ℤ → Type 0
IsLevel (pos level) = level ≤ max_level
IsLevel (negsuc n) = Unit {0}

level_of-IsTable :
    (m : TaskManager) (task : ℕ) → IsTable m.tasks m.latest_id → level_of m task ≤ max_level
unfolding level_of
level_of-IsTable m task t = t.levels task

module _ (m : TaskManager) (task : ℕ) (t : Task) (v : IsScheduled m)
    (found : find_task task m.tasks ≡ some t) (busy : task ≢ idle_id) where
  changed-IsTable :
      (level : ℕ)
      → level ≤ max_level
      → IsTable (update_task task (set_level level) m.tasks) m.latest_id
  unfolding set_level
  changed-IsTable level h =
      update_task-IsTable m.tasks m.latest_id task (set_level level) (λ u. refl) (λ u k. h) busy
        v.table

  wanted_level : (level : ℤ) → IsLevel level → wakeup_level level (level_of m task) ≤ max_level
  wanted_level (pos level) h = h
  wanted_level (negsuc n) h = level_of-IsTable m task v.table

  change_level_running-IsScheduled :
      (level : ℤ)
      → IsLevel level
      → t.running ≡ true
      → IsScheduled (change_level_running m task level)
  unfolding change_level_running change_level_other change_level_myself
  change_level_running-IsScheduled (negsuc n) h runs = v
  change_level_running-IsScheduled (pos level) h runs =
      elim (Bool-cases (level == level_of m task)) [
        | inl same ↦ rw same v
        | inr differs ↦ rw differs (elim (Bool-cases (task == current_task m)) [
          | inl mine ↦ rw mine (record {
            table = changed-IsTable level h;
            queues = myself-IsFiled m task t v found busy runs level h ((==_iff _ _).0 mine);
            current = myself-IsCurrent m task t v found busy runs level;
          })
          | inr others ↦ rw others (record {
            table = changed-IsTable level h;
            queues = other-IsFiled m task t v found busy runs level h;
            current = other-IsCurrent m task t v found busy runs level (λ e. ground arith);
          })
        ])
      ]

  -- `Wakeup` of any task but the idle task, at a level that exists, keeps the invariant.
  pub wakeup-IsScheduled : (level : ℤ) → IsLevel level → IsScheduled (wakeup m task level)
  wakeup-IsScheduled level h =
      let running = is_running_lem m task t found in
      elim (Bool-cases t.running) [
        | inl runs ↦
            rw (wakeup_running m task level (running ∙ runs))
              (change_level_running-IsScheduled level h runs)
        | inr still ↦ rw (wakeup_still m task level (running ∙ still)) (
            awake-IsScheduled m task t v found busy (wakeup_level level (level_of m task))
              (wanted_level level h) still)
      ]
