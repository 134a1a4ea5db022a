-- ===== src/TaskManager/Exit.antt =====
-- `Finish`: a task ends, and its exit code is kept for the task that waits.
use duvuvurkarpogeschel.Prelude.{ℕ, ◌≡◌, ◌≢◌, refl, ap, sym, ◌∙◌, true, Option, none, some, arith}
use duvuvurkarpogeschel.Prelude.Int.{ℤ, pos, negsuc}
use duvuvurkarpogeschel.Task.{set_level, set_running}
use duvuvurkarpogeschel.RunQueue.{find_task}
use duvuvurkarpogeschel.Prelude.Map.{lookup, erase, insert}
use duvuvurkarpogeschel.TaskManager.{
  TaskManager, wakeup, change_level_running, change_level_other, change_level_myself, current_task,
  level_of, change_level_other, change_level_myself, change_level_running, wakeup, finish,
  wait_finish, done, wake_waiter, waited,
}
use duvuvurkarpogeschel.TaskManager.Table.{find_task-update_task}
use duvuvurkarpogeschel.TaskManager.Invariant.{IsScheduled, idle_id}
use duvuvurkarpogeschel.Prelude.Map.{lookup-erase, lookup-insert}
use duvuvurkarpogeschel.TaskManager.Departure.{
  ended, wake_waiter-IsScheduled, finish-ended, finish_waiter-gone, found-gone,
}

finish_tasks-wakeup :
    (m : TaskManager) (task : ℕ) (level : ℤ) → (wakeup m task level).finish_tasks ≡ m.finish_tasks
unfolding wakeup change_level_running change_level_other change_level_myself
finish_tasks-wakeup m task (pos level) = ground arith
finish_tasks-wakeup m task (negsuc n) = ground arith

finish_tasks-wake_waiter :
    (m : TaskManager) (task_id : ℕ) (o : Option ℕ)
    → (wake_waiter m task_id o).finish_tasks ≡ m.finish_tasks
unfolding wake_waiter
finish_tasks-wake_waiter m task_id none = refl
finish_tasks-wake_waiter m task_id (some w) =
    finish_tasks-wakeup (record m { finish_waiter = erase task_id m.finish_waiter }) w (negsuc 0)

find_task-wakeup-none :
    (m : TaskManager) (task : ℕ) (level : ℤ) (a : ℕ)
    → find_task a m.tasks ≡ none
    → find_task a (wakeup m task level).tasks ≡ none
unfolding wakeup change_level_running change_level_other change_level_myself set_level set_running
find_task-wakeup-none m task (pos level) a h = ground (
  arith,
  find_task-update_task a task (set_level level) m.tasks (λ u. refl),
  find_task-update_task a task (λ t. set_running true (set_level level t)) m.tasks (λ u. refl),
)
find_task-wakeup-none m task (negsuc n) a h = ground (
  arith,
  find_task-update_task a task (λ t. set_running true (set_level (level_of m task) t)) m.tasks
      (λ u. refl),
)

find_task-wake_waiter-none :
    (m : TaskManager) (task_id : ℕ) (o : Option ℕ) (a : ℕ)
    → find_task a m.tasks ≡ none
    → find_task a (wake_waiter m task_id o).tasks ≡ none
unfolding wake_waiter
find_task-wake_waiter-none m task_id none a h = h
find_task-wake_waiter-none m task_id (some w) a h =
    find_task-wakeup-none (record m { finish_waiter = erase task_id m.finish_waiter }) w (negsuc 0)
      a h

module _ (m : TaskManager) (v : IsScheduled m) (busy : current_task m ≢ idle_id)
    (exit_code : ℤ) where
  -- `Finish` of a task other than the idle task removes it and keeps the invariant, if the task that waits for it
  -- is another, and neither the idle task nor one that is gone.
  pub finish-IsScheduled :
      ((w : ℕ)
        → lookup (current_task m) m.finish_waiter ≡ some w
        → (w ≢ idle_id) × (w ≢ current_task m) × (find_task w m.tasks ≢ none))
      → IsScheduled (finish m exit_code).0
        × (find_task (current_task m) (finish m exit_code).0.tasks ≡ none)
  finish-IsScheduled h =
      let o = lookup (current_task m) (ended m v busy exit_code).finish_waiter in
      rw (finish-ended m v busy exit_code) (
        wake_waiter-IsScheduled m v busy exit_code o
            (λ w e. h w (ap (lookup (current_task m)) (sym (finish_waiter-gone m v busy)) ∙ e)),
        find_task-wake_waiter-none (ended m v busy exit_code) (current_task m) o (current_task m)
            (rw (found-gone m v busy (current_task m)) (ground arith)),
      )

  finish_tasks-finish :
      (finish m exit_code).0.finish_tasks ≡ insert (current_task m) exit_code m.finish_tasks
  finish_tasks-finish = rw (finish-ended m v busy exit_code) (
      finish_tasks-wake_waiter (ended m v busy exit_code) (current_task m)
        (lookup (current_task m) (ended m v busy exit_code).finish_waiter))

  -- After `Finish`, `WaitFinish` for that task returns its exit code at once, and does so only once: the code is then forgotten.
  pub finish_delivers :
      let m' = (finish m exit_code).0 in
      let m'' : TaskManager = record m' { finish_tasks = erase (current_task m) m'.finish_tasks } in
      (wait_finish m' (current_task m) ≡ done exit_code m'')
      × (lookup (current_task m) m''.finish_tasks ≡ none)
  unfolding wait_finish waited
  finish_delivers =
      let m' = (finish m exit_code).0 in
      let code : lookup (current_task m) m'.finish_tasks ≡ some exit_code = ground (
        arith,
        ap (lookup (current_task m)) finish_tasks-finish,
        lookup-insert (current_task m) (current_task m) exit_code m.finish_tasks,
      ) in
      (
        ap (waited m' (current_task m)) code,
        rw (lookup-erase (current_task m) (current_task m) m'.finish_tasks) (ground arith),
      )
