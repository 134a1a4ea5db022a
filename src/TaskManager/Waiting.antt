-- ===== src/TaskManager/Waiting.antt =====
-- `WaitFinish` while the other task still runs.
use duvuvurkarpogeschel.Prelude.{ℕ, ◌≡◌, ◌≢◌, ap, none, some, arith, inl, inr, Option-cases}
use duvuvurkarpogeschel.Prelude.Map.{lookup, insert}
use duvuvurkarpogeschel.TaskManager.{
  TaskManager, current_task, sleep, wait_finish, waiting, asleep, waited, Switch, Switch,
}
use duvuvurkarpogeschel.TaskManager.Table.{count}
use duvuvurkarpogeschel.TaskManager.Invariant.{IsScheduled, idle_id}
use duvuvurkarpogeschel.TaskManager.Sleep.{sleep_lem, finish_waiter-sleep}
use duvuvurkarpogeschel.TaskManager.Current.{current_found}
use duvuvurkarpogeschel.Prelude.Map.{lookup-insert}

module _ (m : TaskManager) (task_id : ℕ) (v : IsScheduled m) (busy : current_task m ≢ idle_id)
    (pending : lookup task_id m.finish_tasks ≡ none) where
  -- While there is no exit code, `WaitFinish` notes the current task as the one that waits, and
  -- puts it to sleep; the invariant holds for the task that runs next.
  pub wait_finish_sleeps :
      (m' : TaskManager) × (sw : Switch) × (wait_finish m task_id ≡ asleep m' sw)
      × IsScheduled m'
      × (lookup task_id m'.finish_waiter ≡ some (current_task m))
      × ((l : ℕ) → count (current_task m) (m'.running l) ≡ 0)
  unfolding wait_finish waited
  wait_finish_sleeps =
      let (t, found, runs, level) = current_found m v in
      let noted : TaskManager = record m {
        finish_waiter = insert task_id (current_task m) m.finish_waiter;
      } in
      let vn : IsScheduled noted = record {
        table = v.table;
        queues = v.queues;
        current = v.current;
      } in
      let (after, counts) = sleep_lem noted (current_task m) t vn found busy runs in
      (
        (sleep noted (current_task m)).0,
        (sleep noted (current_task m)).1,
        ap (waited m task_id) pending,
        after,
        ground (
          arith,
          ap (lookup task_id) (finish_waiter-sleep noted (current_task m) t vn found busy runs),
          lookup-insert task_id task_id (current_task m) m.finish_waiter,
        ),
        λ l. ground (arith, counts l (current_task m)),
      )

-- A round of `WaitFinish` that returns has only forgotten the exit code.
pub wait_finish-IsScheduled :
    (m : TaskManager) (task_id : ℕ)
    → IsScheduled m
    → current_task m ≢ idle_id
    → IsScheduled (waiting (wait_finish m task_id))
unfolding wait_finish waited
wait_finish-IsScheduled m task_id v busy = elim (Option-cases (lookup task_id m.finish_tasks)) [
  | inl pending ↦
      let (m', sw, e, after, noted, stopped) = wait_finish_sleeps m task_id v busy pending in
      rw e after
  | inr (code, known) ↦
      rw known (record { table = v.table; queues = v.queues; current = v.current })
]
