-- ===== src/TaskManager/Current.antt =====
-- The maps of exit codes and waiters, and the current task.
use duvuvurkarpogeschel.Prelude.{ℕ, ◌≤◌, ◌≡◌, refl, true, Option, none, some, arith}
use duvuvurkarpogeschel.Task.{Task}
use duvuvurkarpogeschel.RunQueue.{find_task, front}
use duvuvurkarpogeschel.TaskManager.{TaskManager, current_task}
use duvuvurkarpogeschel.TaskManager.Table.{count-pop_front}
use duvuvurkarpogeschel.TaskManager.Invariant.{IsScheduled, placed}

placed_inv :
    (o : Option Task) (l : ℕ)
    → 1 ≤ placed o l
    → (t : Task) × (o ≡ some t) × (t.running ≡ true) × (t.level ≡ l)
placed_inv none l h = absurd (omega arith)
placed_inv (some t) l h = (t, refl, ground arith, ground arith)

-- The current task is in the table, runs, and has the current level.
pub current_found :
    (m : TaskManager)
    → IsScheduled m
    → (t : Task) × (find_task (current_task m) m.tasks ≡ some t)
      × (t.running ≡ true)
      × (t.level ≡ m.current_level)
unfolding current_task
current_found m v =
    let queue = m.running m.current_level in
    placed_inv (find_task (front queue) m.tasks) m.current_level (
      ground (
        arith,
        v.queues.filed m.current_level (front queue),
        count-pop_front (front queue) queue v.current.occupied,
      ))
