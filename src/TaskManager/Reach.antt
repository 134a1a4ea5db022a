-- ===== src/TaskManager/Reach.antt =====
-- The scheduler from the start of the kernel on: every history of operations keeps its invariant.
use duvuvurkarpogeschel.Prelude.{
  ℕ, ◌+◌, ◌≡◌, ◌≢◌, refl, none, some, [], ◌∷◌, ◌++◌, ◌==◌, if◌then◌else◌, arith, ℕ_discrete,
}
use duvuvurkarpogeschel.Prelude.Int.{ℤ}
use duvuvurkarpogeschel.Task.{Task, TaskContext, new, set_level, set_running}
use duvuvurkarpogeschel.RunQueue.{find_task, update_task, with_queue, is_nil}
use duvuvurkarpogeschel.Prelude.Map.{lookup}
use duvuvurkarpogeschel.TaskManager.{
  TaskManager, current_task, new_task, wakeup, sleep, switch_task, send_message, finish,
  wait_finish, waiting,
}
use duvuvurkarpogeschel.TaskManager.Table.{
  count, append-Distinct, find_task-append, find_task-append_ne,
}
use duvuvurkarpogeschel.TaskManager.Invariant.{IsScheduled, idle_id}
use duvuvurkarpogeschel.Message.{Message}
use duvuvurkarpogeschel.Error.{ok}
use duvuvurkarpogeschel.TaskManager.Operations.{wakeup-IsScheduled, IsLevel}
use duvuvurkarpogeschel.Task.{init_context}
use duvuvurkarpogeschel.TaskManager.{new_manager}
use duvuvurkarpogeschel.TaskManager.Sleep.{sleep-IsScheduled}
use duvuvurkarpogeschel.TaskManager.Switching.{switch_task-IsScheduled}
use duvuvurkarpogeschel.TaskManager.Mailbox.{deliver-IsScheduled, send_message-ok}
use duvuvurkarpogeschel.TaskManager.Exit.{finish-IsScheduled}
use duvuvurkarpogeschel.TaskManager.Waiting.{wait_finish-IsScheduled}

-- `NewTask` keeps the invariant: the new task sleeps.
new_task-IsScheduled : (m : TaskManager) → IsScheduled m → IsScheduled (new_task m)
unfolding new_task new
new_task-IsScheduled m v =
    let id = m.latest_id + 1 in
    let absent = v.table.fresh id (omega arith) in
    let found = λ (a : ℕ). find_task_new m v a in
    record {
      table = record {
        distinct = append-Distinct m.tasks (new id) v.table.distinct absent;
        fresh = λ a h. ground (arith, found a, v.table.fresh a);
        levels = λ a. ground (arith, found a, v.table.levels a);
        idle = ground (arith, found idle_id, absent, v.table.idle);
      };
      queues = record {
        filed = λ l a. ground (arith, found a, absent, v.queues.filed l a);
        bounded = v.queues.bounded;
      };
      current = v.current;
    }
  where
    find_task_new :
        (m : TaskManager) (v : IsScheduled m) (a : ℕ)
        → find_task a (m.tasks ++ new (m.latest_id + 1) ∷ [])
          ≡ (if m.latest_id + 1 == a then some (new (m.latest_id + 1)) else find_task a m.tasks)
    find_task_new m v a = elim (ℕ_discrete (m.latest_id + 1) a) [
      | yes same ↦ ground (
        arith,
        find_task-append a m.tasks (new (m.latest_id + 1)) (v.table.fresh a (omega arith)),
      )
      | no other ↦ ground (arith, find_task-append_ne a m.tasks (new (m.latest_id + 1)) other)
    ]

module _ (cr3 stack_end idle : ℕ) where
  pub new_manager-IsScheduled : IsScheduled (new_manager cr3 stack_end idle)
  unfolding new_manager new_task new set_running set_level init_context with_queue find_task
      update_task count is_nil
  new_manager-IsScheduled = record {
    table = record {
      distinct = (refl, (refl, tt));
      fresh = λ a h. ground arith;
      levels = λ a. ground arith;
      idle = refl;
    };
    queues = record { filed = λ l a. ground arith; bounded = λ l h. ground arith };
    current = record { occupied = refl; top = λ e l h. ground arith };
  }

-- One operation of the scheduler, with what its callers keep: they name a task that
-- exists, ask for a level that exists, and leave the idle task alone; and the task that waits for
-- another to end is still there, and is neither that one nor the idle task.
pub data Step : TaskManager → TaskManager → Type 0 where
  create : (m : TaskManager) → Step m (new_task m)
  wake :
      (m : TaskManager) (task : ℕ) (t : Task) (level : ℤ)
      → find_task task m.tasks ≡ some t
      → task ≢ idle_id
      → IsLevel level
      → Step m (wakeup m task level)
  stop :
      (m : TaskManager) (task : ℕ) (t : Task)
      → find_task task m.tasks ≡ some t
      → task ≢ idle_id
      → Step m (sleep m task).0
  tick : (m : TaskManager) (ctx : TaskContext) → Step m (switch_task m ctx).0
  send :
      (m : TaskManager) (id : ℕ) (msg : Message) (m' : TaskManager)
      → id ≢ idle_id
      → send_message m id msg ≡ ok m'
      → Step m m'
  exit :
      (m : TaskManager) (exit_code : ℤ)
      → current_task m ≢ idle_id
      → ((w : ℕ)
          → lookup (current_task m) m.finish_waiter ≡ some w
          → (w ≢ idle_id) × (w ≢ current_task m) × (find_task w m.tasks ≢ none))
      → Step m (finish m exit_code).0
  wait :
      (m : TaskManager) (task_id : ℕ)
      → current_task m ≢ idle_id
      → Step m (waiting (wait_finish m task_id))

pub data Reach (m : TaskManager) : TaskManager → Type 0 where
  here : Reach m m
  next : {m' m'' : TaskManager} → Reach m m' → Step m' m'' → Reach m m''

Step-IsScheduled : {m m' : TaskManager} → Step m m' → IsScheduled m → IsScheduled m'
Step-IsScheduled (create m) v = new_task-IsScheduled m v
Step-IsScheduled (wake m task t level found busy h) v =
    wakeup-IsScheduled m task t v found busy level h
Step-IsScheduled (stop m task t found busy) v = sleep-IsScheduled m task t v found busy
Step-IsScheduled (tick m ctx) v = (switch_task-IsScheduled m ctx v).0
Step-IsScheduled (send m id msg m' busy e) v =
    let (t, found, same) = send_message-ok m id msg m' e in
    rw same (deliver-IsScheduled m id msg t v found busy)
Step-IsScheduled (exit m code busy h) v = (finish-IsScheduled m v busy code h).0
Step-IsScheduled (wait m task_id busy) v = wait_finish-IsScheduled m task_id v busy

-- From the start of the kernel on, after any history of operations, each task that runs stands once in the queue of its level
-- and nothing else does, and the current level has a task and is the highest that has one unless a change of level is noted.
pub Reach-IsScheduled :
    (cr3 stack_end idle : ℕ) {m : TaskManager}
    → Reach (new_manager cr3 stack_end idle) m
    → IsScheduled m
Reach-IsScheduled cr3 stack_end idle here = new_manager-IsScheduled cr3 stack_end idle
Reach-IsScheduled cr3 stack_end idle (next r s) =
    Step-IsScheduled s (Reach-IsScheduled cr3 stack_end idle r)
