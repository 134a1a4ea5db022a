-- ===== src/TaskManager/Sleep.antt =====
-- `Sleep`, and the rotation that switches tasks.
use duvuvurkarpogeschel.Prelude.{
  ℕ, ◌≡◌, ◌≢◌, refl, ap, ◌∙◌, true, false, some, List, ◌==◌, if◌then◌else◌, arith, Bool-cases,
  ==_iff, inl, inr,
}
use duvuvurkarpogeschel.Task.{Task, set_running}
use duvuvurkarpogeschel.RunQueue.{find_task, update_task, with_queue, front, erase_all}
use duvuvurkarpogeschel.TaskManager.{
  TaskManager, choose_level, rotate_current_run_queue, current_task, level_of, is_running, sleep,
  sleep_myself, sleep_other, Switch, stay,
}
use duvuvurkarpogeschel.TaskManager.Table.{
  count, count-erase_all, count-with_queue, is_nil-with_queue, is_nil-erase_all_nil,
  find_task-update_task,
}
use duvuvurkarpogeschel.TaskManager.Invariant.{
  IsScheduled, IsTable, IsFiled, IsCurrent, nobody, only, idle_id, rotate-asleep,
}
use duvuvurkarpogeschel.TaskManager.Wake.{is_running_lem, update_task-IsTable}
use duvuvurkarpogeschel.TaskManager.Level.{seen, kept, current_level_lem}

module _ (m : TaskManager) (task : ℕ) (t : Task) (v : IsScheduled m)
    (found : find_task task m.tasks ≡ some t) (busy : task ≢ idle_id)
    (runs : t.running ≡ true) where
  abbrev stopped : TaskManager
  stopped = record m { tasks = update_task task (set_running false) m.tasks }

  stopped-IsTable : IsTable stopped.tasks stopped.latest_id
  unfolding set_running
  stopped-IsTable =
      update_task-IsTable m.tasks m.latest_id task (set_running false) (λ u. refl) (λ u k. k) busy
        v.table

  -- Before the rotation the current task still stands in its queue.
  stopped-IsFiled :
      task ≡ current_task m → IsFiled stopped.tasks m.running m.current_level (only task)
  unfolding set_running
  stopped-IsFiled same = record {
    filed = λ l a. rw (find_task-update_task a task (set_running false) m.tasks (λ u. refl)) (
        ground (
          arith,
          current_level_lem m task t v found busy runs same,
          seen m task t v found busy runs a,
          v.queues.filed l a,
        ));
    bounded = v.queues.bounded;
  }

  sleep_myself-IsScheduled :
      task ≡ current_task m
      → IsScheduled (sleep_myself stopped).0 × ((sleep_myself stopped).0.level_changed ≡ false)
  unfolding sleep_myself current_task
  sleep_myself-IsScheduled same =
      rotate-asleep stopped stopped-IsTable v.current (rw (← same) (stopped-IsFiled same))

  stopped_level : level_of stopped task ≡ t.level
  unfolding level_of set_running
  stopped_level =
      rw (find_task-update_task task task (set_running false) m.tasks (λ u. refl), found)
        (ground arith)

  -- The queues once another task has left the queue `own`.
  abbrev left : ℕ → ℕ → List ℕ
  left own = with_queue m.running own (erase_all task (m.running own))

  left-IsFiled : (own : ℕ) → own ≡ t.level → IsFiled stopped.tasks (left own) m.current_level nobody
  unfolding set_running
  left-IsFiled own e = record {
    filed = λ l a. rw (find_task-update_task a task (set_running false) m.tasks (λ u. refl)) (
        ground (
          arith,
          seen m task t v found busy runs a,
          v.queues.filed l a,
          count-with_queue a m.running own (erase_all task (m.running own)) l,
          count-erase_all a task (m.running own),
        ));
    bounded = λ l k. ground (
      arith,
      v.queues.bounded l k,
      is_nil-with_queue m.running own (erase_all task (m.running own)) l,
      is_nil-erase_all_nil task (m.running own),
    );
  }

  left-IsCurrent :
      (own : ℕ) → task ≢ current_task m → IsCurrent (left own) m.current_level m.level_changed
  left-IsCurrent own apart = record {
    occupied = ground (
      arith,
      v.current.occupied,
      is_nil-with_queue m.running own (erase_all task (m.running own)) m.current_level,
      kept m task t v found busy runs apart,
    );
    top = λ e l h. ground (
      arith,
      v.current.top e l h,
      is_nil-with_queue m.running own (erase_all task (m.running own)) l,
      is_nil-erase_all_nil task (m.running own),
    );
  }

  sleep_other-IsScheduled : task ≢ current_task m → IsScheduled (sleep_other stopped task).0
  unfolding sleep_other
  sleep_other-IsScheduled apart = record {
    table = stopped-IsTable;
    queues = left-IsFiled (level_of stopped task) stopped_level;
    current = left-IsCurrent (level_of stopped task) apart;
  }

  sleep_cases :
      (P : TaskManager × Switch → Type 0)
      → (task ≡ current_task m → P (sleep_myself stopped))
      → (task ≢ current_task m → P (sleep_other stopped task))
      → P (sleep m task)
  unfolding sleep is_running current_task
  sleep_cases P mine others =
      rw (found, runs)
        (elim (Bool-cases (task == front (m.running m.current_level))) [
          | inl same ↦ rw same (mine ((==_iff _ _).0 same))
          | inr apart ↦ rw apart (others (λ e. ground arith))
        ])

  sleep_running : IsScheduled (sleep m task).0
  sleep_running =
      sleep_cases (λ r. IsScheduled r.0) (λ same. (sleep_myself-IsScheduled same).0)
        sleep_other-IsScheduled

  abbrev Stopped : TaskManager × Switch → Type 0
  Stopped r =
      (r.0.tasks ≡ update_task task (set_running false) m.tasks)
      × (r.0.finish_waiter ≡ m.finish_waiter)

  sleep-Stopped : Stopped (sleep m task)
  unfolding sleep_myself sleep_other rotate_current_run_queue choose_level
  sleep-Stopped = sleep_cases Stopped (λ same. ground arith) (λ apart. ground arith)

  pub finish_waiter-sleep : (sleep m task).0.finish_waiter ≡ m.finish_waiter
  finish_waiter-sleep = sleep-Stopped.1

  -- A task that `Sleep` stops leaves the run queues; the other tasks stay in theirs, and the
  -- invariant holds. The task is not the idle task.
  pub sleep_lem :
      IsScheduled (sleep m task).0
      × ((l a : ℕ)
          → count a ((sleep m task).0.running l) ≡ (if task == a then 0 else count a (m.running l)))
  unfolding set_running
  sleep_lem = (
    sleep_running,
    λ l a. ground (
      arith,
      seen m task t v found busy runs a,
      sleep_running.queues.filed l a,
      v.queues.filed l a,
      ap (λ tasks. find_task a tasks) sleep-Stopped.0,
      find_task-update_task a task (set_running false) m.tasks (λ u. refl),
    ),
  )

sleep_still : (m : TaskManager) (task : ℕ) → is_running m task ≡ false → sleep m task ≡ (m, stay)
unfolding sleep
sleep_still m task still = rw still

-- `Sleep` of any task but the idle task keeps the invariant.
pub sleep-IsScheduled :
    (m : TaskManager) (task : ℕ) (t : Task)
    → IsScheduled m
    → find_task task m.tasks ≡ some t
    → task ≢ idle_id
    → IsScheduled (sleep m task).0
sleep-IsScheduled m task t v found busy = elim (Bool-cases t.running) [
  | inl runs ↦ sleep_running m task t v found busy runs
  | inr still ↦ rw (sleep_still m task (is_running_lem m task t found ∙ still)) v
]
