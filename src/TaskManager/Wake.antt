-- ===== src/TaskManager/Wake.antt =====
-- `Wakeup` of a task that sleeps.
use duvuvurkarpogeschel.Prelude.{
  ℕ, ◌≤◌, ◌≡◌, ◌≢◌, refl, Bool, true, false, ◌||◌, Option, none, some, List, [], ◌∷◌, ◌++◌, ◌==◌,
  ltb, arith,
}
use duvuvurkarpogeschel.Prelude.Int.{ℤ}
use duvuvurkarpogeschel.Task.{Task, set_level, set_running}
use duvuvurkarpogeschel.RunQueue.{find_task, update_task, with_queue}
use duvuvurkarpogeschel.TaskManager.{
  TaskManager, max_level, level_or, level_of, is_running, change_level_running, wakeup,
  wakeup_level,
}
use duvuvurkarpogeschel.TaskManager.Table.{
  count-append, count-one, is_nil-append_one, update_task-Distinct, count-with_queue,
  is_nil-with_queue, find_task-update_task, apply_to,
}
use duvuvurkarpogeschel.TaskManager.Invariant.{
  IsScheduled, IsTable, IsFiled, IsCurrent, nobody, idle_id,
}

-- A write to a task other than the idle task keeps the table.
pub update_task-IsTable :
    (tasks : List Task) (latest_id i : ℕ) (f : Task → Task)
    → ((t : Task) → (f t).id ≡ t.id)
    → ((t : Task) → t.level ≤ max_level → (f t).level ≤ max_level)
    → i ≢ idle_id
    → IsTable tasks latest_id
    → IsTable (update_task i f tasks) latest_id
update_task-IsTable tasks latest_id i f keeps bound other t = record {
  distinct = update_task-Distinct i f tasks keeps t.distinct;
  fresh = λ a h. rw (find_task-update_task a i f tasks keeps, t.fresh a h) refl;
  levels = λ a.
      rw (find_task-update_task a i f tasks keeps)
        (level_after (i == a) (find_task a tasks) (t.levels a));
  idle = rw (find_task-update_task idle_id i f tasks keeps) (ground (arith, t.idle));
}
  where
    level_after :
        (b : Bool) (o : Option Task)
        → level_or o ≤ max_level
        → level_or (apply_to b f o) ≤ max_level
    level_after b none h = h
    level_after true (some u) h = bound u h
    level_after false (some u) h = h

-- A task that sleeps, put at the end of the queue of its level.
abbrev pub awake : TaskManager → ℕ → ℕ → TaskManager
awake m task lv = record m {
  tasks = update_task task (λ t. set_running true (set_level lv t)) m.tasks;
  running = with_queue m.running lv (m.running lv ++ task ∷ []);
  level_changed = m.level_changed || ltb m.current_level lv;
}

pub is_running_lem :
    (m : TaskManager) (task : ℕ) (t : Task)
    → find_task task m.tasks ≡ some t
    → is_running m task ≡ t.running
unfolding is_running
is_running_lem m task t found = rw found

pub wakeup_running :
    (m : TaskManager) (task : ℕ) (level : ℤ)
    → is_running m task ≡ true
    → wakeup m task level ≡ change_level_running m task level
unfolding wakeup
wakeup_running m task level runs = rw runs

pub wakeup_still :
    (m : TaskManager) (task : ℕ) (level : ℤ)
    → is_running m task ≡ false
    → wakeup m task level ≡ awake m task (wakeup_level level (level_of m task))
unfolding wakeup
wakeup_still m task level still = rw still

module _ (m : TaskManager) (task : ℕ) (t : Task) (v : IsScheduled m)
    (found : find_task task m.tasks ≡ some t) (busy : task ≢ idle_id) where
  awake-IsFiled :
      (lv : ℕ)
      → lv ≤ max_level
      → t.running ≡ false
      → let m' = awake m task lv in IsFiled m'.tasks m'.running m'.current_level nobody
  unfolding set_level set_running
  awake-IsFiled lv h still = record {
    filed = λ l a.
        let hit : task ≡ a → find_task a m.tasks ≡ some t = λ same. rw (← same) found in
        rw
          (find_task-update_task a task (λ t. set_running true (set_level lv t)) m.tasks
            (λ u. refl))
          (ground (
            arith,
            hit,
            v.queues.filed l a,
            count-with_queue a m.running lv (m.running lv ++ task ∷ []) l,
            count-append a (m.running lv) (task ∷ []),
            count-one a task,
          ));
    bounded = λ l k.
        ground (
          arith,
          v.queues.bounded l k,
          is_nil-with_queue m.running lv (m.running lv ++ task ∷ []) l,
        );
  }

  awake-IsCurrent :
      (lv : ℕ) → let m' = awake m task lv in IsCurrent m'.running m'.current_level m'.level_changed
  awake-IsCurrent lv =
      let queue = is_nil-with_queue m.running lv (m.running lv ++ task ∷ []) in
      record {
        occupied = ground (
          arith,
          queue m.current_level,
          v.current.occupied,
          is_nil-append_one (m.running lv) task,
        );
        top = λ e l h. ground (arith, queue l, v.current.top (ground arith) l h);
      }

  pub awake-IsScheduled :
      (lv : ℕ) → lv ≤ max_level → t.running ≡ false → IsScheduled (awake m task lv)
  unfolding set_level set_running
  awake-IsScheduled lv h still = record {
    table = update_task-IsTable m.tasks m.latest_id task _ (λ u. refl) (λ u k. h) busy v.table;
    queues = awake-IsFiled lv h still;
    current = awake-IsCurrent lv;
  }
