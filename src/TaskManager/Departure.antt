-- ===== src/TaskManager/Departure.antt =====
-- The manager in the middle of `Finish`: the current task has left the queues and the table.
use duvuvurkarpogeschel.Prelude.{
  ℕ, suc, ◌≡◌, ◌≢◌, refl, ap, Bool, true, false, ◌||◌, Option, none, some, ◌==◌, if◌then◌else◌,
  arith, inl, inr, Option-cases,
}
use duvuvurkarpogeschel.Prelude.Int.{ℤ, negsuc}
use duvuvurkarpogeschel.RunQueue.{find_task, with_queue, pop_front, is_nil, remove_task}
use duvuvurkarpogeschel.Prelude.Map.{lookup, erase, insert}
use duvuvurkarpogeschel.TaskManager.{
  TaskManager, max_level, choose_level, highest_level, rotate_current_run_queue, current_task,
  finish, wake_waiter, restore,
}
use duvuvurkarpogeschel.TaskManager.Table.{find_task-remove_task, remove_task-Distinct}
use duvuvurkarpogeschel.TaskManager.Invariant.{
  IsScheduled, IsTable, IsFiled, only, idle_id, rotate-asleep,
}
use duvuvurkarpogeschel.TaskManager.Operations.{wakeup-IsScheduled}
use duvuvurkarpogeschel.TaskManager.Current.{current_found}

abbrev choose_if : Bool → TaskManager → TaskManager
choose_if b m =
    if b
    then record m {
      level_changed = false;
      current_level = highest_level m.running m.current_level (suc max_level);
    }
    else m

-- Ending a task does not matter to the choice of a level.
choose_if-end :
    (b : Bool) (r : TaskManager) (task : ℕ) (exit_code : ℤ)
    → ◌≡◌ {A = TaskManager}
        (record (choose_if b r) {
          tasks = remove_task task (choose_if b r).tasks;
          finish_tasks = insert task exit_code (choose_if b r).finish_tasks;
        })
        (record (choose_if b (record r { tasks = remove_task task r.tasks })) {
          finish_tasks = insert task exit_code r.finish_tasks;
        })
choose_if-end true r task exit_code = refl
choose_if-end false r task exit_code = refl

module _ (m : TaskManager) (v : IsScheduled m) (busy : current_task m ≢ idle_id) where
  abbrev pub without : TaskManager
  without = record m { tasks = remove_task (current_task m) m.tasks }

  found-without :
      (a : ℕ)
      → find_task a without.tasks ≡ (if current_task m == a then none else find_task a m.tasks)
  found-without a = find_task-remove_task a (current_task m) m.tasks v.table.distinct

  without-IsTable : IsTable without.tasks m.latest_id
  without-IsTable = record {
    distinct = remove_task-Distinct (current_task m) m.tasks v.table.distinct;
    fresh = λ a h. rw (found-without a, v.table.fresh a h) (ground arith);
    levels = λ a. rw (found-without a) (ground (arith, v.table.levels a));
    idle = rw (found-without idle_id) (ground (arith, v.table.idle));
  }

  without-IsFiled : IsFiled without.tasks m.running m.current_level (only (current_task m))
  without-IsFiled =
      let (t, found, runs, level) = current_found m v in
      record {
        filed = λ l a.
            let here : current_task m ≡ a → find_task a m.tasks ≡ some t =
              λ same. rw (← same) found in
            rw (found-without a) (ground (arith, here, v.queues.filed l a, runs, level));
        bounded = v.queues.bounded;
      }

  abbrev pub gone : TaskManager
  gone = (rotate_current_run_queue without true).1

  gone-IsScheduled : IsScheduled gone
  unfolding current_task
  gone-IsScheduled = (rotate-asleep without without-IsTable v.current without-IsFiled).0

  -- The manager that `Finish` has before it looks for a waiter.
  abbrev pub ended : ℤ → TaskManager
  ended exit_code = record gone { finish_tasks = insert (current_task m) exit_code m.finish_tasks }

  ended-IsScheduled : (exit_code : ℤ) → IsScheduled (ended exit_code)
  ended-IsScheduled exit_code = record {
    table = gone-IsScheduled.table;
    queues = gone-IsScheduled.queues;
    current = gone-IsScheduled.current;
  }

  pub finish-ended :
      (exit_code : ℤ)
      → finish m exit_code ≡ (
          let woken =
            wake_waiter
              (ended exit_code)
              (current_task m)
              (lookup (current_task m) (ended exit_code).finish_waiter) in
          (woken, restore (current_task woken)))
  unfolding finish rotate_current_run_queue choose_level current_task
  finish-ended exit_code =
      let level_queue = pop_front (m.running m.current_level) in
      ap
        (λ done.
          let woken =
            wake_waiter done (current_task m) (lookup (current_task m) done.finish_waiter) in
          (woken, restore (current_task woken)))
        (choose_if-end (m.level_changed || is_nil level_queue)
          (record m {
            running = with_queue m.running m.current_level level_queue;
            level_changed = m.level_changed || is_nil level_queue;
          })
          (current_task m) exit_code)

  tasks-gone : gone.tasks ≡ remove_task (current_task m) m.tasks
  unfolding rotate_current_run_queue choose_level
  tasks-gone = ground arith

  pub finish_waiter-gone : gone.finish_waiter ≡ m.finish_waiter
  unfolding rotate_current_run_queue choose_level
  finish_waiter-gone = ground arith

  pub found-gone :
      (a : ℕ) → find_task a gone.tasks ≡ (if current_task m == a then none else find_task a m.tasks)
  found-gone a = rw tasks-gone (found-without a)

  pub wake_waiter-IsScheduled :
      (exit_code : ℤ) (o : Option ℕ)
      → ((w : ℕ) → o ≡ some w → (w ≢ idle_id) × (w ≢ current_task m) × (find_task w m.tasks ≢ none))
      → IsScheduled (wake_waiter (ended exit_code) (current_task m) o)
  unfolding wake_waiter
  wake_waiter-IsScheduled exit_code none h = ended-IsScheduled exit_code
  wake_waiter-IsScheduled exit_code (some w) h = elim (Option-cases (find_task w m.tasks)) [
    | inl missing ↦ absurd ((h w refl).2 missing)
    | inr (t, found) ↦
        let e = ended-IsScheduled exit_code in
        wakeup-IsScheduled
          (record (ended exit_code) {
            finish_waiter = erase (current_task m) (ended exit_code).finish_waiter;
          })
          w t (record { table = e.table; queues = e.queues; current = e.current })
          (rw (found-gone w) (ground (arith, h w refl, found))) (h w refl).0 (negsuc 0) tt
  ]
