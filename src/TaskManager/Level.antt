-- ===== src/TaskManager/Level.antt =====
-- `ChangeLevelRunning`, for the current task and for another.
use duvuvurkarpogeschel.Prelude.{
  ℕ, ◌≤◌, ◌≡◌, ◌≢◌, refl, sym, ◌∙◌, true, false, some, [], ◌∷◌, ◌++◌, arith,
}
use duvuvurkarpogeschel.Task.{Task, set_level}
use duvuvurkarpogeschel.RunQueue.{find_task, with_queue, pop_front, is_nil, erase_all}
use duvuvurkarpogeschel.TaskManager.{
  TaskManager, max_level, current_task, level_of, change_level_other, change_level_myself,
}
use duvuvurkarpogeschel.TaskManager.Table.{
  count-append, count-one, count-pop_front, count-erase_all, is_nil-append_one, count-with_queue,
  is_nil-with_queue, is_nil-erase_all, is_nil-erase_all_nil, is_nil-pop_front, is_nil-cons,
  count-cons, find_task-update_task,
}
use duvuvurkarpogeschel.TaskManager.Invariant.{IsScheduled, IsFiled, IsCurrent, nobody, idle_id}

-- What a queue or a table shows of a task that runs.
module _ (m : TaskManager) (task : ℕ) (t : Task) (v : IsScheduled m)
    (found : find_task task m.tasks ≡ some t) (busy : task ≢ idle_id)
    (runs : t.running ≡ true) where
  pub level_found : level_of m task ≡ t.level
  unfolding level_of
  level_found = rw found

  pub seen : (a : ℕ) → task ≡ a → find_task a m.tasks ≡ some t
  seen a same = rw (← same) found

  pub other-IsFiled :
      (level : ℕ)
      → level ≤ max_level
      → let m' = change_level_other m task level in
        IsFiled m'.tasks m'.running m'.current_level nobody
  unfolding change_level_other set_level
  other-IsFiled level h =
      let own = level_of m task in
      let gone = erase_all task (m.running own) in
      let erased = with_queue m.running own gone in
      record {
        filed = λ l a.
            rw (find_task-update_task a task (λ t. set_level level t) m.tasks (λ u. refl)) (
              ground (
                arith,
                level_found,
                seen a,
                v.queues.filed l a,
                v.queues.filed level a,
                count-with_queue a erased level (erased level ++ task ∷ []) l,
                count-append a (erased level) (task ∷ []),
                count-one a task,
                count-with_queue a m.running own gone l,
                count-with_queue a m.running own gone level,
                count-erase_all a task (m.running own),
              ));
        bounded = λ l k. ground (
          arith,
          v.queues.bounded l k,
          is_nil-with_queue erased level (erased level ++ task ∷ []) l,
          is_nil-with_queue m.running own gone l,
          is_nil-erase_all_nil task (m.running own),
        );
      }

  pub kept : task ≢ current_task m → is_nil (erase_all task (m.running m.current_level)) ≡ false
  unfolding current_task
  kept apart =
      is_nil-erase_all task (m.running m.current_level) (λ same. apart (sym same))
      ∙ v.current.occupied

  pub other-IsCurrent :
      (level : ℕ)
      → task ≢ current_task m
      → let m' = change_level_other m task level in
        IsCurrent m'.running m'.current_level m'.level_changed
  unfolding change_level_other current_task
  other-IsCurrent level apart =
      let own = level_of m task in
      let gone = erase_all task (m.running own) in
      let erased = with_queue m.running own gone in
      record {
        occupied = ground (
          arith,
          v.current.occupied,
          is_nil-with_queue erased level (erased level ++ task ∷ []) m.current_level,
          is_nil-append_one (erased level) task,
          is_nil-with_queue m.running own gone m.current_level,
          kept apart,
        );
        top = λ e l h. ground (
          arith,
          v.current.top (ground arith) l h,
          is_nil-with_queue erased level (erased level ++ task ∷ []) l,
          is_nil-with_queue m.running own gone l,
          is_nil-erase_all_nil task (m.running own),
        );
      }

  -- The current task is a task of the current level.
  pub current_level_lem : task ≡ current_task m → t.level ≡ m.current_level
  unfolding current_task
  current_level_lem same = ground (
    arith,
    seen task refl,
    v.current.occupied,
    v.queues.filed m.current_level task,
    count-pop_front task (m.running m.current_level) v.current.occupied,
  )

  pub myself-IsFiled :
      (level : ℕ)
      → level ≤ max_level
      → task ≡ current_task m
      → let m' = change_level_myself m task level in
        IsFiled m'.tasks m'.running m'.current_level nobody
  unfolding change_level_myself set_level current_task
  myself-IsFiled level h same =
      let rest = pop_front (m.running m.current_level) in
      let popped = with_queue m.running m.current_level rest in
      record {
        filed = λ l a.
            rw (find_task-update_task a task (λ t. set_level level t) m.tasks (λ u. refl)) (
              ground (
                arith,
                current_level_lem same,
                seen a,
                v.queues.filed l a,
                v.queues.filed level a,
                count-with_queue a popped level (task ∷ popped level) l,
                count-cons a task (popped level),
                count-with_queue a m.running m.current_level rest l,
                count-with_queue a m.running m.current_level rest level,
                count-pop_front a (m.running m.current_level) v.current.occupied,
              ));
        bounded = λ l k. ground (
          arith,
          v.queues.bounded l k,
          is_nil-with_queue popped level (task ∷ popped level) l,
          is_nil-with_queue m.running m.current_level rest l,
          is_nil-pop_front (m.running m.current_level),
        );
      }

  pub myself-IsCurrent :
      (level : ℕ)
      → let m' = change_level_myself m task level in
        IsCurrent m'.running m'.current_level m'.level_changed
  unfolding change_level_myself
  myself-IsCurrent level =
      let rest = pop_front (m.running m.current_level) in
      let popped = with_queue m.running m.current_level rest in
      record {
        occupied = ground (
          arith,
          is_nil-with_queue popped level (task ∷ popped level) level,
          is_nil-cons task (popped level),
        );
        top = λ e l h. ground (
          arith,
          v.current.top (ground arith) l,
          is_nil-with_queue popped level (task ∷ popped level) l,
          is_nil-with_queue m.running m.current_level rest l,
        );
      }
