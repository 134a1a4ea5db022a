-- ===== src/TaskManager/Invariant.antt =====
-- What holds of the scheduler between two operations, and that the rotation of the run queue
-- restores it.
use duvuvurkarpogeschel.Prelude.{
  ℕ, suc, ◌+◌, ◌≤◌, ◌<◌, ◌≡◌, refl, ap, Bool, true, false, ◌&&◌, ◌||◌, Option, none, some, List, [],
  ◌∷◌, ◌++◌, ◌==◌, if◌then◌else◌, arith, Bool-cases, inl, inr, dec_lt,
}
use duvuvurkarpogeschel.Task.{Task}
use duvuvurkarpogeschel.RunQueue.{find_task, with_queue, front, pop_front, is_nil}
use duvuvurkarpogeschel.TaskManager.{
  TaskManager, max_level, choose_level, highest_level, rotate_current_run_queue, current_task,
  level_or,
}
use duvuvurkarpogeschel.TaskManager.Table.{
  count, count-append, count-one, count-pop_front, is_nil_of_count, highest_level_lem, Distinct,
}

-- The idle task, the second that the constructor makes.
abbrev pub idle_id : ℕ
idle_id = 2

-- How often a task stands in the run queue of a level.
abbrev pub placed : Option Task → ℕ → ℕ
placed none l = 0
placed (some t) l = if t.running && t.level == l then 1 else 0

-- The task table: IDs and levels.
pub record IsTable (tasks : List Task) (latest_id : ℕ) : Type 0 where
  pub distinct : Distinct tasks
  pub fresh : (a : ℕ) → latest_id < a → find_task a tasks ≡ none
  pub levels : (a : ℕ) → level_or (find_task a tasks) ≤ max_level
  pub idle : placed (find_task idle_id tasks) 0 ≡ 1

-- Each task that runs stands once in the queue of its level, and nothing else stands in a queue,
-- but for one task `extra` of the current level that is about to leave.
pub record IsFiled (tasks : List Task) (running : ℕ → List ℕ) (current_level : ℕ) (extra : ℕ → ℕ)
    : Type 0 where
  pub filed :
      (l a : ℕ)
      → count a (running l)
        ≡ placed (find_task a tasks) l + (if l == current_level then extra a else 0)
  pub bounded : (l : ℕ) → max_level < l → is_nil (running l) ≡ true

-- The current level has a task, and is the highest that has one unless `level_changed_` is set.
pub record IsCurrent (running : ℕ → List ℕ) (current_level : ℕ) (level_changed : Bool)
    : Type 0 where
  pub occupied : is_nil (running current_level) ≡ false
  pub top : level_changed ≡ false → (l : ℕ) → current_level < l → is_nil (running l) ≡ true

abbrev pub nobody : ℕ → ℕ
nobody a = 0

abbrev pub only : ℕ → ℕ → ℕ
only task a = if task == a then 1 else 0

pub record IsScheduled (m : TaskManager) : Type 0 where
  pub table : IsTable m.tasks m.latest_id
  pub queues : IsFiled m.tasks m.running m.current_level nobody
  pub current : IsCurrent m.running m.current_level m.level_changed

abbrev chosen : TaskManager → TaskManager
chosen m = record m {
  level_changed = false;
  current_level = highest_level m.running m.current_level (suc max_level);
}

choose_level_keep : (m : TaskManager) → m.level_changed ≡ false → choose_level m ≡ m
unfolding choose_level
choose_level_keep m e = ap (λ b. if b then chosen m else m) e

choose_level_change : (m : TaskManager) → m.level_changed ≡ true → choose_level m ≡ chosen m
unfolding choose_level
choose_level_change m e = ap (λ b. if b then chosen m else m) e

-- The choice of a level after a change finds the highest level in use.
choose_level-IsCurrent :
    (m : TaskManager)
    → IsTable m.tasks m.latest_id
    → IsFiled m.tasks m.running m.current_level nobody
    → (m.level_changed ≡ false → IsCurrent m.running m.current_level m.level_changed)
    → IsCurrent
        (choose_level m).running
        (choose_level m).current_level
        (choose_level m).level_changed
      × ((choose_level m).level_changed ≡ false)
choose_level-IsCurrent m t q same = elim (Bool-cases m.level_changed) [
  | inr keep ↦ rw (choose_level_keep m keep) (same keep, keep)
  | inl changed ↦
      let waits : is_nil (m.running 0) ≡ false =
        is_nil_of_count idle_id (m.running 0) (ground (arith, q.filed 0 idle_id, t.idle)) in
      let (used, within, above) =
        highest_level_lem m.running m.current_level 4 0 (omega arith) waits in
      rw (choose_level_change m changed) (
        record {
          occupied = used;
          top = λ e l h. elim (dec_lt l 4) [
            | yes inside ↦ above l h inside
            | no outside ↦ q.bounded l (omega arith)
          ];
        },
        refl,
      )
]

choose_level-IsFiled :
    (m : TaskManager)
    → IsFiled m.tasks m.running m.current_level nobody
    → IsFiled (choose_level m).tasks (choose_level m).running (choose_level m).current_level nobody
choose_level-IsFiled m q = elim (Bool-cases m.level_changed) [
  | inr keep ↦ rw (choose_level_keep m keep) q
  | inl changed ↦
      rw (choose_level_change m changed)
        (record { filed = λ l a. ground (arith, q.filed l a); bounded = q.bounded })
]

choose_level-IsTable :
    (m : TaskManager)
    → IsTable m.tasks m.latest_id
    → IsTable (choose_level m).tasks (choose_level m).latest_id
choose_level-IsTable m t = elim (Bool-cases m.level_changed) [
  | inr keep ↦ rw (choose_level_keep m keep) t
  | inl changed ↦ rw (choose_level_change m changed) t
]

-- The state between the rotation and the choice of a level.
abbrev turned : TaskManager → List ℕ → TaskManager
turned m queue = record m {
  running = with_queue m.running m.current_level queue;
  level_changed = m.level_changed || is_nil queue;
}

turned-IsCurrent :
    (m : TaskManager) (queue : List ℕ)
    → IsCurrent m.running m.current_level m.level_changed
    → (turned m queue).level_changed ≡ false
    → IsCurrent
        (turned m queue).running
        (turned m queue).current_level
        (turned m queue).level_changed
unfolding with_queue
turned-IsCurrent m queue c e = record {
  occupied = ground arith;
  top = λ k l h. ground (arith, c.top (ground arith) l);
}

module _ (m : TaskManager) (t : IsTable m.tasks m.latest_id)
    (c : IsCurrent m.running m.current_level m.level_changed) where
  -- After the rotation of a current task that goes on, or of one that has left the table's running tasks.
  rotated :
      (queue : List ℕ)
      → IsFiled
          (turned m queue).tasks
          (turned m queue).running
          (turned m queue).current_level
          nobody
      → IsScheduled (choose_level (turned m queue))
        × ((choose_level (turned m queue)).level_changed ≡ false)
  rotated queue q =
      let (now, settled) =
        choose_level-IsCurrent (turned m queue) t q (turned-IsCurrent m queue c) in
      (
        record {
          table = choose_level-IsTable (turned m queue) t;
          queues = choose_level-IsFiled (turned m queue) q;
          current = now;
        },
        settled,
      )

  level_bound :
      (extra : ℕ → ℕ)
      → IsFiled m.tasks m.running m.current_level extra
      → m.current_level ≤ max_level
  level_bound extra q = ground (arith, q.bounded m.current_level, c.occupied)

  -- The rotation keeps the invariant.
  pub rotate-awake :
      IsFiled m.tasks m.running m.current_level nobody
      → IsScheduled (rotate_current_run_queue m false).1
        × ((rotate_current_run_queue m false).1.level_changed ≡ false)
  unfolding rotate_current_run_queue current_task with_queue
  rotate-awake q =
      let queue = m.running m.current_level in
      rotated (pop_front queue ++ front queue ∷ []) (record {
        filed = λ l a. ground (
          arith,
          q.filed l a,
          count-append a (pop_front queue) (front queue ∷ []),
          count-one a (front queue),
          count-pop_front a queue c.occupied,
        );
        bounded = λ l h. ground (arith, q.bounded l h, level_bound nobody q);
      })

  -- So it does when the current task has just stopped running.
  pub rotate-asleep :
      IsFiled m.tasks m.running m.current_level (only (current_task m))
      → IsScheduled (rotate_current_run_queue m true).1
        × ((rotate_current_run_queue m true).1.level_changed ≡ false)
  unfolding rotate_current_run_queue current_task with_queue
  rotate-asleep q =
      let queue = m.running m.current_level in
      rotated (pop_front queue) (record {
        filed = λ l a. ground (arith, q.filed l a, count-pop_front a queue c.occupied);
        bounded = λ l h. ground (arith, q.bounded l h, level_bound (only (front queue)) q);
      })
