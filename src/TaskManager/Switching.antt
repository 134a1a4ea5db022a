-- ===== src/TaskManager/Switching.antt =====
-- `SwitchTask` and the order in which the tasks of a level run.
use duvuvurkarpogeschel.Prelude.{
  ℕ, ◌≤◌, ◌<◌, ◌≡◌, refl, sym, ◌∙◌, Bool, true, false, Option, none, some, List, [], ◌∷◌, ◌++◌,
  ◌==◌, arith, length,
}
use mathlib.Core.List.{append-nil, append_assoc}
use duvuvurkarpogeschel.Task.{Task, TaskContext}
use duvuvurkarpogeschel.RunQueue.{find_task, update_task, with_queue, front, pop_front, is_nil}
use duvuvurkarpogeschel.TaskManager.{
  TaskManager, max_level, choose_level, rotate_current_run_queue, current_task, level_or,
  switch_task,
}
use duvuvurkarpogeschel.TaskManager.Table.{
  is_nil-append_one, update_task-Distinct, find_task-update_task, apply_to,
}
use duvuvurkarpogeschel.TaskManager.Invariant.{IsScheduled, placed, idle_id, rotate-awake}

-- A write that leaves a task's level alone, and whether it runs, keeps the invariant.
pub touch-IsScheduled :
    (m : TaskManager) (i : ℕ) (f : Task → Task)
    → ((t : Task) → ((f t).id ≡ t.id) × ((f t).level ≡ t.level) × ((f t).running ≡ t.running))
    → IsScheduled m
    → IsScheduled (record m { tasks = update_task i f m.tasks })
touch-IsScheduled m i f same v =
    let found = λ (a : ℕ). find_task-update_task a i f m.tasks (λ t. (same t).0) in
    record {
      table = record {
        distinct = update_task-Distinct i f m.tasks (λ t. (same t).0) v.table.distinct;
        fresh = λ a h. rw (found a, v.table.fresh a h) refl;
        levels = λ a. rw (found a) (levels_kept (i == a) (find_task a m.tasks) (v.table.levels a));
        idle =
            rw (found idle_id)
              (placed_kept (i == idle_id) (find_task idle_id m.tasks) 0 ∙ v.table.idle);
      };
      queues = record {
        filed =
            λ l a. rw (found a, placed_kept (i == a) (find_task a m.tasks) l) (v.queues.filed l a);
        bounded = v.queues.bounded;
      };
      current = v.current;
    }
  where
    placed_kept : (b : Bool) (o : Option Task) (l : ℕ) → placed (apply_to b f o) l ≡ placed o l
    placed_kept b none l = refl
    placed_kept true (some t) l = rw ((same t).1, (same t).2)
    placed_kept false (some t) l = refl

    levels_kept :
        (b : Bool) (o : Option Task)
        → level_or o ≤ max_level
        → level_or (apply_to b f o) ≤ max_level
    levels_kept b none h = h
    levels_kept true (some t) h = rw ((same t).1) h
    levels_kept false (some t) h = h

-- `SwitchTask` keeps the invariant, and the level that it leaves current is the highest with a task that
-- can run.
pub switch_task-IsScheduled :
    (m : TaskManager) (ctx : TaskContext)
    → IsScheduled m
    → let m' = (switch_task m ctx).0 in
      IsScheduled m' × ((l : ℕ) → m'.current_level < l → is_nil (m'.running l) ≡ true)
unfolding switch_task
switch_task-IsScheduled m ctx v =
    let saved =
      touch-IsScheduled m (current_task m) (λ t. record t { context = ctx })
        (λ t. (refl, refl, refl)) v in
    let (after, settled) = rotate-awake _ saved.table saved.current saved.queues in
    (after, after.current.top settled)

-- While no other level is involved, a switch moves the current task to the end of its queue.
switch_task_turn :
    (m : TaskManager) (ctx : TaskContext) (x : ℕ) (rest : List ℕ)
    → m.level_changed ≡ false
    → m.running m.current_level ≡ x ∷ rest
    → let m' = (switch_task m ctx).0 in
      (m'.level_changed ≡ false)
      × (m'.current_level ≡ m.current_level)
      × (m'.running m.current_level ≡ rest ++ x ∷ [])
unfolding switch_task rotate_current_run_queue choose_level with_queue current_task
switch_task_turn m ctx x rest settled e =
    let kept : is_nil (rest ++ x ∷ []) ≡ false = is_nil-append_one rest x in
    let queue : pop_front (m.running m.current_level) ++ front (m.running m.current_level) ∷ []
        ≡ rest ++ x ∷ [] =
      rw e (unfold pop_front front in refl) in
    rw queue (ground (arith, kept))

-- The manager after a switch for each of the contexts.
pub switches : List TaskContext → TaskManager → TaskManager
switches [] m = m
switches (ctx ∷ rest) m = switches rest (switch_task m ctx).0

switches_turn :
    (ctxs : List TaskContext) (m : TaskManager) (xs ys : List ℕ)
    → length ctxs ≡ length xs
    → m.level_changed ≡ false
    → m.running m.current_level ≡ xs ++ ys
    → ((switches ctxs m).current_level ≡ m.current_level)
      × ((switches ctxs m).running m.current_level ≡ ys ++ xs)
unfolding switches
switches_turn [] m [] ys n settled e = (refl, e ∙ sym (append-nil ys))
switches_turn [] m (x ∷ xs) ys n settled e = absurd (omega arith)
switches_turn (ctx ∷ ctxs) m [] ys n settled e = absurd (omega arith)
switches_turn (ctx ∷ ctxs) m (x ∷ xs) ys n settled e =
    let m' = (switch_task m ctx).0 in
    let (still, level, queue) = switch_task_turn m ctx x (xs ++ ys) settled e in
    let now : m'.running m'.current_level ≡ xs ++ (ys ++ x ∷ []) =
      rw level (queue ∙ append_assoc xs ys (x ∷ [])) in
    let (level', queue') = switches_turn ctxs m' xs (ys ++ x ∷ []) (omega arith) still now in
    (level' ∙ level, rw level at (queue' ∙ append_assoc ys (x ∷ []) xs))

-- Round robin: while the level of the current task stays the highest in use, each task of its queue runs after as many
-- switches as tasks stand before it, and the queue is then rotated to begin with it.
pub round_robin :
    (m : TaskManager) (ctxs : List TaskContext) (before : List ℕ) (task : ℕ) (after : List ℕ)
    → m.level_changed ≡ false
    → m.running m.current_level ≡ before ++ task ∷ after
    → length ctxs ≡ length before
    → (current_task (switches ctxs m) ≡ task)
      × ((switches ctxs m).running m.current_level ≡ task ∷ after ++ before)
unfolding current_task front
round_robin m ctxs before task after settled e n =
    let (level, queue) = switches_turn ctxs m before (task ∷ after) n settled e in
    (rw (level, queue), queue)
