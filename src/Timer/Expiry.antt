-- ===== src/Timer/Expiry.antt =====
-- What a tick does with the timers that are due.
use duvuvurkarpogeschel.Prelude.{
  ℕ, zero, suc, ◌+◌, ◌≤◌, ◌<◌, ◌≡◌, refl, Bool, true, false, ◌||◌, some, List, [], ◌∷◌, ◌++◌,
  if◌then◌else◌, length, All, arith, Bool-cases, inl, inr,
}
use duvuvurkarpogeschel.Prelude.Words.{word}
use duvuvurkarpogeschel.TaskManager.{TaskManager}
use duvuvurkarpogeschel.Timer.{
  Timer, Ticked, push, is_task_value, task_timer, task_timer_period, notify, expire,
}

abbrev pub IsDue : ℕ → Timer → Type 0
IsDue now t = t.timeout ≤ now

abbrev pub IsLater : ℕ → Timer → Type 0
IsLater now t = now < t.timeout

-- Whether a task timer is due.
abbrev pub has_task_timer : List Timer → Bool
has_task_timer [] = false
has_task_timer (t ∷ ts) = is_task_value t.value || has_task_timer ts

-- The queue once each task timer that was due has been set anew.
abbrev pub rearm : ℕ → List Timer → List Timer → List Timer
rearm now [] later = later
rearm now (t ∷ due) later =
    rearm now due (if is_task_value t.value then push (task_timer now) later else later)

-- The scheduler once each other timer that was due has sent its message, the earliest first.
abbrev pub notify_all : TaskManager → List Timer → TaskManager
notify_all tasks [] = tasks
notify_all tasks (t ∷ due) =
    notify_all (if is_task_value t.value then tasks else notify tasks t) due

module _ (now : ℕ) (no_wrap : now + task_timer_period < word) where
  -- A task timer set anew stands behind all that are due.
  push_behind :
      (due later : List Timer)
      → All (IsDue now) due
      → push (task_timer now) (due ++ later) ≡ due ++ push (task_timer now) later
  unfolding push
  push_behind [] later h = refl
  push_behind (t ∷ due) later h = ground (arith, push_behind due later h.1)

  pub push-IsLater :
      (later : List Timer)
      → All (IsLater now) later
      → All (IsLater now) (push (task_timer now) later)
  unfolding push
  push-IsLater [] h = (omega arith, tt)
  push-IsLater (t ∷ later) h = ground (arith, push-IsLater later h.1)

  pub expire_lem :
      (fuel : ℕ) (s : Ticked) (due later : List Timer)
      → length due < fuel
      → All (IsDue now) due
      → All (IsLater now) later
      → expire fuel now s (due ++ later)
        ≡ some (record {
          task_timer_timeout = s.task_timer_timeout || has_task_timer due;
          timers = rearm now due later;
          tasks = notify_all s.tasks due;
        })
  unfolding expire
  expire_lem zero s due later f h k = absurd (omega arith)
  expire_lem (suc fuel) s [] [] f h k = ground arith
  expire_lem (suc fuel) s [] (t ∷ later) f h k = ground (arith, k.0)
  expire_lem (suc fuel) s (t ∷ due) later f h k = elim (Bool-cases (is_task_value t.value)) [
    | inl task ↦ ground (
      arith,
      task,
      h.0,
      push_behind due later h.1,
      expire_lem fuel (record s { task_timer_timeout = true }) due (push (task_timer now) later)
          (omega arith) h.1 (push-IsLater later k),
    )
    | inr other ↦ ground (
      arith,
      other,
      h.0,
      expire_lem fuel (record s { tasks = notify s.tasks t }) due later (omega arith) h.1 k,
    )
  ]
