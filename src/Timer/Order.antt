-- ===== src/Timer/Order.antt =====
-- The order of the timer queue, and the timers that a tick finds due.
use duvuvurkarpogeschel.Prelude.{
  ℕ, suc, ◌+◌, ◌≤◌, ◌<◌, ◌≡◌, refl, ap, ◌∙◌, sym, false, ◌||◌, some, List, [], ◌∷◌, ◌++◌, leb,
  if◌then◌else◌, length, All, arith, Bool-cases, inl, inr,
}
use duvuvurkarpogeschel.Prelude.Words.{word, add_size}
use duvuvurkarpogeschel.TaskManager.{TaskManager}
use duvuvurkarpogeschel.Timer.{
  Timer, TimerManager, push, is_task_value, task_timer, task_timer_period, tick, ticked, expire,
  Ticked,
}
use duvuvurkarpogeschel.Timer.Sending.{AreSent, notify_all-AreSent}
use duvuvurkarpogeschel.Timer.Expiry.{
  IsDue, IsLater, has_task_timer, rearm, notify_all, expire_lem, push-IsLater,
}

abbrev pub IsAfter : ℕ → Timer → Type 0
IsAfter bound t = bound ≤ t.timeout

-- The earliest timer is first.
abbrev pub IsSorted : List Timer → Type 0
IsSorted [] = Unit
IsSorted (t ∷ ts) = All (IsAfter t.timeout) ts × IsSorted ts

abbrev pub due_of : ℕ → List Timer → List Timer
due_of now [] = []
due_of now (t ∷ ts) = if leb t.timeout now then t ∷ due_of now ts else due_of now ts

abbrev pub later_of : ℕ → List Timer → List Timer
later_of now [] = []
later_of now (t ∷ ts) = if leb t.timeout now then later_of now ts else t ∷ later_of now ts

push-All : (P : Timer → Type 0) (t : Timer) (ts : List Timer) → P t → All P ts → All P (push t ts)
unfolding push
push-All P t [] p h = (p, tt)
push-All P t (u ∷ us) p h = ground (arith, push-All P t us p h.1)

All-weaken : (a b : ℕ) (ts : List Timer) → a ≤ b → All (IsAfter b) ts → All (IsAfter a) ts
All-weaken a b [] le h = tt
All-weaken a b (t ∷ ts) le h = (omega arith, All-weaken a b ts le h.1)

pub push-IsSorted : (t : Timer) (ts : List Timer) → IsSorted ts → IsSorted (push t ts)
unfolding push
push-IsSorted t [] h = (tt, tt)
push-IsSorted t (u ∷ us) h = ground (
  arith,
  push-IsSorted t us h.1,
  push-All (IsAfter u.timeout) t us,
  All-weaken t.timeout u.timeout us,
)

due_of-IsDue : (now : ℕ) (ts : List Timer) → All (IsDue now) (due_of now ts)
due_of-IsDue now [] = tt
due_of-IsDue now (t ∷ ts) = ground (arith, due_of-IsDue now ts)

later_of-IsLater : (now : ℕ) (ts : List Timer) → All (IsLater now) (later_of now ts)
later_of-IsLater now [] = tt
later_of-IsLater now (t ∷ ts) = ground (arith, later_of-IsLater now ts)

All-later :
    (now : ℕ) (ts : List Timer)
    → All (IsLater now) ts
    → (due_of now ts ≡ []) × (later_of now ts ≡ ts)
All-later now [] h = (refl, refl)
All-later now (t ∷ ts) h = ground (arith, h.0, All-later now ts h.1)

IsLater-weaken : (now b : ℕ) (ts : List Timer) → now < b → All (IsAfter b) ts → All (IsLater now) ts
IsLater-weaken now b [] le h = tt
IsLater-weaken now b (t ∷ ts) le h = (omega arith, IsLater-weaken now b ts le h.1)

due_later : (now : ℕ) (ts : List Timer) → IsSorted ts → due_of now ts ++ later_of now ts ≡ ts
due_later now [] h = refl
due_later now (t ∷ ts) h = ground (
  arith,
  due_later now ts h.1,
  λ (lt : now < t.timeout). All-later now ts (IsLater-weaken now t.timeout ts lt h.0),
)

later-All : (P : Timer → Type 0) (now : ℕ) (ts : List Timer) → All P ts → All P (later_of now ts)
later-All P now [] h = tt
later-All P now (t ∷ ts) h = ground (arith, h.0, later-All P now ts h.1)

later-IsSorted : (now : ℕ) (ts : List Timer) → IsSorted ts → IsSorted (later_of now ts)
later-IsSorted now [] h = tt
later-IsSorted now (t ∷ ts) h =
    ground (arith, later-IsSorted now ts h.1, later-All (IsAfter t.timeout) now ts h.0)

rearm-keeps :
    (P : List Timer → Type 0) (now : ℕ) (due later : List Timer)
    → ((ts : List Timer) → P ts → P (push (task_timer now) ts))
    → P later
    → P (rearm now due later)
rearm-keeps P now [] later k h = h
rearm-keeps P now (t ∷ due) later k h =
    rearm-keeps P now due (if is_task_value t.value then push (task_timer now) later else later) k
      (elim (Bool-cases (is_task_value t.value)) [
        | inl task ↦ rw task (k later h)
        | inr other ↦ rw other h
      ])

due-length : (now : ℕ) (ts : List Timer) → length (due_of now ts) ≤ length ts
due-length now [] = omega arith
due-length now (t ∷ ts) = ground (arith, due-length now ts)

expire-due :
    (now : ℕ) (s : Ticked) (ts : List Timer)
    → now + task_timer_period < word
    → IsSorted ts
    → expire (suc (length ts)) now s ts
      ≡ some (record {
        task_timer_timeout = s.task_timer_timeout || has_task_timer (due_of now ts);
        timers = rearm now (due_of now ts) (later_of now ts);
        tasks = notify_all s.tasks (due_of now ts);
      })
expire-due now s ts no_wrap sorted =
    ap (expire (suc (length ts)) now s) (sym (due_later now ts sorted))
    ∙ expire_lem now no_wrap (suc (length ts)) s (due_of now ts) (later_of now ts)
        (let k = due-length now ts in omega arith) (due_of-IsDue now ts) (later_of-IsLater now ts)

-- On a sorted queue, a tick counts on, takes out every timer that is due, sends the message of each
-- but the task timers, the earliest first, and sets each task timer anew two ticks later; it
-- reports whether there was one. The queue stays sorted and all its timers are later than now.
pub tick_lem :
    (m : TimerManager) (tasks : TaskManager)
    → m.tick_count + 1 + task_timer_period < word
    → IsSorted m.timers
    → let now = m.tick_count + 1 in
      let due = due_of now m.timers in
      let queue = rearm now due (later_of now m.timers) in
      (tick m tasks
        ≡ some
            (has_task_timer due, record { tick_count = now; timers = queue }, notify_all tasks due))
      × AreSent tasks due (notify_all tasks due)
      × IsSorted queue
      × All (IsLater now) queue
unfolding tick
tick_lem m tasks no_wrap sorted =
    let now = m.tick_count + 1 in
    let exact : add_size m.tick_count 1 ≡ now = omega arith in
    (
      rw exact (
          ap (ticked now) (
            expire-due now (record { task_timer_timeout = false; timers = []; tasks = tasks })
              m.timers no_wrap sorted)),
      notify_all-AreSent tasks (due_of now m.timers),
      rearm-keeps IsSorted now (due_of now m.timers) (later_of now m.timers)
          (λ ts h. push-IsSorted (task_timer now) ts h) (later-IsSorted now m.timers sorted),
      rearm-keeps (All (IsLater now)) now (due_of now m.timers) (later_of now m.timers)
          (λ ts h. push-IsLater now no_wrap ts h) (later_of-IsLater now m.timers),
    )
