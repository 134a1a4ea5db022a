-- ===== src/Timer.antt =====
-- kernel/timer.hpp and kernel/timer.cpp: the timer queue and its tick. The priority queue is the
-- list of its timers in the order in which they leave it; the standard leaves the order of equal
-- timeouts open, here the older comes first. The LAPIC registers are not modelled.
pub mod Expiry
pub mod Sending
pub mod Order
mod Tests
use duvuvurkarpogeschel.Prelude.{
  ℕ, zero, suc, ◌+◌, ◌-◌, Bool, true, false, Option, none, some, List, [], ◌∷◌, ◌==◌, ltb,
  if◌then◌else◌, length,
}
use duvuvurkarpogeschel.Prelude.Int.{ℤ, pos, negsuc}
use duvuvurkarpogeschel.Prelude.Words.{word, add_size}
use duvuvurkarpogeschel.Error.{WithError, ok, err}
use duvuvurkarpogeschel.Message.{Message, timer_timeout}
use duvuvurkarpogeschel.TaskManager.{TaskManager, send_message}

pub record Timer : Type 0 where
  pub timeout : ℕ
  pub value : ℤ
  pub task_id : ℕ

-- kTaskTimerPeriod, 0.02 s at 100 ticks a second.
abbrev pub task_timer_period : ℕ
task_timer_period = 2

-- std::numeric_limits<int>::max()
abbrev pub task_timer_value : ℕ
task_timer_value = 2147483647

abbrev pub is_task_value : ℤ → Bool
is_task_value (pos n) = n == task_timer_value
is_task_value (negsuc n) = false

-- `priority_queue::push`: a timer with a later timeout has less priority.
pub push : Timer → List Timer → List Timer
push t [] = t ∷ []
push t (u ∷ us) = if ltb t.timeout u.timeout then t ∷ u ∷ us else u ∷ push t us

pub record TimerManager : Type 0 where
  pub tick_count : ℕ
  pub timers : List Timer

-- The constructor's timer is never due, so that `top` always has one.
pub new_manager : TimerManager
unfolding push
new_manager = record {
  tick_count = 0;
  timers = push (record { timeout = word - 1; value = pos 0; task_id = 0 }) [];
}

pub add_timer : TimerManager → Timer → TimerManager
add_timer m timer = record m { timers = push timer m.timers }

abbrev pub task_timer : ℕ → Timer
task_timer tick = record {
  timeout = add_size tick task_timer_period;
  value = pos task_timer_value;
  task_id = 1;
}

abbrev pub keep_on_error : TaskManager → WithError TaskManager → TaskManager
keep_on_error m (ok m') = m'
keep_on_error m (err e) = m

-- The message of a timer; an error of `SendMessage` is ignored.
pub notify : TaskManager → Timer → TaskManager
notify tasks t =
    keep_on_error tasks (
      send_message tasks t.task_id
        (record { src_task = 0; body = timer_timeout t.timeout t.value }))

-- What the loop changes: `task_timer_timeout`, the queue, and the scheduler.
pub record Ticked : Type 0 where
  pub task_timer_timeout : Bool
  pub timers : List Timer
  pub tasks : TaskManager

-- The loop of `Tick`. `none` means that the fuel ran out.
pub expire : (fuel tick : ℕ) → Ticked → List Timer → Option Ticked
expire zero tick s queue = none
expire (suc fuel) tick s [] = some (record s { timers = [] })
expire (suc fuel) tick s (t ∷ rest) =
    let rearmed =
      expire fuel tick (record s { task_timer_timeout = true }) (push (task_timer tick) rest) in
    let notified = expire fuel tick (record s { tasks = notify s.tasks t }) rest in
    if ltb tick t.timeout
    then some (record s { timers = t ∷ rest })
    else if is_task_value t.value
    then rearmed
    else notified

abbrev ticked : ℕ → Option Ticked → Option (Bool × TimerManager × TaskManager)
ticked tick none = none
ticked tick (some s) =
    some (s.task_timer_timeout, record { tick_count = tick; timers = s.timers }, s.tasks)

-- Each round takes one timer that is due, so the queue's length is fuel enough.
pub tick : TimerManager → TaskManager → Option (Bool × TimerManager × TaskManager)
tick m tasks =
    let now = add_size m.tick_count 1 in
    ticked now (
      expire (suc (length m.timers)) now
        (record { task_timer_timeout = false; timers = []; tasks = tasks }) m.timers)
