-- ===== src/Timer/Tests.antt =====
-- A run of the timer queue, and the theorem on a tick at it.
use duvuvurkarpogeschel.Prelude.{ℕ, ◌≡◌, refl, true, some, List, [], ◌∷◌, arith, All}
use duvuvurkarpogeschel.Prelude.Int.{pos}
use duvuvurkarpogeschel.TaskManager.{TaskManager, new_manager}
use duvuvurkarpogeschel.Timer.{
  Timer, TimerManager, push, task_timer, tick, task_timer_value, notify,
}
use duvuvurkarpogeschel.Timer.Expiry.{rearm, IsLater}
use duvuvurkarpogeschel.Timer.Sending.{AreSent}
use duvuvurkarpogeschel.Timer.Order.{IsSorted, due_of, later_of, tick_lem}

abbrev tasks : TaskManager
tasks = new_manager 0x1000 0x8000 0x2000

abbrev alarm : ℕ → Timer
alarm timeout = record { timeout = timeout; value = pos 7; task_id = 1 }

-- The task timer and one alarm are due at the tick 5, the other alarm is not.
abbrev queue : List Timer
queue = alarm 4 ∷ record { timeout = 5; value = pos task_timer_value; task_id = 1 } ∷ alarm 6 ∷ []

abbrev manager : TimerManager
manager = record { tick_count = 4; timers = queue }

queue-IsSorted : IsSorted queue
queue-IsSorted = ((omega arith, (omega arith, tt)), ((omega arith, tt), (tt, tt)))

queue_after : rearm 5 (due_of 5 queue) (later_of 5 queue) ≡ alarm 6 ∷ task_timer 5 ∷ []
unfolding push
queue_after = refl

tick_lem_example :
    (tick manager tasks
      ≡ some (
        true,
        record { tick_count = 5; timers = rearm 5 (due_of 5 queue) (later_of 5 queue) },
        notify tasks (alarm 4),
      ))
    × AreSent tasks (due_of 5 queue) (notify tasks (alarm 4))
    × IsSorted (rearm 5 (due_of 5 queue) (later_of 5 queue))
    × All (IsLater 5) (rearm 5 (due_of 5 queue) (later_of 5 queue))
tick_lem_example = tick_lem manager tasks (omega arith) queue-IsSorted
