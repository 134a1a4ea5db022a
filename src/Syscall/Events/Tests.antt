-- ===== src/Syscall/Events/Tests.antt =====
-- A queue with a message that is no event, and a timer.
use duvuvurkarpogeschel.Prelude.{
  ℕ, ◌^◌, ◌<◌, ◌≤◌, ◌≡◌, ◌⊎◌, refl, false, none, some, List, [], ◌∷◌, ◌++◌, length, arith,
}
use duvuvurkarpogeschel.Prelude.Int.{pos, negsuc}
use duvuvurkarpogeschel.Message.{Message, timer_timeout, window_close}
use duvuvurkarpogeschel.Timer.{Timer, TimerManager, add_timer, is_task_value}
use duvuvurkarpogeschel.Syscall.{success}
use duvuvurkarpogeschel.Syscall.Events.{AppEvent, timed_out, event_of, read_event, create_timer}
use duvuvurkarpogeschel.Syscall.Events.Order.{events, read_event_lem, create_timer-event}

abbrev queue : List Message
queue =
    record { src_task = 1; body = timer_timeout 5 (pos 3) }
    ∷ record { src_task = 1; body = timer_timeout 5 (negsuc 3) }
    ∷ record { src_task = 1; body = window_close 7 }
    ∷ []

abbrev room : ℕ
room = 1

read_event_lem_example :
    (read_event (2 ^ 63) room queue ≡ none) × (0 < room) × (events queue ≡ [])
    ⊎ (out : List AppEvent) × (left : List Message) × (read_event (2 ^ 63) room queue
        ≡ some (success (length out), out, left))
      × (events queue ≡ out ++ events left)
      × (length out ≤ room)
      × ((room ≡ 0) ⊎ (0 < length out))
      × ((length out ≡ room) ⊎ (left ≡ []))
read_event_lem_example = read_event_lem (2 ^ 63) room queue (omega arith)

abbrev timers : TimerManager
timers = record { tick_count = 7; timers = [] }

create_timer-event_example :
    (t : Timer) × ((create_timer timers 3 1 5 1000).1 ≡ add_timer timers t)
    × (t.task_id ≡ 3)
    × (is_task_value t.value ≡ false)
    × (event_of (timer_timeout t.timeout t.value) ≡ some (timed_out t.timeout (pos 5)))
create_timer-event_example = create_timer-event timers 3 1 5 1000 4 refl (omega arith)
