-- ===== src/Syscall/Events.antt =====
-- kernel/syscall.cpp and kernel/app_event.hpp: ReadEvent and CreateTimer. The message queue is that
-- of the current task; `none` means that the task sleeps until there are more messages.
pub mod Order
mod Tests
use duvuvurkarpogeschel.Prelude.{
  ℕ, zero, suc, ◌+◌, ◌*◌, ◌/◌, ◌%◌, ◌^◌, Bool, true, false, ◌&&◌, not, Option, none, some, List, [],
  ◌∷◌, ◌==◌, ltb, leb, if◌then◌else◌, length, bit_and,
}
use duvuvurkarpogeschel.Prelude.Int.{ℤ, pos, negsuc}
use duvuvurkarpogeschel.Prelude.Words.{add_size, mul_size}
use duvuvurkarpogeschel.Message.{
  Message, Body, timer_timeout, key_push, mouse_move, mouse_button, window_close,
}
use duvuvurkarpogeschel.Timer.{Timer, TimerManager, add_timer}
use duvuvurkarpogeschel.Syscall.{Result, success, failed, efault, einval, int_of}

pub data AppEvent : Type 0 where
  quit : AppEvent
  mouse_moved : (x y dx dy : ℤ) (buttons : ℕ) → AppEvent
  mouse_pressed : (x y press button : ℤ) → AppEvent
  timed_out : (timeout : ℕ) (value : ℤ) → AppEvent
  key_pushed : (modifier keycode unicode : ℕ) (press : ℤ) → AppEvent

abbrev pub q_key : ℕ
q_key = 20

-- kLControlBitMask | kRControlBitMask
abbrev pub control_bit_mask : ℕ
control_bit_mask = 0x11

-- The `switch` of ReadEvent: a message that is no event for an application is dropped.
pub event_of : Body → Option AppEvent
event_of (key_push modifier keycode unicode press) =
    if keycode == q_key && not (bit_and modifier control_bit_mask == 0)
    then some quit
    else some (key_pushed modifier keycode unicode press)
event_of (mouse_move x y dx dy buttons) = some (mouse_moved x y dx dy buttons)
event_of (mouse_button x y press button) = some (mouse_pressed x y press button)
event_of (timer_timeout timeout (negsuc v)) = some (timed_out timeout (pos (suc v)))
event_of (timer_timeout timeout (pos v)) = none
event_of (window_close layer_id) = some quit
event_of body = none

add_event :
    Option AppEvent
    → (List AppEvent × List Message)
    → (List AppEvent × List Message)
    → List AppEvent × List Message
add_event none skipped taken = skipped
add_event (some e) skipped taken = (e ∷ taken.0, taken.1)

-- The loop, with the room that is left: the events, and the messages that stay in the queue.
pub take_events : (room : ℕ) → List Message → List AppEvent × List Message
take_events zero msgs = ([], msgs)
take_events (suc room) [] = ([], [])
take_events (suc room) (m ∷ msgs) =
    add_event (event_of m.body) (take_events (suc room) msgs) (take_events room msgs)

-- What ReadEvent returns and writes, and what it leaves in the queue.
pub read_event : (arg1 len : ℕ) → List Message → Option (Result × List AppEvent × List Message)
read_event arg1 len msgs =
    let taken = take_events len msgs in
    if ltb arg1 (2 ^ 63)
    then some (failed efault, [], msgs)
    else if ltb 0 len && length taken.0 == 0
    then none
    else some (success (length taken.0), taken.0, taken.1)

-- kTimerFreq
abbrev pub timer_freq : ℕ
timer_freq = 100

-- The timer of CreateTimer is for the current task, and its value is kept negated.
pub application_timer : (timeout task_id value : ℕ) → Timer
application_timer timeout task_id zero = record {
  timeout = timeout;
  value = pos 0;
  task_id = task_id;
}
application_timer timeout task_id (suc v) = record {
  timeout = timeout;
  value = negsuc v;
  task_id = task_id;
}

create_with : TimerManager → (task_id mode arg3 : ℕ) → ℤ → Result × TimerManager
create_with m task_id mode arg3 (negsuc v) = (failed einval, m)
create_with m task_id mode arg3 (pos zero) = (failed einval, m)
create_with m task_id mode arg3 (pos (suc v)) =
    let from_start = mul_size arg3 timer_freq / 1000 in
    let timeout = if mode % 2 == 1 then add_size from_start m.tick_count else from_start in
    (
      success (mul_size timeout 1000 / timer_freq),
      add_timer m (application_timer timeout task_id (suc v)),
    )

pub create_timer : TimerManager → (task_id arg1 arg2 arg3 : ℕ) → Result × TimerManager
create_timer m task_id arg1 arg2 arg3 = create_with m task_id (arg1 % 2 ^ 32) arg3 (int_of arg2)
