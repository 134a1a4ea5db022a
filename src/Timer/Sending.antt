-- ===== src/Timer/Sending.antt =====
-- The messages of the timers that a tick takes out.
use duvuvurkarpogeschel.Prelude.{◌≡◌, refl, true, false, List, [], ◌∷◌, Bool-cases, inl, inr}
use duvuvurkarpogeschel.Error.{Error, WithError, ok, err}
use duvuvurkarpogeschel.Message.{timer_timeout}
use duvuvurkarpogeschel.TaskManager.{TaskManager, send_message}
use duvuvurkarpogeschel.Timer.{Timer, is_task_value, notify, keep_on_error}
use duvuvurkarpogeschel.Timer.Expiry.{notify_all}

-- The messages of timers are sent one after the other, but those of task timers; where SendMessage
-- fails the tasks stay as they are.
pub data AreSent : TaskManager → List Timer → TaskManager → Type 0 where
  all_sent : (tasks : TaskManager) → AreSent tasks [] tasks
  no_message :
      (tasks after : TaskManager) (t : Timer) (ts : List Timer)
      → is_task_value t.value ≡ true
      → AreSent tasks ts after
      → AreSent tasks (t ∷ ts) after
  sent :
      (tasks next after : TaskManager) (t : Timer) (ts : List Timer)
      → is_task_value t.value ≡ false
      → send_message tasks t.task_id
          (record { src_task = 0; body = timer_timeout t.timeout t.value })
        ≡ ok next
      → AreSent next ts after
      → AreSent tasks (t ∷ ts) after
  not_sent :
      (tasks after : TaskManager) (e : Error) (t : Timer) (ts : List Timer)
      → is_task_value t.value ≡ false
      → send_message tasks t.task_id
          (record { src_task = 0; body = timer_timeout t.timeout t.value })
        ≡ err e
      → AreSent tasks ts after
      → AreSent tasks (t ∷ ts) after

-- For the result of SendMessage.
send-AreSent :
    (tasks after : TaskManager) (t : Timer) (ts : List Timer) (result : WithError TaskManager)
    → is_task_value t.value ≡ false
    → send_message tasks t.task_id (record { src_task = 0; body = timer_timeout t.timeout t.value })
      ≡ result
    → AreSent (keep_on_error tasks result) ts after
    → AreSent tasks (t ∷ ts) after
send-AreSent tasks after t ts (ok next) other e rest = sent tasks next after t ts other e rest
send-AreSent tasks after t ts (err error) other e rest =
    not_sent tasks after error t ts other e rest

pub notify_all-AreSent :
    (tasks : TaskManager) (due : List Timer) → AreSent tasks due (notify_all tasks due)
unfolding notify
notify_all-AreSent tasks [] = all_sent tasks
notify_all-AreSent tasks (t ∷ due) = elim (Bool-cases (is_task_value t.value)) [
  | inl task ↦
      rw task (no_message tasks (notify_all tasks due) t due task (notify_all-AreSent tasks due))
  | inr other ↦ rw other (
      send-AreSent tasks (notify_all (notify tasks t) due) t due
        (send_message tasks t.task_id
          (record { src_task = 0; body = timer_timeout t.timeout t.value }))
        other refl (notify_all-AreSent (notify tasks t) due))
]
