-- ===== src/TaskManager/Mailbox.antt =====
-- `SendMessage` and `ReceiveMessage`.
use duvuvurkarpogeschel.Prelude.{
  ℕ, zero, suc, ◌≡◌, ◌≢◌, refl, ap, sym, ◌∙◌, Bool, true, false, Option, none, some, List, [], ◌∷◌,
  ◌++◌, ◌==◌, if◌then◌else◌, arith, Bool-cases, inl, inr, length, map, ◌⊎◌, Option-cases,
}
use mathlib.Core.List.{append-nil, append_assoc}
use duvuvurkarpogeschel.Prelude.Int.{negsuc}
use duvuvurkarpogeschel.Task.{
  Task, set_level, set_running, push_message, receive_message, take_message,
}
use duvuvurkarpogeschel.RunQueue.{find_task, update_task}
use duvuvurkarpogeschel.TaskManager.{
  TaskManager, level_of, change_level_running, deliver, send_message, when_found,
}
use duvuvurkarpogeschel.TaskManager.Table.{find_task-update_task}
use duvuvurkarpogeschel.TaskManager.Invariant.{IsScheduled, idle_id}
use duvuvurkarpogeschel.Message.{Message}
use duvuvurkarpogeschel.Error.{ok, err, no_such_task}
use duvuvurkarpogeschel.TaskManager.Switching.{touch-IsScheduled}
use duvuvurkarpogeschel.TaskManager.Operations.{wakeup-IsScheduled}
use duvuvurkarpogeschel.TaskManager.Wake.{wakeup_still, wakeup_running, is_running_lem}

module _ (m : TaskManager) (id : ℕ) (msg : Message) where
  -- The task as it is once a message has been put in its queue and it has been woken.
  abbrev pub informed : Task → Task
  informed t = record t { msgs = t.msgs ++ msg ∷ []; running = true }

  abbrev touched : TaskManager
  touched = record m { tasks = update_task id (push_message msg) m.tasks }

  touched_found :
      (t : Task)
      → find_task id m.tasks ≡ some t
      → find_task id touched.tasks ≡ some (push_message msg t)
  unfolding push_message
  touched_found t found =
      rw (find_task-update_task id id (push_message msg) m.tasks (λ u. refl), found) (ground arith)

  push-runs : (t : Task) (b : Bool) → t.running ≡ b → (push_message msg t).running ≡ b
  unfolding push_message
  push-runs t b e = e

  pushed : (t : Task) → t.running ≡ true → push_message msg t ≡ informed t
  unfolding push_message
  pushed t e = ap (λ b. record t { msgs = t.msgs ++ msg ∷ []; running = b }) e

  woken :
      (t : Task)
      → find_task id m.tasks ≡ some t
      → set_running true (set_level (level_of touched id) (push_message msg t)) ≡ informed t
  unfolding push_message set_running set_level level_of
  woken t found = rw (touched_found t found) refl

  find_task-deliver :
      (t : Task) (a : ℕ)
      → find_task id m.tasks ≡ some t
      → find_task a (deliver m id msg).tasks
        ≡ (if id == a then some (informed t) else find_task a m.tasks)
  unfolding deliver push_message set_running set_level
  find_task-deliver t a found =
      let here : id ≡ a → find_task a m.tasks ≡ some t = λ same. rw (← same) found in
      elim (Bool-cases t.running) [
        | inl runs ↦
            rw
              (wakeup_running touched id (negsuc 0) (
                is_running_lem touched id (push_message msg t) (touched_found t found)
                ∙ push-runs t true runs))
              (unfold change_level_running in
                rw (find_task-update_task a id (push_message msg) m.tasks (λ u. refl))
                  (ground (arith, here, pushed t runs)))
        | inr still ↦
            rw
              (wakeup_still touched id (negsuc 0) (
                is_running_lem touched id (push_message msg t) (touched_found t found)
                ∙ push-runs t false still))
              (rw
                (
                  find_task-update_task a id
                      (λ u. set_running true (set_level (level_of touched id) u)) touched.tasks
                      (λ u. refl),
                  find_task-update_task a id (push_message msg) m.tasks (λ u. refl),
                )
                (ground (arith, here, woken t found)))
      ]

  -- `SendMessage` fails for an ID that no task has. Else the message stands last in that task's
  -- queue, the task runs, and no other task has changed.
  pub send_message_lem :
      ((find_task id m.tasks ≡ none) × (send_message m id msg ≡ err no_such_task))
      ⊎ ((t : Task) × (m' : TaskManager) × (find_task id m.tasks ≡ some t)
          × (send_message m id msg ≡ ok m')
          × ((a : ℕ)
              → find_task a m'.tasks
                ≡ (if id == a then some (informed t) else find_task a m.tasks)))
  unfolding send_message
  send_message_lem = elim (Option-cases (find_task id m.tasks)) [
    | inl missing ↦ inl (missing, rw missing)
    | inr (t, found) ↦ inr (t, deliver m id msg, found, rw found, λ a. find_task-deliver t a found)
  ]

  -- A message to a task other than the idle task keeps the scheduler's invariant.
  pub deliver-IsScheduled :
      (t : Task)
      → IsScheduled m
      → find_task id m.tasks ≡ some t
      → id ≢ idle_id
      → IsScheduled (deliver m id msg)
  unfolding deliver push_message
  deliver-IsScheduled t v found busy =
      wakeup-IsScheduled touched id (push_message msg t)
        (touch-IsScheduled m id (push_message msg) (λ u. (refl, refl, refl)) v)
        (touched_found t found) busy (negsuc 0) tt

-- Messages that come in one after the other.
pub push_messages : List Message → Task → Task
push_messages [] t = t
push_messages (msg ∷ rest) t = push_messages rest (push_message msg t)

pub receive_messages : ℕ → Task → List (Option Message) × Task
receive_messages zero t = ([], t)
receive_messages (suc n) t =
    let (first, t') = receive_message t in
    let (rest, t'') = receive_messages n t' in (first ∷ rest, t'')

msgs-push_messages :
    (ms : List Message) (t : Task) → push_messages ms t ≡ record t { msgs = t.msgs ++ ms }
unfolding push_messages push_message
msgs-push_messages [] t = ap (λ ms. record t { msgs = ms }) (sym (append-nil t.msgs))
msgs-push_messages (m ∷ ms) t =
    msgs-push_messages ms (push_message m t)
    ∙ ap (λ ms. record t { msgs = ms }) (append_assoc t.msgs (m ∷ []) ms)

received :
    (t : Task) (m : Message) (rest : List Message)
    → t.msgs ≡ m ∷ rest
    → receive_message t ≡ (some m, record t { msgs = rest })
unfolding receive_message take_message
received t m rest e = ap (take_message t) e

receive_all :
    (ms : List Message) (t : Task)
    → t.msgs ≡ ms
    → receive_messages (length ms) t ≡ (map some ms, record t { msgs = [] })
unfolding receive_messages
receive_all [] t e = ap (λ ms. ([], record t { msgs = ms })) e
receive_all (m ∷ ms) t e =
    rw (received t m ms e) (rw (receive_all ms (record t { msgs = ms }) refl))

-- A mailbox is a FIFO: the messages that wait and then those that come in are received in that order,
-- one for each call, and after them the queue is empty.
pub receive_in_order :
    (ms : List Message) (t : Task)
    → receive_messages (length (t.msgs ++ ms)) (push_messages ms t)
      ≡ (map some (t.msgs ++ ms), record t { msgs = [] })
receive_in_order ms t =
    rw (msgs-push_messages ms t)
      (receive_all (t.msgs ++ ms) (record t { msgs = t.msgs ++ ms }) refl)

pub send_message-ok :
    (m : TaskManager) (id : ℕ) (msg : Message) (m' : TaskManager)
    → send_message m id msg ≡ ok m'
    → (t : Task) × (find_task id m.tasks ≡ some t) × (m' ≡ deliver m id msg)
unfolding send_message
send_message-ok m id msg m' e = elim (Option-cases (find_task id m.tasks)) [
  | inl missing ↦ cc (ap (λ o. when_found o (deliver m id msg)) missing)
  | inr (t, found) ↦ (t, found, cc (ap (λ o. when_found o (deliver m id msg)) found))
]
