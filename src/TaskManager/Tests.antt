-- ===== src/TaskManager/Tests.antt =====
-- Runs of the scheduler, and the theorems at inputs that meet their hypotheses.
use duvuvurkarpogeschel.Prelude.{
  ℕ, ◌<◌, ◌≡◌, ◌≢◌, refl, none, some, [], ◌∷◌, ◌++◌, ◌==◌, arith, true, false, if◌then◌else◌, ◌⊎◌,
  map, length,
}
use duvuvurkarpogeschel.Prelude.Int.{pos, negsuc}
use duvuvurkarpogeschel.Prelude.Map.{lookup, erase}
use duvuvurkarpogeschel.Error.{ok, err, no_such_task}
use duvuvurkarpogeschel.Message.{Message, key_push}
use duvuvurkarpogeschel.Task.{Task, new, set_level, set_running, init_context}
use duvuvurkarpogeschel.RunQueue.{find_task, update_task, with_queue, front, pop_front, is_nil}
use duvuvurkarpogeschel.TaskManager.{
  TaskManager, Switch, new_manager, new_task, wakeup, sleep, switch_task, current_task, finish,
  wait_finish, done, asleep, send_message, is_running, sleep_myself, sleep_other,
  rotate_current_run_queue, choose_level, highest_level, switch,
}
use duvuvurkarpogeschel.TaskManager.Table.{count}
use duvuvurkarpogeschel.TaskManager.Invariant.{IsScheduled}
use duvuvurkarpogeschel.TaskManager.Sleep.{sleep_lem}
use duvuvurkarpogeschel.TaskManager.Switching.{switch_task-IsScheduled, switches, round_robin}
use duvuvurkarpogeschel.TaskManager.Mailbox.{
  informed, send_message_lem, receive_in_order, push_messages, receive_messages,
}
use duvuvurkarpogeschel.TaskManager.Exit.{finish-IsScheduled, finish_delivers}
use duvuvurkarpogeschel.TaskManager.Waiting.{wait_finish_sleeps}
use duvuvurkarpogeschel.TaskManager.Reach.{
  here, next, create, wake, Reach-IsScheduled, new_manager-IsScheduled,
}

abbrev started : TaskManager
started = new_manager 0x1000 0x8000 0x2000

abbrev with_third : TaskManager
with_third = wakeup (new_task started) 3 (negsuc 0)

abbrev main_task : Task
main_task = set_running true (set_level 3 (new 1))

main_found : find_task 1 started.tasks ≡ some main_task
unfolding new_manager new_task find_task update_task new set_running set_level init_context
main_found = refl

main_runs : main_task.running ≡ true
unfolding set_running
main_runs = refl

third_found : find_task 3 (new_task started).tasks ≡ some (new 3)
unfolding new_manager new_task find_task update_task new set_running set_level init_context
third_found = refl

started-IsScheduled : IsScheduled started
started-IsScheduled = new_manager-IsScheduled 0x1000 0x8000 0x2000

started-current : current_task started ≡ 1
unfolding new_manager new_task current_task front with_queue
started-current = refl

-- The main task sleeps and the idle task runs.
sleep_to_idle : (sleep started 1).1 ≡ switch 2 1
unfolding sleep new_manager new_task current_task front with_queue pop_front is_nil is_running
    find_task update_task new set_running set_level init_context sleep_myself sleep_other
    rotate_current_run_queue choose_level highest_level
sleep_to_idle = refl

Reach-IsScheduled_example : IsScheduled with_third
Reach-IsScheduled_example = Reach-IsScheduled 0x1000 0x8000 0x2000 (
    next (next here (create started))
      (wake (new_task started) 3 (new 3) (negsuc 0) third_found (omega arith) tt))

switch_task-IsScheduled_example :
    let m' = (switch_task started main_task.context).0 in
    IsScheduled m' × ((l : ℕ) → m'.current_level < l → is_nil (m'.running l) ≡ true)
switch_task-IsScheduled_example =
    switch_task-IsScheduled started main_task.context started-IsScheduled

abbrev three_equals : TaskManager
three_equals = record started {
  running = λ l. if l == 1 then 5 ∷ 6 ∷ 7 ∷ [] else [];
  current_level = 1;
  level_changed = false;
}

round_robin_example :
    let ctx = main_task.context in
    (current_task (switches (ctx ∷ ctx ∷ []) three_equals) ≡ 7)
    × ((switches (ctx ∷ ctx ∷ []) three_equals).running 1 ≡ 7 ∷ [] ++ 5 ∷ 6 ∷ [])
round_robin_example =
    round_robin three_equals (main_task.context ∷ main_task.context ∷ []) (5 ∷ 6 ∷ []) 7 [] refl
      refl refl

sleep_lem_example :
    IsScheduled (sleep started 1).0
    × ((l a : ℕ)
        → count a ((sleep started 1).0.running l)
          ≡ (if 1 == a then 0 else count a (started.running l)))
sleep_lem_example =
    sleep_lem started 1 main_task started-IsScheduled main_found (omega arith) main_runs

abbrev key : Message
key = record { src_task = 0; body = key_push 0 4 97 (pos 1) }

send_message_lem_example :
    ((find_task 1 started.tasks ≡ none) × (send_message started 1 key ≡ err no_such_task))
    ⊎ ((t : Task) × (m' : TaskManager) × (find_task 1 started.tasks ≡ some t)
        × (send_message started 1 key ≡ ok m')
        × ((a : ℕ)
            → find_task a m'.tasks
              ≡ (if 1 == a then some (informed started 1 key t) else find_task a started.tasks)))
send_message_lem_example = send_message_lem started 1 key

receive_in_order_example :
    receive_messages
      (length (main_task.msgs ++ key ∷ key ∷ []))
      (push_messages (key ∷ key ∷ []) main_task)
    ≡ (map some (main_task.msgs ++ key ∷ key ∷ []), record main_task { msgs = [] })
receive_in_order_example = receive_in_order (key ∷ key ∷ []) main_task

main_is_not_idle : current_task started ≢ 2
main_is_not_idle = omega (arith, started-current)

nobody_waits : lookup (current_task started) started.finish_waiter ≡ none
unfolding lookup new_manager new_task
nobody_waits = refl

finish-IsScheduled_example :
    IsScheduled (finish started (pos 3)).0
    × (find_task (current_task started) (finish started (pos 3)).0.tasks ≡ none)
finish-IsScheduled_example =
    finish-IsScheduled started started-IsScheduled main_is_not_idle (pos 3)
      λ w e. cc (nobody_waits, e)

finish_delivers_example :
    let m' = (finish started (pos 3)).0 in
    let m'' : TaskManager = record m' {
      finish_tasks = erase (current_task started) m'.finish_tasks;
    } in
    (wait_finish m' (current_task started) ≡ done (pos 3) m'')
    × (lookup (current_task started) m''.finish_tasks ≡ none)
finish_delivers_example = finish_delivers started started-IsScheduled main_is_not_idle (pos 3)

nothing_pending : lookup 9 started.finish_tasks ≡ none
unfolding lookup new_manager new_task
nothing_pending = refl

wait_finish_sleeps_example :
    (m' : TaskManager) × (sw : Switch) × (wait_finish started 9 ≡ asleep m' sw)
    × IsScheduled m'
    × (lookup 9 m'.finish_waiter ≡ some (current_task started))
    × ((l : ℕ) → count (current_task started) (m'.running l) ≡ 0)
wait_finish_sleeps_example =
    wait_finish_sleeps started 9 started-IsScheduled main_is_not_idle nothing_pending
