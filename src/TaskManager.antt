-- ===== src/TaskManager.antt =====
-- kernel/task.hpp and kernel/task.cpp, class `TaskManager`: the scheduler. The switch itself is done
-- in assembly: an operation says which task it switches to.
pub mod Table
pub mod Invariant
pub mod Wake
pub mod Level
pub mod Sleep
pub mod Operations
pub mod Switching
pub mod Mailbox
pub mod Current
pub mod Departure
pub mod Exit
pub mod Waiting
pub mod Reach
mod Tests
use duvuvurkarpogeschel.Prelude.{
  ℕ, zero, suc, ◌+◌, ◌-◌, ◌/◌, ◌*◌, Bool, true, false, not, ◌&&◌, ◌||◌, Option, none, some, List,
  [], ◌∷◌, ◌++◌, ◌==◌, ltb, leb, if◌then◌else◌, replicate,
}
use duvuvurkarpogeschel.Prelude.Int.{ℤ, pos, negsuc}
use duvuvurkarpogeschel.Error.{Error, WithError, ok, err, no_such_task}
use duvuvurkarpogeschel.Message.{Message}
use duvuvurkarpogeschel.Task.{
  Task, TaskContext, new, init_context, set_level, set_running, push_message,
}
use duvuvurkarpogeschel.RunQueue.{
  find_task, update_task, remove_task, erase_all, is_nil, front, pop_front, with_queue,
}
use duvuvurkarpogeschel.Prelude.Map.{lookup, erase, insert}

abbrev pub max_level : ℕ
max_level = 3

-- The run queues go by their level; a level above `max_level` would be outside the array.
pub record TaskManager : Type 0 where
  pub tasks : List Task
  pub latest_id : ℕ
  pub running : ℕ → List ℕ
  pub current_level : ℕ
  pub level_changed : Bool
  pub finish_tasks : List (ℕ × ℤ)
  pub finish_waiter : List (ℕ × ℕ)

abbrev pub level_or : Option Task → ℕ
level_or none = 0
level_or (some t) = t.level

abbrev pub running_or : Option Task → Bool
running_or none = false
running_or (some t) = t.running

-- `task->Level()` and `task->Running()`. Through a dangling pointer they are undefined in C++.
pub level_of : TaskManager → ℕ → ℕ
level_of m task = level_or (find_task task m.tasks)

pub is_running : TaskManager → ℕ → Bool
is_running m task = running_or (find_task task m.tasks)

-- `*running_[current_level_].front()`; no task has ID 0.
pub current_task : TaskManager → ℕ
current_task m = front (m.running m.current_level)

-- What an operation does about the CPU: it goes on, restores a context, or saves one and restores
-- another.
pub data Switch : Type 0 where
  stay : Switch
  restore : (next : ℕ) → Switch
  switch : (next saved : ℕ) → Switch

pub new_task : TaskManager → TaskManager
new_task m =
    let latest_id = m.latest_id + 1 in
    record m { tasks = m.tasks ++ new latest_id ∷ []; latest_id = latest_id }

-- The loop from the highest level down, `levels` of which are left.
pub highest_level : (ℕ → List ℕ) → ℕ → (levels : ℕ) → ℕ
highest_level running default zero = default
highest_level running default (suc lv) =
    if not (is_nil (running lv)) then lv else highest_level running default lv

choose_level : TaskManager → TaskManager
choose_level m =
    if m.level_changed
    then record m {
      level_changed = false;
      current_level = highest_level m.running m.current_level (suc max_level);
    }
    else m

-- The task that was current, and the manager after it.
pub rotate_current_run_queue : TaskManager → (current_sleep : Bool) → ℕ × TaskManager
unfolding choose_level
rotate_current_run_queue m current_sleep =
    let current = current_task m in
    let rest = pop_front (m.running m.current_level) in
    let level_queue = if current_sleep then rest else rest ++ current ∷ [] in
    (
      current,
      choose_level (record m {
        running = with_queue m.running m.current_level level_queue;
        level_changed = m.level_changed || is_nil level_queue;
      }),
    )

pub change_level_other : TaskManager → ℕ → ℕ → TaskManager
change_level_other m task level =
    let erased =
      with_queue m.running (level_of m task) (erase_all task (m.running (level_of m task))) in
    record m {
      running = with_queue erased level (erased level ++ task ∷ []);
      tasks = update_task task (set_level level) m.tasks;
      level_changed = m.level_changed || ltb m.current_level level;
    }

pub change_level_myself : TaskManager → ℕ → ℕ → TaskManager
change_level_myself m task level =
    let popped = with_queue m.running m.current_level (pop_front (m.running m.current_level)) in
    record m {
      running = with_queue popped level (task ∷ popped level);
      tasks = update_task task (set_level level) m.tasks;
      level_changed = m.level_changed || ltb level m.current_level;
      current_level = level;
    }

pub change_level_running : TaskManager → ℕ → ℤ → TaskManager
unfolding change_level_other change_level_myself
change_level_running m task (negsuc n) = m
change_level_running m task (pos level) =
    if level == level_of m task
    then m
    else if not (task == current_task m)
    then change_level_other m task level
    else change_level_myself m task level

-- `if (level < 0) level = task->Level()`
abbrev pub wakeup_level : ℤ → ℕ → ℕ
wakeup_level (pos level) own = level
wakeup_level (negsuc n) own = own

pub wakeup : TaskManager → ℕ → ℤ → TaskManager
wakeup m task level =
    if is_running m task
    then change_level_running m task level
    else let lv = wakeup_level level (level_of m task) in
      record m {
        tasks = update_task task (λ t. set_running true (set_level lv t)) m.tasks;
        running = with_queue m.running lv (m.running lv ++ task ∷ []);
        level_changed = m.level_changed || ltb m.current_level lv;
      }

-- The current task gives up the CPU.
pub sleep_myself : TaskManager → TaskManager × Switch
sleep_myself m =
    let (current, rotated) = rotate_current_run_queue m true in
    (rotated, switch (current_task rotated) current)

pub sleep_other : TaskManager → ℕ → TaskManager × Switch
sleep_other m task = (
  record m {
    running = with_queue m.running (level_of m task) (erase_all task (m.running (level_of m task)));
  },
  stay,
)

pub sleep : TaskManager → ℕ → TaskManager × Switch
unfolding sleep_myself sleep_other
sleep m task =
    if not (is_running m task)
    then (m, stay)
    else let stopped = record m { tasks = update_task task (set_running false) m.tasks } in
      if task == current_task stopped then sleep_myself stopped else sleep_other stopped task

abbrev pub when_found {ℓ} : {A : Type ℓ} → Option Task → A → WithError A
when_found none a = err no_such_task
when_found (some t) a = ok a

pub sleep_by_id : TaskManager → ℕ → WithError (TaskManager × Switch)
sleep_by_id m id = when_found (find_task id m.tasks) (sleep m id)

pub wakeup_by_id : TaskManager → ℕ → ℤ → WithError TaskManager
wakeup_by_id m id level = when_found (find_task id m.tasks) (wakeup m id level)

-- `Task::SendMessage` puts the message in the queue and wakes the task.
pub deliver : TaskManager → ℕ → Message → TaskManager
deliver m id msg =
    wakeup (record m { tasks = update_task id (push_message msg) m.tasks }) id (negsuc 0)

pub send_message : TaskManager → ℕ → Message → WithError TaskManager
send_message m id msg = when_found (find_task id m.tasks) (deliver m id msg)

-- The current task's context is saved before the rotation.
pub switch_task : TaskManager → TaskContext → TaskManager × Switch
switch_task m current_ctx =
    let saved = record m {
      tasks = update_task (current_task m) (λ t. record t { context = current_ctx }) m.tasks;
    } in
    let (current, rotated) = rotate_current_run_queue saved false in
    (rotated, if current_task rotated == current then stay else restore (current_task rotated))

pub wake_waiter : TaskManager → ℕ → Option ℕ → TaskManager
wake_waiter m task_id none = m
wake_waiter m task_id (some waiter) =
    wakeup (record m { finish_waiter = erase task_id m.finish_waiter }) waiter (negsuc 0)

pub finish : TaskManager → ℤ → TaskManager × Switch
unfolding wake_waiter
finish m exit_code =
    let (task_id, rotated) = rotate_current_run_queue m true in
    let done = record rotated {
      tasks = remove_task task_id rotated.tasks;
      finish_tasks = insert task_id exit_code rotated.finish_tasks;
    } in
    let woken = wake_waiter done task_id (lookup task_id done.finish_waiter) in
    (woken, restore (current_task woken))

-- One round of the loop of `WaitFinish`: it returns, or it sleeps and tries again when it is woken.
pub data Wait : Type 0 where
  done : (exit_code : ℤ) → TaskManager → Wait
  asleep : TaskManager → Switch → Wait

-- The manager that a round leaves.
abbrev pub waiting : Wait → TaskManager
waiting (done exit_code m) = m
waiting (asleep m sw) = m

pub waited : TaskManager → ℕ → Option ℤ → Wait
waited m task_id (some exit_code) =
    done exit_code (record m { finish_tasks = erase task_id m.finish_tasks })
waited m task_id none =
    let current = current_task m in
    let (m', sw) =
      sleep (record m { finish_waiter = insert task_id current m.finish_waiter }) current in
    asleep m' sw

pub wait_finish : TaskManager → ℕ → Wait
unfolding waited
wait_finish m task_id = waited m task_id (lookup task_id m.finish_tasks)

abbrev pub add_first : TaskManager → ℕ → (Task → Task) → TaskManager
add_first m level f =
    let created = new_task m in
    record created {
      tasks = update_task created.latest_id f created.tasks;
      running = with_queue m.running level (m.running level ++ created.latest_id ∷ []);
    }

-- The constructor: the task that runs now, at the highest level, and the idle task.
pub new_manager : (cr3 stack_end idle : ℕ) → TaskManager
unfolding new_task
new_manager cr3 stack_end idle =
    let empty : TaskManager = record {
      tasks = [];
      latest_id = 0;
      running = λ l. [];
      current_level = max_level;
      level_changed = false;
      finish_tasks = [];
      finish_waiter = [];
    } in
    let main = add_first empty max_level (λ t. set_running true (set_level max_level t)) in
    add_first main 0 (λ t. set_running true (set_level 0 (init_context cr3 stack_end idle 0 t)))
