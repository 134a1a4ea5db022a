-- ===== src/RunQueue.antt =====
-- kernel/task.cpp: the task table, a vector of tasks, and the run queues, an array of deques.
-- A `Task*` is the task's ID, which is never used again.
use duvuvurkarpogeschel.Prelude.{
  ℕ, Bool, true, false, Option, none, some, List, [], ◌∷◌, ◌==◌, if◌then◌else◌,
}
use duvuvurkarpogeschel.Task.{Task}

-- `std::find_if` over the tasks by ID.
unfoldable pub find_task : ℕ → List Task → Option Task
find_task id [] = none
find_task id (t ∷ ts) = if t.id == id then some t else find_task id ts

-- A write through a `Task*`.
unfoldable pub update_task : ℕ → (Task → Task) → List Task → List Task
update_task id f [] = []
update_task id f (t ∷ ts) = if t.id == id then f t ∷ ts else t ∷ update_task id f ts

unfoldable pub remove_task : ℕ → List Task → List Task
remove_task id [] = []
remove_task id (t ∷ ts) = if t.id == id then ts else t ∷ remove_task id ts

-- The helper `Erase`.
unfoldable pub erase_all : ℕ → List ℕ → List ℕ
erase_all value [] = []
erase_all value (x ∷ xs) = if x == value then erase_all value xs else x ∷ erase_all value xs

unfoldable pub is_nil : List ℕ → Bool
is_nil [] = true
is_nil (x ∷ xs) = false

unfoldable pub front : List ℕ → ℕ
front [] = 0
front (x ∷ xs) = x

unfoldable pub pop_front : List ℕ → List ℕ
pop_front [] = []
pop_front (x ∷ xs) = xs

-- An assignment to one run queue.
unfoldable pub with_queue : (ℕ → List ℕ) → ℕ → List ℕ → ℕ → List ℕ
with_queue running level queue l = if l == level then queue else running l
