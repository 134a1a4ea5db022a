-- ===== src/TaskManager/Table.antt =====
-- Laws of the task table and of the run queues.
use duvuvurkarpogeschel.Prelude.{
  ℕ, zero, suc, ◌+◌, ◌<◌, ◌≡◌, ◌≢◌, refl, Bool, true, false, Option, none, some, List, [], ◌∷◌,
  ◌++◌, ◌==◌, if◌then◌else◌, arith, Bool-cases, inl, inr, ℕ_discrete, dec_lt,
}
use duvuvurkarpogeschel.Task.{Task}
use duvuvurkarpogeschel.RunQueue.{
  find_task, update_task, remove_task, erase_all, with_queue, front, pop_front, is_nil,
}
use duvuvurkarpogeschel.TaskManager.{highest_level}

unfoldable pub count : ℕ → List ℕ → ℕ
count a [] = 0
count a (x ∷ xs) = (if x == a then 1 else 0) + count a xs

pub count-append : (a : ℕ) (xs ys : List ℕ) → count a (xs ++ ys) ≡ count a xs + count a ys
unfolding count
count-append a [] ys = omega arith
count-append a (x ∷ xs) ys = omega (arith, count-append a xs ys)

pub count-erase_all :
    (a v : ℕ) (xs : List ℕ) → count a (erase_all v xs) ≡ (if a == v then 0 else count a xs)
unfolding count erase_all
count-erase_all a v [] = ground arith
count-erase_all a v (x ∷ xs) = ground (arith, count-erase_all a v xs)

pub count-one : (a x : ℕ) → count a (x ∷ []) ≡ (if x == a then 1 else 0)
unfolding count
count-one a x = ground arith

-- The front and the rest of a queue that is not empty.
pub count-pop_front :
    (a : ℕ) (xs : List ℕ)
    → is_nil xs ≡ false
    → (if front xs == a then 1 else 0) + count a (pop_front xs) ≡ count a xs
unfolding count pop_front front is_nil
count-pop_front a [] h = cc
count-pop_front a (x ∷ xs) h = refl

pub is_nil-append_one : (xs : List ℕ) (x : ℕ) → is_nil (xs ++ x ∷ []) ≡ false
unfolding is_nil
is_nil-append_one [] x = refl
is_nil-append_one (y ∷ xs) x = refl

pub is_nil_of_count : (a : ℕ) (xs : List ℕ) → 0 < count a xs → is_nil xs ≡ false
unfolding count is_nil
is_nil_of_count a [] h = absurd (omega arith)
is_nil_of_count a (x ∷ xs) h = refl

pub nil_of_is_nil : (xs : List ℕ) → is_nil xs ≡ true → xs ≡ []
unfolding is_nil
nil_of_is_nil [] h = refl
nil_of_is_nil (x ∷ xs) h = cc

abbrev pub apply_to : Bool → (Task → Task) → Option Task → Option Task
apply_to b f none = none
apply_to b f (some t) = some (if b then f t else t)

-- A write that keeps the ID is seen under that ID only.
pub find_task-update_task :
    (j i : ℕ) (f : Task → Task) (ts : List Task)
    → ((t : Task) → (f t).id ≡ t.id)
    → find_task j (update_task i f ts) ≡ apply_to (i == j) f (find_task j ts)
unfolding find_task update_task
find_task-update_task j i f [] keeps = refl
find_task-update_task j i f (t ∷ ts) keeps =
    ground (arith, keeps t, find_task-update_task j i f ts keeps)

pub find_task-append :
    (j : ℕ) (ts : List Task) (t : Task)
    → find_task j ts ≡ none
    → find_task j (ts ++ t ∷ []) ≡ (if t.id == j then some t else none)
unfolding find_task
find_task-append j [] t h = refl
find_task-append j (u ∷ ts) t h = ground (arith, find_task-append j ts t)

pub find_task-append_ne :
    (j : ℕ) (ts : List Task) (t : Task) → t.id ≢ j → find_task j (ts ++ t ∷ []) ≡ find_task j ts
unfolding find_task
find_task-append_ne j [] t h = ground arith
find_task-append_ne j (u ∷ ts) t h = ground (arith, find_task-append_ne j ts t h)

-- A task is found under its own ID.
pub find_task-id : (j : ℕ) (ts : List Task) (t : Task) → find_task j ts ≡ some t → t.id ≡ j
unfolding find_task
find_task-id j [] t h = cc
find_task-id j (u ∷ ts) t h = ground (arith, find_task-id j ts t)

-- No ID is given twice.
abbrev pub Distinct : List Task → Type 0
Distinct [] = Unit {0}
Distinct (t ∷ ts) = (find_task t.id ts ≡ none) × Distinct ts

pub update_task-Distinct :
    (i : ℕ) (f : Task → Task) (ts : List Task)
    → ((t : Task) → (f t).id ≡ t.id)
    → Distinct ts
    → Distinct (update_task i f ts)
unfolding update_task
update_task-Distinct i f [] keeps d = tt
update_task-Distinct i f (t ∷ ts) keeps (a, d) = elim (Bool-cases (t.id == i)) [
  | inl hit ↦ rw (hit, keeps t) (a, d)
  | inr miss ↦
      rw miss
        (rw (find_task-update_task t.id i f ts keeps, a) refl, update_task-Distinct i f ts keeps d)
]

pub append-Distinct :
    (ts : List Task) (t : Task) → Distinct ts → find_task t.id ts ≡ none → Distinct (ts ++ t ∷ [])
unfolding find_task
append-Distinct [] t d h = (refl, tt)
append-Distinct (u ∷ ts) t (a, d) h =
    (ground (arith, a, find_task-append_ne u.id ts t), append-Distinct ts t d (ground arith))

pub find_task-remove_task :
    (j i : ℕ) (ts : List Task)
    → Distinct ts
    → find_task j (remove_task i ts) ≡ (if i == j then none else find_task j ts)
unfolding find_task remove_task
find_task-remove_task j i [] d = ground arith
find_task-remove_task j i (t ∷ ts) (a, d) = ground (arith, a, find_task-remove_task j i ts d)

pub remove_task-Distinct : (i : ℕ) (ts : List Task) → Distinct ts → Distinct (remove_task i ts)
unfolding remove_task
remove_task-Distinct i [] d = tt
remove_task-Distinct i (t ∷ ts) (a, d) = elim (Bool-cases (t.id == i)) [
  | inl hit ↦ rw hit d
  | inr miss ↦
      rw miss
        (rw (find_task-remove_task t.id i ts d, a) (ground arith), remove_task-Distinct i ts d)
]

module _ (running : ℕ → List ℕ) (default : ℕ) where
  apart : (l lv : ℕ) → l < suc lv → is_nil (running l) ≡ false → is_nil (running lv) ≡ true → l < lv
  apart l lv h e free = elim (dec_lt l lv) [
    | yes below ↦ below
    | no above ↦ ground (arith, e, free)
  ]

  -- The search finds the highest level in use, if one is.
  pub highest_level_lem :
      (levels l : ℕ)
      → l < levels
      → is_nil (running l) ≡ false
      → (is_nil (running (highest_level running default levels)) ≡ false)
        × (highest_level running default levels < levels)
        × ((k : ℕ)
            → highest_level running default levels < k
            → k < levels
            → is_nil (running k) ≡ true)
  unfolding highest_level
  highest_level_lem zero l h e = absurd (omega arith)
  highest_level_lem (suc lv) l h e = elim (Bool-cases (is_nil (running lv))) [
    | inr used ↦ rw used (used, omega arith, λ k a b. absurd (omega arith))
    | inl free ↦
        let (found, within, above) = highest_level_lem lv l (apart l lv h e free) e in
        rw free (
          found,
          omega arith,
          λ k a b. elim (ℕ_discrete k lv) [
            | yes here ↦ rw here free
            | no other ↦ above k a (omega arith)
          ],
        )
  ]

pub count-with_queue :
    (a : ℕ) (running : ℕ → List ℕ) (level : ℕ) (queue : List ℕ) (l : ℕ)
    → count a (with_queue running level queue l)
      ≡ (if l == level then count a queue else count a (running l))
unfolding with_queue
count-with_queue a running level queue l = ground arith

pub is_nil-with_queue :
    (running : ℕ → List ℕ) (level : ℕ) (queue : List ℕ) (l : ℕ)
    → is_nil (with_queue running level queue l)
      ≡ (if l == level then is_nil queue else is_nil (running l))
unfolding with_queue
is_nil-with_queue running level queue l = ground arith

-- Erasing another task keeps the front.
pub is_nil-erase_all : (v : ℕ) (xs : List ℕ) → front xs ≢ v → is_nil (erase_all v xs) ≡ is_nil xs
unfolding is_nil erase_all front
is_nil-erase_all v [] h = refl
is_nil-erase_all v (x ∷ xs) h = ground arith

pub is_nil-erase_all_nil : (v : ℕ) (xs : List ℕ) → is_nil xs ≡ true → is_nil (erase_all v xs) ≡ true
unfolding is_nil erase_all
is_nil-erase_all_nil v [] h = refl
is_nil-erase_all_nil v (x ∷ xs) h = cc

pub is_nil-pop_front : (xs : List ℕ) → is_nil xs ≡ true → is_nil (pop_front xs) ≡ true
unfolding is_nil pop_front
is_nil-pop_front [] h = refl
is_nil-pop_front (x ∷ xs) h = cc

pub is_nil-cons : (x : ℕ) (xs : List ℕ) → is_nil (x ∷ xs) ≡ false
unfolding is_nil
is_nil-cons x xs = refl

pub count-cons : (a x : ℕ) (xs : List ℕ) → count a (x ∷ xs) ≡ (if x == a then 1 else 0) + count a xs
unfolding count
count-cons a x xs = refl
