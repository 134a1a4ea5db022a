-- ===== src/Syscall/Events/Order.antt =====
-- ReadEvent hands out the events of the queue in their order, and an application's timer comes back
-- as the event of its value.
use duvuvurkarpogeschel.Prelude.{
  ℕ, zero, suc, ◌/◌, ◌%◌, ◌^◌, ◌<◌, ◌≤◌, ◌≡◌, ◌⊎◌, inl, inr, refl, ap, ◌∙◌, true, false, ◌&&◌,
  Option, none, some, List, [], ◌∷◌, ◌++◌, ◌==◌, ltb, if◌then◌else◌, length, arith, Bool-cases,
}
use duvuvurkarpogeschel.Prelude.Int.{pos, negsuc}
use duvuvurkarpogeschel.Prelude.Words.{add_size, mul_size}
use duvuvurkarpogeschel.Message.{Message, timer_timeout}
use duvuvurkarpogeschel.Timer.{Timer, TimerManager, add_timer, is_task_value}
use duvuvurkarpogeschel.Syscall.{success, int_of}
use duvuvurkarpogeschel.Syscall.Events.{
  AppEvent, timed_out, event_of, add_event, take_events, read_event, timer_freq, application_timer,
  create_with, create_timer,
}

-- The events of a queue.
abbrev pub event_list : Option AppEvent → List AppEvent
event_list none = []
event_list (some e) = e ∷ []

abbrev pub events : List Message → List AppEvent
events [] = []
events (m ∷ msgs) = event_list (event_of m.body) ++ events msgs

-- What the loop takes from a queue that has room for so many events.
abbrev Taken : (room : ℕ) → List Message → List AppEvent × List Message → Type 0
Taken room msgs r =
    (events msgs ≡ r.0 ++ events r.1) × (length r.0 ≤ room) × ((length r.0 ≡ room) ⊎ (r.1 ≡ []))

take_one :
    (room : ℕ) (e : Option AppEvent) (msgs : List Message)
    (skipped taken : List AppEvent × List Message)
    → Taken (suc room) msgs skipped
    → Taken room msgs taken
    → (event_list e ++ events msgs
        ≡ (add_event e skipped taken).0 ++ events (add_event e skipped taken).1)
      × (length (add_event e skipped taken).0 ≤ suc room)
      × ((length (add_event e skipped taken).0 ≡ suc room) ⊎ ((add_event e skipped taken).1 ≡ []))
unfolding add_event
take_one room none msgs skipped taken s t = s
take_one room (some e) msgs skipped taken s t = (
  ap (λ r. e ∷ r) t.0,
  omega (arith, t.1),
  elim t.2 [ inl full ↦ inl (ap suc full) | inr last ↦ inr last ],
)

take_events_lem : (room : ℕ) (msgs : List Message) → Taken room msgs (take_events room msgs)
unfolding take_events
take_events_lem zero [] = (refl, omega arith, inl refl)
take_events_lem zero (m ∷ msgs) = (refl, omega arith, inl refl)
take_events_lem (suc room) [] = (refl, omega arith, inr refl)
take_events_lem (suc room) (m ∷ msgs) =
    take_one room (event_of m.body) msgs (take_events (suc room) msgs) (take_events room msgs)
      (take_events_lem (suc room) msgs) (take_events_lem room msgs)

nil_of_length : (es : List AppEvent) → length es ≡ 0 → es ≡ []
nil_of_length [] h = refl
nil_of_length (e ∷ es) h = absurd (omega (arith, h))

some_or_no_room : (len n : ℕ) → (ltb 0 len && n == 0) ≡ false → (len ≡ 0) ⊎ (0 < n)
some_or_no_room zero n e = inl refl
some_or_no_room (suc len) n e = inr (ground (arith, e))

-- With a buffer in the application's half of the addresses, ReadEvent waits if there is room for an event and
-- the queue has none. Else it succeeds, with one event at least if there is room for one: it returns
-- the number of the events that it writes, and these and those that the queue still has are the events of the queue in their order;
-- it stops only when the buffer is full or the queue is empty.
pub read_event_lem :
    (arg1 len : ℕ) (msgs : List Message)
    → 2 ^ 63 ≤ arg1
    → (read_event arg1 len msgs ≡ none) × (0 < len) × (events msgs ≡ [])
      ⊎ (out : List AppEvent) × (left : List Message) × (read_event arg1 len msgs
          ≡ some (success (length out), out, left))
        × (events msgs ≡ out ++ events left)
        × (length out ≤ len)
        × ((len ≡ 0) ⊎ (0 < length out))
        × ((length out ≡ len) ⊎ (left ≡ []))
unfolding read_event
read_event_lem arg1 len msgs h =
    let t = take_events_lem len msgs in
    let outside : ltb arg1 (2 ^ 63) ≡ false = ground (arith, h) in
    elim (Bool-cases (ltb 0 len && length (take_events len msgs).0 == 0)) [
      | inl e ↦ inl (
        rw (outside, e) refl,
        ground (arith, e),
        (let no_event = nil_of_length (take_events len msgs).0 (ground (arith, e)) in
            elim t.2 [
              | inl full ↦ absurd (ground (arith, e, full))
              | inr last ↦ t.0 ∙ rw (no_event, last) refl
            ]),
      )
      | inr e ↦ inr (
        (take_events len msgs).0,
        (take_events len msgs).1,
        rw (outside, e) refl,
        t.0,
        t.1,
        some_or_no_room len (length (take_events len msgs).0) e,
        t.2,
      )
    ]

-- CreateTimer of a positive value adds one timer for the task, which is no task timer. When it
-- expires, its message is the event of an expired timer with the same timeout and value.
pub create_timer-event :
    (m : TimerManager) (task_id arg1 arg2 arg3 value : ℕ)
    → arg2 % 2 ^ 32 ≡ suc value
    → suc value < 2 ^ 31
    → (t : Timer) × ((create_timer m task_id arg1 arg2 arg3).1 ≡ add_timer m t)
      × (t.task_id ≡ task_id)
      × (is_task_value t.value ≡ false)
      × (event_of (timer_timeout t.timeout t.value) ≡ some (timed_out t.timeout (pos (suc value))))
unfolding create_timer create_with application_timer event_of
create_timer-event m task_id arg1 arg2 arg3 value h k =
    let small : ltb (suc value) (2 ^ 31) ≡ true = ground (arith, k) in
    let v : int_of arg2 ≡ pos (suc value) = rw (h, small) refl in
    let from_start = mul_size arg3 timer_freq / 1000 in
    let timeout = if arg1 % 2 ^ 32 % 2 == 1 then add_size from_start m.tick_count else from_start in
    (
      record { timeout = timeout; value = negsuc value; task_id = task_id },
      ap (λ z. (create_with m task_id (arg1 % 2 ^ 32) arg3 z).1) v,
      refl,
      refl,
      refl,
    )
