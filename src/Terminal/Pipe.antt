-- ===== src/Terminal/Pipe.antt =====
-- kernel/terminal.hpp and kernel/terminal.cpp: class PipeDescriptor. The queue is that of the task
-- that reads; a read on a queue that holds nothing for it waits, and is `none`.
pub mod Stream
mod Tests
use duvuvurkarpogeschel.Prelude.{
  ℕ, zero, suc, ◌+◌, ◌-◌, min, Bool, true, false, Option, none, some, List, [], ◌∷◌, ◌++◌, ltb,
  if◌then◌else◌, take, drop, length,
}
use duvuvurkarpogeschel.Message.{Message, Body, pipe}

-- `data_`, as far as `len_` says, and `closed_`.
pub record PipeDescriptor : Type 0 where
  pub bytes : List ℕ
  pub closed : Bool

pub new_pipe : PipeDescriptor
new_pipe = record { bytes = []; closed = false }

-- A read from the queue: what was read, the descriptor and the queue after it.
pub read_message : List Message → (len : ℕ) → Option (List ℕ × PipeDescriptor × List Message)
read_message [] len = none
read_message (m ∷ msgs) len =
    let rest = read_message msgs len in
    elim m.body [
      | pipe bytes zero ↦ some ([], record { bytes = []; closed = true }, msgs)
      | pipe bytes (suc n) ↦
          let copy_bytes = min (suc n) len in
          some (
            take copy_bytes bytes,
            record { bytes = take (suc n - copy_bytes) (drop copy_bytes bytes); closed = false },
            msgs,
          )
      | _ ↦ rest
    ]

pub read :
    PipeDescriptor → List Message → (len : ℕ) → Option (List ℕ × PipeDescriptor × List Message)
read d msgs len =
    let copy_bytes = min (length d.bytes) len in
    if ltb 0 (length d.bytes)
    then some (take copy_bytes d.bytes, record d { bytes = drop copy_bytes d.bytes }, msgs)
    else if d.closed
    then some ([], d, msgs)
    else read_message msgs len

abbrev pub message_bytes : ℕ
message_bytes = 16

pub pipe_message : List ℕ → Message
pipe_message bytes = record { src_task = 0; body = pipe bytes (length bytes) }

-- The loop of `Write`: the messages that it sends, one after the other.
pub write : (fuel : ℕ) → List ℕ → List Message
write zero buf = []
write (suc fuel) buf =
    let sent = min (length buf) message_bytes in
    let rest = write fuel (drop sent buf) in
    if ltb 0 (length buf) then pipe_message (take sent buf) ∷ rest else []

pub finish_write : Message
finish_write = pipe_message []
