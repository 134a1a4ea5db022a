-- ===== src/Terminal/Pipe/Tests.antt =====
-- A pipe with another message between those of its writes.
use duvuvurkarpogeschel.Prelude.{ℕ, ◌≡◌, refl, some, List, [], ◌∷◌, ◌++◌, arith}
use duvuvurkarpogeschel.Message.{Message, window_close}
use duvuvurkarpogeschel.Terminal.Pipe.{new_pipe, write, pipe_message, finish_write}
use duvuvurkarpogeschel.Terminal.Pipe.Stream.{written, pipe_messages, read_all, read_all-written}

abbrev bufs : List (List ℕ)
bufs = (1 ∷ 2 ∷ 3 ∷ []) ∷ [] ∷ (4 ∷ []) ∷ []

abbrev other : Message
other = record { src_task = 1; body = window_close 7 }

abbrev queue : List Message
queue = pipe_message (1 ∷ 2 ∷ 3 ∷ []) ∷ other ∷ pipe_message (4 ∷ []) ∷ finish_write ∷ other ∷ []

of_pipe : pipe_messages queue ≡ written bufs ++ finish_write ∷ []
unfolding write pipe_message finish_write
of_pipe = refl

read_all-written_example : read_all 5 new_pipe queue 2 ≡ some (1 ∷ 2 ∷ 3 ∷ 4 ∷ [])
read_all-written_example = read_all-written bufs queue [] 2 of_pipe (omega arith)
