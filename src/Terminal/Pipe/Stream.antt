-- ===== src/Terminal/Pipe/Stream.antt =====
-- A pipe hands on the bytes that are written, in their order and up to the end that FinishWrite
-- marks, whatever the sizes of the writes and reads and the other messages between them.
use duvuvurkarpogeschel.Prelude.{
  ℕ, zero, suc, ◌-◌, ◌<◌, ◌≤◌, ◌≡◌, refl, sym, ap, ◌∙◌, min, Bool, true, false, Option, none, some,
  List, [], ◌∷◌, ◌++◌, ltb, if◌then◌else◌, take, drop, length, length-take, length-drop,
  take-append-drop, arith, ◌⊎◌, inl, inr, length-append,
}
use mathlib.Core.Path.{subst}
use mathlib.Core.Bool.{false≢true}
use mathlib.Core.List.{append_assoc}
use duvuvurkarpogeschel.Message.{
  Message, Body, interrupt_xhci, timer_timeout, key_push, layer, layer_finish, mouse_move,
  mouse_button, window_active, pipe, window_close,
}
use duvuvurkarpogeschel.Terminal.Pipe.{
  PipeDescriptor, new_pipe, read_message, read, message_bytes, pipe_message, write, finish_write,
}

-- The bytes that the pipe's messages carry, up to the one that closes it.
abbrev pub contents : List Message → List ℕ
contents [] = []
contents (m ∷ msgs) = elim m.body [
  | pipe bytes zero ↦ []
  | pipe bytes (suc n) ↦ take (suc n) bytes ++ contents msgs
  | _ ↦ contents msgs
]

abbrev pub is_finished : List Message → Bool
is_finished [] = false
is_finished (m ∷ msgs) = elim m.body [ pipe bytes zero ↦ true | _ ↦ is_finished msgs ]

-- Up to the end no message says more bytes than it has.
abbrev pub AreWhole : List Message → Type 0
AreWhole [] = Unit
AreWhole (m ∷ msgs) = elim m.body [
  | pipe bytes zero ↦ Unit
  | pipe bytes (suc n) ↦ (suc n ≤ length bytes) × AreWhole msgs
  | _ ↦ AreWhole msgs
]

-- What a read hands out of `all` bytes, from a pipe that is not closed: the next of them, at least one
-- unless there are none.
record Progress (all : List ℕ) (len : ℕ) (result : Option (List ℕ × PipeDescriptor × List Message))
    : Type 0 where
  out : List ℕ
  next : PipeDescriptor
  left : List Message
  is_result : result ≡ some (out, next, left)
  size : length out ≤ len
  goes_on :
      (out ≡ []) × (all ≡ [])
      ⊎ (0 < length out)
        × (all ≡ out ++ (next.bytes ++ contents left))
        × (next.closed ≡ false)
        × (is_finished left ≡ true)
        × AreWhole left

take-nil : (n : ℕ) → take {A = ℕ} n [] ≡ []
take-nil zero = refl
take-nil (suc n) = refl

-- A chunk of bytes that is split in what is handed out and what is kept.
take-take-drop :
    (n k : ℕ) (bytes rest : List ℕ)
    → k ≤ n
    → take n bytes ++ rest ≡ take k bytes ++ (take (n - k) (drop k bytes) ++ rest)
take-take-drop n zero bytes rest h = let all : n - 0 ≡ n = omega arith in rw all refl
take-take-drop zero (suc k) bytes rest h = absurd (omega arith)
take-take-drop (suc n) (suc k) [] rest h = rw (take-nil (suc n - suc k)) refl
take-take-drop (suc n) (suc k) (b ∷ bytes) rest h =
    let less : suc n - suc k ≡ n - k = omega arith in
    rw less (ap (λ r. b ∷ r) (take-take-drop n k bytes rest (omega arith)))

receive_one :
    (src : ℕ) (b : Body) (msgs : List Message) (len : ℕ)
    → 0 < len
    → AreWhole (record { src_task = src; body = b } ∷ msgs)
    → is_finished (record { src_task = src; body = b } ∷ msgs) ≡ true
    → (is_finished msgs ≡ true
        → AreWhole msgs
        → Progress (contents msgs) len (read_message msgs len))
    → Progress
        (contents (record { src_task = src; body = b } ∷ msgs))
        len
        (read_message (record { src_task = src; body = b } ∷ msgs) len)
unfolding read_message
receive_one src interrupt_xhci msgs len h w f rest = rest f w
receive_one src (timer_timeout t v) msgs len h w f rest = rest f w
receive_one src (key_push m k u p) msgs len h w f rest = rest f w
receive_one src (layer o i a b c d) msgs len h w f rest = rest f w
receive_one src layer_finish msgs len h w f rest = rest f w
receive_one src (mouse_move a b c d e) msgs len h w f rest = rest f w
receive_one src (mouse_button a b c d) msgs len h w f rest = rest f w
receive_one src (window_active a) msgs len h w f rest = rest f w
receive_one src (window_close a) msgs len h w f rest = rest f w
receive_one src (pipe bytes zero) msgs len h w f rest = record {
  out = [];
  next = record { bytes = []; closed = true };
  left = msgs;
  is_result = refl;
  size = omega arith;
  goes_on = inl (refl, refl);
}
receive_one src (pipe bytes (suc n)) msgs len h w f rest = record {
  out = take (min (suc n) len) bytes;
  next = record {
    bytes = take (suc n - min (suc n) len) (drop (min (suc n) len) bytes);
    closed = false;
  };
  left = msgs;
  is_result = refl;
  size = omega (arith, length-take (min (suc n) len) bytes);
  goes_on = inr (
    omega (arith, length-take (min (suc n) len) bytes, w.0),
    take-take-drop (suc n) (min (suc n) len) bytes (contents msgs) (omega arith),
    refl,
    f,
    w.1,
  );
}

receive :
    (msgs : List Message) (len : ℕ)
    → 0 < len
    → AreWhole msgs
    → is_finished msgs ≡ true
    → Progress (contents msgs) len (read_message msgs len)
receive [] len h w f = absurd (false≢true f)
receive (m ∷ msgs) len h w f =
    receive_one m.src_task m.body msgs len h w f (λ g v. receive msgs len h v g)

read_lem :
    (bytes : List ℕ) (msgs : List Message) (len : ℕ)
    → 0 < len
    → AreWhole msgs
    → is_finished msgs ≡ true
    → Progress
        (bytes ++ contents msgs)
        len
        (read (record { bytes = bytes; closed = false }) msgs len)
unfolding read
read_lem [] msgs len h w f = receive msgs len h w f
read_lem (b ∷ bytes) msgs len h w f =
    let copy = min (length (b ∷ bytes)) len in
    let some_kept : ltb 0 (length (b ∷ bytes)) ≡ true = ground arith in
    record {
      out = take copy (b ∷ bytes);
      next = record { bytes = drop copy (b ∷ bytes); closed = false };
      left = msgs;
      is_result = rw some_kept refl;
      size = omega (arith, length-take copy (b ∷ bytes));
      goes_on = inr (
        omega (arith, length-take copy (b ∷ bytes)),
        ap (λ l. l ++ contents msgs) (sym (take-append-drop copy (b ∷ bytes)))
            ∙ append_assoc (take copy (b ∷ bytes)) (drop copy (b ∷ bytes)) (contents msgs),
        refl,
        f,
        w,
      );
    }

-- A reader that reads `len` bytes at a time, until it gets none.
with_front : List ℕ → Option (List ℕ) → Option (List ℕ)
with_front out none = none
with_front out (some rest) = some (out ++ rest)

collect :
    Option (List ℕ × PipeDescriptor × List Message)
    → (PipeDescriptor → List Message → Option (List ℕ))
    → Option (List ℕ)
collect none next = none
collect (some r) next = if ltb 0 (length r.0) then with_front r.0 (next r.1 r.2) else some []

pub read_all : (fuel : ℕ) → PipeDescriptor → List Message → (len : ℕ) → Option (List ℕ)
read_all zero d msgs len = none
read_all (suc fuel) d msgs len =
    collect (read d msgs len)
      (λ (e : PipeDescriptor) (left : List Message). read_all fuel e left len)

open_pipe : (d : PipeDescriptor) → d.closed ≡ false → d ≡ record { bytes = d.bytes; closed = false }
open_pipe d e = ap (λ c. record { bytes = d.bytes; closed = c }) e

read_all-contents :
    (fuel : ℕ) (bytes : List ℕ) (msgs : List Message) (len : ℕ)
    → 0 < len
    → AreWhole msgs
    → is_finished msgs ≡ true
    → length (bytes ++ contents msgs) < fuel
    → read_all fuel (record { bytes = bytes; closed = false }) msgs len
      ≡ some (bytes ++ contents msgs)
unfolding read_all collect with_front
read_all-contents zero bytes msgs len h w f enough = absurd (omega arith)
read_all-contents (suc fuel) bytes msgs len h w f enough =
    let p = read_lem bytes msgs len h w f in
    rw p.is_result (elim p.goes_on [
      | inl e ↦ rw (e.0, e.1) refl
      | inr e ↦
          let out_size = length-append p.out (p.next.bytes ++ contents p.left) in
          let all_size = ap length e.1 in
          let gets : ltb 0 (length p.out) ≡ true = ground (arith, e.0) in
          let rest =
            read_all-contents fuel p.next.bytes p.left len h e.4 e.3
              (omega (arith, enough, out_size, all_size, e.0)) in
          rw gets (
            ap (with_front p.out)
              (ap (λ d. read_all fuel d p.left len) (open_pipe p.next e.2) ∙ rest)
            ∙ ap some (sym e.1))
    ])

take-all : (xs : List ℕ) → take (length xs) xs ≡ xs
take-all [] = refl
take-all (x ∷ xs) = ap (λ r. x ∷ r) (take-all xs)

one_message :
    (chunk : List ℕ) (msgs : List Message)
    → 0 < length chunk
    → (contents (pipe_message chunk ∷ msgs) ≡ chunk ++ contents msgs)
      × (is_finished (pipe_message chunk ∷ msgs) ≡ is_finished msgs)
      × (AreWhole msgs → AreWhole (pipe_message chunk ∷ msgs))
unfolding pipe_message
one_message [] msgs h = absurd (omega arith)
one_message (c ∷ cs) msgs h =
    (ap (λ r. c ∷ (r ++ contents msgs)) (take-all cs), refl, λ w. (omega arith, w))

write-contents :
    (fuel : ℕ) (buf : List ℕ) (rest : List Message)
    → length buf ≤ fuel
    → (contents (write fuel buf ++ rest) ≡ buf ++ contents rest)
      × (is_finished (write fuel buf ++ rest) ≡ is_finished rest)
      × (AreWhole rest → AreWhole (write fuel buf ++ rest))
unfolding write
write-contents zero [] rest h = (refl, refl, λ w. w)
write-contents zero (b ∷ buf) rest h = absurd (omega arith)
write-contents (suc fuel) [] rest h = (refl, refl, λ w. w)
write-contents (suc fuel) (b ∷ buf) rest h =
    let sent = min (length (b ∷ buf)) message_bytes in
    let more =
      write-contents fuel (drop sent (b ∷ buf)) rest
        (omega (arith, h, length-drop sent (b ∷ buf))) in
    let first =
      one_message (take sent (b ∷ buf)) (write fuel (drop sent (b ∷ buf)) ++ rest)
        (omega (arith, length-take sent (b ∷ buf))) in
    let some_left : ltb 0 (suc (length buf)) ≡ true = ground arith in
    rw some_left (
      first.0
          ∙ ap (λ r. take sent (b ∷ buf) ++ r) more.0
          ∙ sym (append_assoc (take sent (b ∷ buf)) (drop sent (b ∷ buf)) (contents rest))
          ∙ ap (λ r. r ++ contents rest) (take-append-drop sent (b ∷ buf)),
      first.1 ∙ more.1,
      λ w. first.2 (more.2 w),
    )

-- What Write sends for each of some buffers, and all of it.
abbrev pub written : List (List ℕ) → List Message
written [] = []
written (buf ∷ bufs) = write (length buf) buf ++ written bufs

abbrev pub joined : List (List ℕ) → List ℕ
joined [] = []
joined (buf ∷ bufs) = buf ++ joined bufs

written-contents :
    (bufs : List (List ℕ)) (later : List Message)
    → (contents (written bufs ++ finish_write ∷ later) ≡ joined bufs)
      × (is_finished (written bufs ++ finish_write ∷ later) ≡ true)
      × AreWhole (written bufs ++ finish_write ∷ later)
unfolding finish_write pipe_message
written-contents [] later = (refl, refl, tt)
written-contents (buf ∷ bufs) later =
    let rest = written-contents bufs later in
    let one =
      write-contents (length buf) buf (written bufs ++ finish_write ∷ later) (omega arith) in
    rw append_assoc (one.0 ∙ ap (λ r. buf ++ r) rest.0, one.1 ∙ rest.1, one.2 rest.2)

-- The messages that the pipe takes notice of.
abbrev pub pipe_messages : List Message → List Message
pipe_messages [] = []
pipe_messages (m ∷ msgs) = elim m.body [
  | pipe bytes len ↦ m ∷ pipe_messages msgs
  | _ ↦ pipe_messages msgs
]

abbrev Same : List Message → Type 0
Same msgs =
    (contents (pipe_messages msgs) ≡ contents msgs)
    × (is_finished (pipe_messages msgs) ≡ is_finished msgs)
    × (AreWhole (pipe_messages msgs) → AreWhole msgs)

Same-one :
    (src : ℕ) (b : Body) (msgs : List Message)
    → Same msgs
    → Same (record { src_task = src; body = b } ∷ msgs)
Same-one src interrupt_xhci msgs s = s
Same-one src (timer_timeout t v) msgs s = s
Same-one src (key_push m k u p) msgs s = s
Same-one src (layer o i a b c d) msgs s = s
Same-one src layer_finish msgs s = s
Same-one src (mouse_move a b c d e) msgs s = s
Same-one src (mouse_button a b c d) msgs s = s
Same-one src (window_active a) msgs s = s
Same-one src (window_close a) msgs s = s
Same-one src (pipe bytes zero) msgs s = (refl, refl, λ w. tt)
Same-one src (pipe bytes (suc n)) msgs s =
    (ap (λ r. take (suc n) bytes ++ r) s.0, s.1, λ w. (w.0, s.2 w.1))

Same-all : (msgs : List Message) → Same msgs
Same-all [] = (refl, refl, λ w. tt)
Same-all (m ∷ msgs) = Same-one m.src_task m.body msgs (Same-all msgs)

-- The queue of the reader holds, among other messages, what Write sends for some buffers and what
-- FinishWrite sends. Reads of any size but zero, until one gives nothing, give the bytes of all the
-- buffers in order; they end after at most one read for each byte and one more.
pub read_all-written :
    (bufs : List (List ℕ)) (msgs later : List Message) (len : ℕ)
    → pipe_messages msgs ≡ written bufs ++ finish_write ∷ later
    → 0 < len
    → read_all (suc (length (joined bufs))) new_pipe msgs len ≡ some (joined bufs)
unfolding new_pipe
read_all-written bufs msgs later len e h =
    let sent = written-contents bufs later in
    let s = Same-all msgs in
    let all : contents msgs ≡ joined bufs = sym s.0 ∙ ap contents e ∙ sent.0 in
    let finished : is_finished msgs ≡ true = sym s.1 ∙ ap is_finished e ∙ sent.1 in
    let whole : AreWhole msgs = s.2 (subst AreWhole (sym e) sent.2) in
    read_all-contents (suc (length (joined bufs))) [] msgs len h whole finished
      (omega (arith, ap length all))
    ∙ ap some all
