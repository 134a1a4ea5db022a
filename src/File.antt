-- ===== src/File.antt =====
-- kernel/file.cpp: ReadBinary and ReadDelim on any descriptor. `read` is the virtual call for one
-- byte: none at the end.
pub mod Delim
mod Tests
use duvuvurkarpogeschel.Prelude.{
  ℕ, zero, suc, ◌-◌, Bool, true, false, Option, none, some, List, [], ◌∷◌, ◌==◌, if◌then◌else◌,
}

module _ {S : Type 0} (read : S → Option ℕ × S) where
  abbrev pub add_byte : ℕ → List ℕ × S → List ℕ × S
  add_byte byte r = (byte ∷ r.0, r.1)

  -- One round: what was read, the descriptor after it, and the rounds that follow.
  stop_or_go : Option ℕ → S → List ℕ × S → List ℕ × S
  stop_or_go none next rest = ([], next)
  stop_or_go (some byte) next rest = add_byte byte rest

  -- The loop, with the room left in the buffer: the bytes read, and the descriptor after them.
  pub read_binary : (len : ℕ) → S → List ℕ × S
  read_binary zero fd = ([], fd)
  read_binary (suc len) fd = stop_or_go (read fd).0 (read fd).1 (read_binary len (read fd).1)

  stop_at : (delim : ℕ) → Option ℕ → S → List ℕ × S → List ℕ × S
  stop_at delim none next rest = ([], next)
  stop_at delim (some byte) next rest =
      if byte == delim then (byte ∷ [], next) else add_byte byte rest

  pub read_until : (delim len : ℕ) → S → List ℕ × S
  read_until delim zero fd = ([], fd)
  read_until delim (suc len) fd =
      stop_at delim (read fd).0 (read fd).1 (read_until delim len (read fd).1)

  -- One byte of the buffer is for the NUL behind what was read.
  pub read_delim : (delim len : ℕ) → S → List ℕ × S
  read_delim delim len fd = read_until delim (len - 1) fd
