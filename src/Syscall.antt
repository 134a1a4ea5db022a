-- ===== src/Syscall.antt =====
-- kernel/syscall.cpp: the system calls. The current task's message queue, its descriptors and its
-- mappings are arguments of what uses them. Result::error is 0 or a number of errno.h.
pub mod Events
pub mod Files
use duvuvurkarpogeschel.Prelude.{
  ℕ, ◌+◌, ◌*◌, ◌-◌, ◌/◌, ◌%◌, ◌^◌, Bool, ltb, if◌then◌else◌, not, ◌==◌, ◌||◌,
}
use duvuvurkarpogeschel.Prelude.Int.{ℤ, pos, negsuc}

pub record Result : Type 0 where
  pub value : ℕ
  pub error : ℕ

abbrev pub success : ℕ → Result
success value = record { value = value; error = 0 }

abbrev pub failed : ℕ → Result
failed error = record { value = 0; error = error }

abbrev pub eperm : ℕ
eperm = 1

abbrev pub enoent : ℕ
enoent = 2

abbrev pub e2big : ℕ
e2big = 7

abbrev pub ebadf : ℕ
ebadf = 9

abbrev pub efault : ℕ
efault = 14

abbrev pub eisdir : ℕ
eisdir = 21

abbrev pub einval : ℕ
einval = 22

abbrev pub enospc : ℕ
enospc = 28

-- The `int` that a 64-bit argument is cut to.
abbrev pub int_of : ℕ → ℤ
int_of arg =
    let low = arg % 2 ^ 32 in if ltb low (2 ^ 31) then pos low else negsuc (2 ^ 32 - 1 - low)

-- LogString, of the length of its string; the levels are kError, kWarn, kInfo and kDebug.
pub log_string : (level len : ℕ) → Result
log_string level len =
    if not (level == 3 || level == 4 || level == 6 || level == 7)
    then failed eperm
    else if ltb 1024 len
    then failed e2big
    else success len
