-- ===== src/Task.antt =====
-- kernel/task.hpp and kernel/task.cpp, class `Task`: a task, its context and its message queue.
use duvuvurkarpogeschel.Prelude.{
  ℕ, ◌-◌, ◌/◌, ◌*◌, Bool, false, Option, none, some, List, [], ◌∷◌, ◌++◌, replicate,
}
use duvuvurkarpogeschel.Prelude.Int.{ℤ}
use duvuvurkarpogeschel.Message.{Message}

abbrev pub default_level : ℕ
default_level = 1

-- The registers of a task that does not run. `fxsave_area` is 512 bytes.
pub record TaskContext : Type 0 where
  pub cr3 : ℕ
  pub rip : ℕ
  pub rflags : ℕ
  pub reserved1 : ℕ
  pub cs : ℕ
  pub ss : ℕ
  pub fs : ℕ
  pub gs : ℕ
  pub rax : ℕ
  pub rbx : ℕ
  pub rcx : ℕ
  pub rdx : ℕ
  pub rdi : ℕ
  pub rsi : ℕ
  pub rsp : ℕ
  pub rbp : ℕ
  pub r8 : ℕ
  pub r9 : ℕ
  pub r10 : ℕ
  pub r11 : ℕ
  pub r12 : ℕ
  pub r13 : ℕ
  pub r14 : ℕ
  pub r15 : ℕ
  pub fxsave_area : List ℕ

-- `memset` to 0.
abbrev zero_context : TaskContext
zero_context = record {
  cr3 = 0;
  rip = 0;
  rflags = 0;
  reserved1 = 0;
  cs = 0;
  ss = 0;
  fs = 0;
  gs = 0;
  rax = 0;
  rbx = 0;
  rcx = 0;
  rdx = 0;
  rdi = 0;
  rsi = 0;
  rsp = 0;
  rbp = 0;
  r8 = 0;
  r9 = 0;
  r10 = 0;
  r11 = 0;
  r12 = 0;
  r13 = 0;
  r14 = 0;
  r15 = 0;
  fxsave_area = replicate 512 0;
}

pub record FileMapping : Type 0 where
  pub fd : ℤ
  pub vaddr_begin : ℕ
  pub vaddr_end : ℕ

pub record Task : Type 0 where
  pub id : ℕ
  pub context : TaskContext
  pub msgs : List Message
  pub level : ℕ
  pub running : Bool
  pub dpaging_begin : ℕ
  pub dpaging_end : ℕ
  pub file_map_end : ℕ
  pub file_maps : List FileMapping

-- The constructor. The fields that it leaves unset are read only after `InitContext`.
unfoldable pub new : ℕ → Task
new id = record {
  id = id;
  context = zero_context;
  msgs = [];
  level = default_level;
  running = false;
  dpaging_begin = 0;
  dpaging_end = 0;
  file_map_end = 0;
  file_maps = [];
}

abbrev pub kernel_cs : ℕ
kernel_cs = 8

abbrev pub kernel_ss : ℕ
kernel_ss = 16

-- The four bytes of 0x1f80 at 24: all exceptions of MXCSR masked.
abbrev masked_fxsave : List ℕ
masked_fxsave = replicate 24 0 ++ 0x80 ∷ 0x1f ∷ 0 ∷ 0 ∷ replicate 484 0

-- `stack_end` is the address past the new stack, `cr3` the register's value.
unfoldable pub init_context : (cr3 stack_end f data_word : ℕ) → Task → Task
init_context cr3 stack_end f data_word task = record task {
  context = record zero_context {
    cr3 = cr3;
    rflags = 0x202;
    cs = kernel_cs;
    ss = kernel_ss;
    rsp = stack_end / 16 * 16 - 8;
    rip = f;
    rdi = task.id;
    rsi = data_word;
    fxsave_area = masked_fxsave;
  };
}

unfoldable pub set_level : ℕ → Task → Task
set_level level task = record task { level = level }

unfoldable pub set_running : Bool → Task → Task
set_running running task = record task { running = running }

-- `msgs_.push_back`
unfoldable pub push_message : Message → Task → Task
push_message msg task = record task { msgs = task.msgs ++ msg ∷ [] }

unfoldable pub take_message : Task → List Message → Option Message × Task
take_message task [] = (none, task)
take_message task (m ∷ rest) = (some m, record task { msgs = rest })

unfoldable pub receive_message : Task → Option Message × Task
unfolding take_message
receive_message task = take_message task task.msgs
