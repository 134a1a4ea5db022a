-- ===== src/Usb/Pool.antt =====
-- kernel/usb/memory.hpp and kernel/usb/memory.cpp: the memory pool. The pool starts at `memory_pool`; the
-- pointer `alloc_ptr` is the state.
pub mod Blocks
mod Tests
use duvuvurkarpogeschel.Prelude.{
  ℕ, zero, suc, ◌+◌, ◌-◌, ◌*◌, Bool, Option, none, some, ltb, if◌then◌else◌, bit_and,
}
use duvuvurkarpogeschel.Prelude.Words.{word, add_size}

abbrev pub memory_pool_size : ℕ
memory_pool_size = 4096 * 32

-- `Ceil`, of a power of two as alignment: the mask is the complement of one less.
pub ceil : (value alignment : ℕ) → ℕ
ceil value alignment = bit_and (add_size value (alignment - 1)) (word - 1 - (alignment - 1))

pub align : (alloc_ptr alignment : ℕ) → ℕ
align alloc_ptr alignment = if ltb 0 alignment then ceil alloc_ptr alignment else alloc_ptr

pub bound : (alloc_ptr size boundary : ℕ) → ℕ
bound alloc_ptr size boundary =
    let next_boundary = ceil alloc_ptr boundary in
    if ltb 0 boundary
    then if ltb next_boundary (add_size alloc_ptr size) then next_boundary else alloc_ptr
    else alloc_ptr

-- The block, or `none` for a null pointer, and the pointer after it.
pub alloc_mem : (memory_pool alloc_ptr size alignment boundary : ℕ) → Option ℕ × ℕ
alloc_mem memory_pool alloc_ptr size alignment boundary =
    let p = bound (align alloc_ptr alignment) size boundary in
    if ltb (add_size memory_pool memory_pool_size) (add_size p size)
    then (none, p)
    else (some p, add_size p size)
