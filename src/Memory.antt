-- ===== src/Memory.antt =====
-- kernel/memory_manager.hpp and kernel/memory_manager.cpp: physical frames in a bitmap.
-- A frame is its number. An access outside the bitmap is undefined in C++: here a read gives a
-- free frame and a write is lost, and the theorems bound the frames.
pub mod Line
pub mod Marks
pub mod Allocate
pub mod Ownership
pub mod Statistics
pub mod Boot
mod Tests
use duvuvurkarpogeschel.Prelude.{
  ℕ, zero, suc, ◌+◌, ◌-◌, ◌*◌, ◌/◌, ◌%◌, ◌^◌, Bool, true, false, not, Option, none, some, List, [],
  ◌∷◌, ◌==◌, leb, ltb, if◌then◌else◌, get_or, set, length, replicate, bit_and, bit_or, ◌||◌,
}
use duvuvurkarpogeschel.Prelude.Words.{word, add_size, sub_size, mul_size}
use duvuvurkarpogeschel.Prelude.Bits.{bit}
use duvuvurkarpogeschel.Error.{WithError, ok, err, no_enough_memory}

abbrev pub bytes_per_frame : ℕ
bytes_per_frame = 4096

-- kMaxPhysicalMemoryBytes / kBytesPerFrame
abbrev pub frame_count : ℕ
frame_count = 128 * 1024 * 1024 * 1024 / bytes_per_frame

abbrev pub bits_per_map_line : ℕ
bits_per_map_line = 64

pub record BitmapMemoryManager : Type 0 where
  pub alloc_map : List ℕ
  pub range_begin : ℕ
  pub range_end : ℕ

-- Shut, so that no proof unrolls the half million lines of the bitmap.
pub line_count : ℕ
line_count = frame_count / bits_per_map_line

-- The constructor.
pub new_manager : BitmapMemoryManager
new_manager = record {
  alloc_map = replicate line_count 0;
  range_begin = 0;
  range_end = frame_count;
}

unfoldable pub get_bit : BitmapMemoryManager → ℕ → Bool
get_bit m frame =
    let line_index = frame / bits_per_map_line in
    let bit_index = frame % bits_per_map_line in
    not (bit_and (get_or m.alloc_map line_index 0) (2 ^ bit_index) == 0)

unfoldable pub set_bit : BitmapMemoryManager → ℕ → Bool → BitmapMemoryManager
set_bit m frame allocated =
    let line_index = frame / bits_per_map_line in
    let bit_index = frame % bits_per_map_line in
    let line = get_or m.alloc_map line_index 0 in
    if allocated
    then record m { alloc_map = set m.alloc_map line_index (bit_or line (2 ^ bit_index)) }
    else record m {
      alloc_map = set m.alloc_map line_index (bit_and line (word - 1 - 2 ^ bit_index));
    }

-- The loop of `MarkAllocated` and of `Free`, with the rounds left.
unfoldable pub set_bits : BitmapMemoryManager → ℕ → Bool → (left i : ℕ) → BitmapMemoryManager
set_bits m start allocated zero i = m
set_bits m start allocated (suc left) i =
    set_bits (set_bit m (add_size start i) allocated) start allocated left (i + 1)

unfoldable pub mark_allocated : BitmapMemoryManager → ℕ → ℕ → BitmapMemoryManager
mark_allocated m start num_frames = set_bits m start true num_frames 0

-- `Free` always returns kSuccess.
pub free : BitmapMemoryManager → ℕ → ℕ → BitmapMemoryManager
free m start num_frames = set_bits m start false num_frames 0

pub set_memory_range : BitmapMemoryManager → ℕ → ℕ → BitmapMemoryManager
set_memory_range m range_begin range_end = record m {
  range_begin = range_begin;
  range_end = range_end;
}

-- How the inner loop of `Allocate` ends.
pub data Scan : Type 0 where
  out_of_range : Scan
  used_at : ℕ → Scan
  all_free : Scan

unfoldable pub scan : BitmapMemoryManager → ℕ → (left i : ℕ) → Scan
scan m start zero i = all_free
scan m start (suc left) i =
    let rest = scan m start left (i + 1) in
    if leb m.range_end (add_size start i)
    then out_of_range
    else if get_bit m (add_size start i)
    then used_at i
    else rest

-- The outer loop of `Allocate`: `none` means that the fuel ran out.
unfoldable pub search_run : BitmapMemoryManager → ℕ → (fuel start : ℕ) → Option (WithError ℕ)
search_run m num_frames zero start = none
search_run m num_frames (suc fuel) start = elim (scan m start num_frames 0) [
  | out_of_range ↦ some (err no_enough_memory)
  | used_at i ↦ search_run m num_frames fuel (add_size start (i + 1))
  | all_free ↦ some (ok start)
]

-- A successful search marks what it found.
abbrev pub commit : BitmapMemoryManager → ℕ → WithError ℕ → WithError ℕ × BitmapMemoryManager
commit m num_frames (ok start) = (ok start, mark_allocated m start num_frames)
commit m num_frames (err e) = (err e, m)

-- Each round moves the start on, so that the length of the range is fuel enough.
unfoldable pub allocate : BitmapMemoryManager → ℕ → Option (WithError ℕ × BitmapMemoryManager)
allocate m num_frames =
    elim (search_run m num_frames (suc (m.range_end - m.range_begin)) m.range_begin) [
      | none ↦ none
      | some r ↦ some (commit m num_frames r)
    ]

-- `std::bitset<64>(line).count()`
pub count_ones : (width line : ℕ) → ℕ
count_ones zero line = 0
count_ones (suc width) line = bit line width + count_ones width line

pub sum_lines : BitmapMemoryManager → (left i : ℕ) → ℕ
sum_lines m zero i = 0
sum_lines m (suc left) i =
    count_ones bits_per_map_line (get_or m.alloc_map i 0) + sum_lines m left (i + 1)

-- The allocated frames and all frames of the range.
pub stat : BitmapMemoryManager → ℕ × ℕ
stat m =
    let first = m.range_begin / bits_per_map_line in
    let last = m.range_end / bits_per_map_line in
    (sum_lines m (last - first) first, sub_size m.range_end m.range_begin)
