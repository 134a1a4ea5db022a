-- ===== src/Prelude/Words.antt =====
-- `size_t` and `uint64_t` arithmetic, with its wrap-around written out.
use Prim.Native.Nat.{ℕ, ◌+◌, ◌-◌, ◌*◌, ◌%◌, ◌^◌}

abbrev pub word : ℕ
word = 2 ^ 64

abbrev pub add_size : ℕ → ℕ → ℕ
add_size a b = (a + b) % word

abbrev pub sub_size : ℕ → ℕ → ℕ
sub_size a b = (a + word - b % word) % word

abbrev pub mul_size : ℕ → ℕ → ℕ
mul_size a b = (a * b) % word
