-- ===== src/Usb/Ring.antt =====
-- kernel/usb/xhci/ring.hpp and ring.cpp: the command and transfer rings that the driver fills and
-- the controller reads. The memory that AllocArray finds is an argument, its address if any.
pub mod Handshake
mod Tests
use duvuvurkarpogeschel.Prelude.{
  ℕ, zero, suc, ◌+◌, ◌-◌, ◌*◌, ◌/◌, ◌%◌, ◌^◌, Bool, true, false, not, Option, none, some, List, [],
  ◌∷◌, ◌==◌, if◌then◌else◌, set, replicate, bit_and, bit_or,
}
use duvuvurkarpogeschel.Error.{WithError, ok, err, no_enough_memory}

-- The four words of a TRB.
pub record Trb : Type 0 where
  pub data0 : ℕ
  pub data1 : ℕ
  pub data2 : ℕ
  pub data3 : ℕ

abbrev pub zero_trb : Trb
zero_trb = record { data0 = 0; data1 = 0; data2 = 0; data3 = 0 }

-- `LinkTRB` with toggle_cycle set: the pointer in 16-byte units above four zero bits, the toggle in
-- bit 1 and the type 6 from bit 10 of the last word.
pub link_trb : (address : ℕ) → Trb
link_trb address =
    let pointer = address / 2 ^ 4 * 2 ^ 4 in
    record {
      data0 = pointer % 2 ^ 32;
      data1 = pointer / 2 ^ 32 % 2 ^ 32;
      data2 = 0;
      data3 = 6 * 2 ^ 10 + 2;
    }

pub record Ring : Type 0 where
  pub address : ℕ
  pub buf : List Trb
  pub buf_size : ℕ
  pub cycle_bit : Bool
  pub write_index : ℕ

pub initialize : (buf_size : ℕ) → Option ℕ → WithError Ring
initialize buf_size none = err no_enough_memory
initialize buf_size (some address) = ok (record {
  address = address;
  buf = replicate buf_size zero_trb;
  buf_size = buf_size;
  cycle_bit = true;
  write_index = 0;
})

abbrev pub bit_of : Bool → ℕ
bit_of true = 1
bit_of false = 0

-- The TRB with the producer's cycle bit.
pub with_cycle : Bool → Trb → Trb
with_cycle cycle t = record t { data3 = bit_or (bit_and t.data3 0xfffffffe) (bit_of cycle) }

pub copy_to_last : Ring → Trb → Ring
copy_to_last r t = record r { buf = set r.buf r.write_index (with_cycle r.cycle_bit t) }

-- The index of the TRB in the ring, and the ring after it.
pub push : Ring → Trb → ℕ × Ring
push r t =
    let copied = copy_to_last r t in
    let next = record copied { write_index = copied.write_index + 1 } in
    let wrapped = copy_to_last next (link_trb r.address) in
    (
      r.write_index,
      if next.write_index == r.buf_size - 1
          then record wrapped { write_index = 0; cycle_bit = not wrapped.cycle_bit }
          else next,
    )
