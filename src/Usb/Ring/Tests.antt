-- ===== src/Usb/Ring/Tests.antt =====
-- A ring of three places, and the theorem on its cycle bits after three TRBs.
use duvuvurkarpogeschel.Prelude.{ℕ, ◌≡◌, refl, true, some, List, [], ◌∷◌, replicate, arith}
use duvuvurkarpogeschel.Error.{ok}
use duvuvurkarpogeschel.Usb.Ring.{Trb, zero_trb, Ring, initialize, push, copy_to_last}
use duvuvurkarpogeschel.Usb.Ring.Handshake.{IsMarked, push_all, pushes-IsMarked}

abbrev ring : Ring
ring = record {
  address = 0x1000;
  buf = replicate 3 zero_trb;
  buf_size = 3;
  cycle_bit = true;
  write_index = 0;
}

abbrev trb : ℕ → Trb
trb n = record { data0 = n; data1 = 0; data2 = 0; data3 = 0x400 }

abbrev trbs : List Trb
trbs = trb 1 ∷ trb 2 ∷ trb 3 ∷ []

-- The third TRB overwrites the first, in the second lap.
third_push : (push_all ring trbs).write_index ≡ 1
unfolding push copy_to_last
third_push = refl

ring_ready : initialize 3 (some 0x1000) ≡ ok ring
unfolding initialize
ring_ready = refl

pushes-IsMarked_example : IsMarked (push_all ring trbs)
pushes-IsMarked_example = pushes-IsMarked 3 0x1000 ring trbs (omega arith) ring_ready
