-- ===== src/Usb/Ring/Handshake.antt =====
-- The cycle bits, by which the controller tells the TRBs that it has not read from the others.
use duvuvurkarpogeschel.Prelude.{
  ℕ, ◌+◌, ◌-◌, ◌≤◌, ◌<◌, ◌≡◌, ◌≢◌, refl, sym, ap, ◌∙◌, Bool, true, false, not, List, [], ◌∷◌, ◌==◌,
  ==_iff, length, get_or, replicate, length-set, length-replicate, get_or-set_self, get_or-set_ne,
  get_or-replicate, arith, bit_and, ℕ_discrete, some,
}
use mathlib.Core.Path.{subst}
use duvuvurkarpogeschel.Prelude.Bits.{bit, bit-bit_or, bit-bit_and}
use duvuvurkarpogeschel.Error.{WithError, ok, err}
use duvuvurkarpogeschel.Usb.Ring.{
  Trb, zero_trb, link_trb, Ring, initialize, bit_of, with_cycle, copy_to_last, push,
}

-- The cycle bit of a place of the ring.
abbrev pub cycle_at : Ring → ℕ → ℕ
cycle_at r i = bit (get_or r.buf i zero_trb).data3 0

-- The places before the one to be written have the producer's cycle bit, the others, the link's
-- included, the opposite one.
pub record IsMarked (r : Ring) : Type 0 where
  pub size : length r.buf ≡ r.buf_size
  pub inside : r.write_index + 1 < r.buf_size
  pub written : (i : ℕ) → i < r.write_index → cycle_at r i ≡ bit_of r.cycle_bit
  pub unwritten :
      (i : ℕ) → r.write_index ≤ i → i < r.buf_size → cycle_at r i ≡ bit_of (not r.cycle_bit)

bit-with_cycle : (cycle : Bool) (t : Trb) → bit (with_cycle cycle t).data3 0 ≡ bit_of cycle
unfolding with_cycle
bit-with_cycle true t =
    omega (arith, bit-bit_or (bit_and t.data3 0xfffffffe) 1 0, bit-bit_and t.data3 0xfffffffe 0)
bit-with_cycle false t =
    omega (arith, bit-bit_or (bit_and t.data3 0xfffffffe) 0 0, bit-bit_and t.data3 0xfffffffe 0)

cycle_at-copy_self :
    (r : Ring) (t : Trb)
    → r.write_index < length r.buf
    → cycle_at (copy_to_last r t) r.write_index ≡ bit_of r.cycle_bit
unfolding copy_to_last
cycle_at-copy_self r t h =
    ap (λ u. bit u.data3 0)
      (get_or-set_self r.buf r.write_index (with_cycle r.cycle_bit t) zero_trb h)
    ∙ bit-with_cycle r.cycle_bit t

cycle_at-copy_ne :
    (r : Ring) (t : Trb) (i : ℕ) → r.write_index ≢ i → cycle_at (copy_to_last r t) i ≡ cycle_at r i
unfolding copy_to_last
cycle_at-copy_ne r t i h =
    ap (λ u. bit u.data3 0)
      (get_or-set_ne r.buf r.write_index i (with_cycle r.cycle_bit t) zero_trb h)

length-copy_to_last : (r : Ring) (t : Trb) → length (copy_to_last r t).buf ≡ length r.buf
unfolding copy_to_last
length-copy_to_last r t = length-set r.buf r.write_index (with_cycle r.cycle_bit t)

not_equal : (a b : ℕ) → a ≢ b → (a == b) ≡ false
not_equal a b h = ground (arith, h)

bit_of-not-not : (c : Bool) → bit_of (not (not c)) ≡ bit_of c
bit_of-not-not true = refl
bit_of-not-not false = refl

module _ (r : Ring) (t : Trb) (h : IsMarked r) where
  abbrev copied : Ring
  copied = copy_to_last r t

  abbrev next : Ring
  next = record copied { write_index = copied.write_index + 1 }

  abbrev linked : Ring
  linked = copy_to_last next (link_trb r.address)

  -- Up to the place just written.
  copied_cycle : (i : ℕ) → i ≤ r.write_index → cycle_at copied i ≡ bit_of r.cycle_bit
  copied_cycle i le = elim (ℕ_discrete r.write_index i) [
    | yes same ↦
        ap (cycle_at copied) (sym same) ∙ cycle_at-copy_self r t (omega (arith, h.size, h.inside))
    | no apart ↦ cycle_at-copy_ne r t i apart ∙ h.written i (omega (arith, le, apart))
  ]

  next-IsMarked : r.write_index + 2 < r.buf_size → IsMarked next
  unfolding copy_to_last
  next-IsMarked room = record {
    size = length-copy_to_last r t ∙ h.size;
    inside = omega (arith, room);
    written = λ i lt. copied_cycle i (omega (arith, lt));
    unwritten = λ i le lt.
        cycle_at-copy_ne r t i (λ e. omega (arith, e, le)) ∙ h.unwritten i (omega (arith, le)) lt;
  }

  linked_cycle :
      r.write_index + 2 ≡ r.buf_size
      → (i : ℕ) → i < r.buf_size
      → cycle_at linked i ≡ bit_of r.cycle_bit
  unfolding copy_to_last
  linked_cycle full i lt = elim (ℕ_discrete (r.write_index + 1) i) [
    | yes same ↦
        ap (cycle_at linked) (sym same)
        ∙ cycle_at-copy_self next (link_trb r.address)
            (omega (arith, length-copy_to_last r t, h.size, full))
    | no apart ↦
        cycle_at-copy_ne next (link_trb r.address) i apart
        ∙ copied_cycle i (omega (arith, lt, full, apart))
  ]

  wrapped-IsMarked :
      r.write_index + 2 ≡ r.buf_size
      → IsMarked (record linked { write_index = 0; cycle_bit = not linked.cycle_bit })
  unfolding copy_to_last
  wrapped-IsMarked full = record {
    size = length-copy_to_last next (link_trb r.address) ∙ length-copy_to_last r t ∙ h.size;
    inside = omega (arith, full, h.inside);
    written = λ i lt. absurd (omega (arith, lt));
    unwritten = λ i le lt. linked_cycle full i lt ∙ sym (bit_of-not-not r.cycle_bit);
  }

push-IsMarked : (r : Ring) (t : Trb) → IsMarked r → IsMarked (push r t).1
unfolding push copy_to_last
push-IsMarked r t h = elim (ℕ_discrete (r.write_index + 1) (r.buf_size - 1)) [
  | yes full ↦
      rw ((==_iff (next r t h).write_index (r.buf_size - 1)).1 full)
        (wrapped-IsMarked r t h (omega (arith, full, h.inside)))
  | no room ↦
      rw (not_equal (next r t h).write_index (r.buf_size - 1) room)
        (next-IsMarked r t h (omega (arith, room, h.inside)))
]

-- The ring after TRBs have been pushed in turn.
abbrev pub push_all : Ring → List Trb → Ring
push_all r [] = r
push_all r (t ∷ ts) = push_all (push r t).1 ts

push_all-IsMarked : (r : Ring) (ts : List Trb) → IsMarked r → IsMarked (push_all r ts)
push_all-IsMarked r [] h = h
push_all-IsMarked r (t ∷ ts) h = push_all-IsMarked (push r t).1 ts (push-IsMarked r t h)

value : Ring → WithError Ring → Ring
value r (ok r') = r'
value r (err e) = r

abbrev fresh : (buf_size address : ℕ) → Ring
fresh buf_size address = record {
  address = address;
  buf = replicate buf_size zero_trb;
  buf_size = buf_size;
  cycle_bit = true;
  write_index = 0;
}

fresh-IsMarked : (buf_size address : ℕ) → 2 ≤ buf_size → IsMarked (fresh buf_size address)
fresh-IsMarked buf_size address room = record {
  size = length-replicate buf_size zero_trb;
  inside = omega (arith, room);
  written = λ i lt. absurd (omega (arith, lt));
  unwritten = λ i le lt. ap (λ t. bit t.data3 0) (get_or-replicate buf_size i zero_trb);
}

initialize-IsMarked :
    (buf_size address : ℕ) (r : Ring)
    → 2 ≤ buf_size
    → initialize buf_size (some address) ≡ ok r
    → IsMarked r
unfolding initialize value
initialize-IsMarked buf_size address r room found =
    subst IsMarked (ap (value r) found) (fresh-IsMarked buf_size address room)

-- However many TRBs are pushed to a ring of two places or more, the places before the write index
-- have the producer's cycle bit and all others, with the link, the opposite one, and the write
-- index stays before the link's place.
pub pushes-IsMarked :
    (buf_size address : ℕ) (r : Ring) (ts : List Trb)
    → 2 ≤ buf_size
    → initialize buf_size (some address) ≡ ok r
    → IsMarked (push_all r ts)
pushes-IsMarked buf_size address r ts room found =
    push_all-IsMarked r ts (initialize-IsMarked buf_size address r room found)
