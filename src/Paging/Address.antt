-- ===== src/Paging/Address.antt =====
-- LinearAddress4Level: SetPart writes one part, and the loop of SetupPageMap goes to the next page
-- of its level.
use duvuvurkarpogeschel.Prelude.{
  ℕ, zero, suc, ◌+◌, ◌*◌, ◌/◌, ◌%◌, ◌^◌, ◌<◌, ◌≤◌, ◌≡◌, ◌≢◌, refl, arith,
}
use duvuvurkarpogeschel.Paging.{part, set_part, clear_parts, next_address}

-- The size of what an entry of a level maps.
abbrev pub span : ℕ → ℕ
span zero = 1
span (suc level) = 2 ^ (12 + 9 * level)

-- From the address in an entry of a level that is not the map's last one, the loop of SetupPageMap
-- goes on to the start of the next entry's part of the address space, with the same offset in its
-- page: the entry's index is one more, and the upper parts are the same.
pub next_address_lem :
    (a level : ℕ)
    → 1 ≤ level
    → level ≤ 4
    → part a level < 511
    → (next_address a level (part a level) ≡ (a / span level + 1) * span level + a % 2 ^ 12)
      × (part (next_address a level (part a level)) level ≡ part a level + 1)
unfolding next_address clear_parts set_part part
next_address_lem a zero h k l = absurd (omega arith)
next_address_lem a (suc zero) h k l = (omega arith, omega arith)
next_address_lem a (suc (suc zero)) h k l = (omega arith, omega arith)
next_address_lem a (suc (suc (suc zero))) h k l = (omega arith, omega arith)
next_address_lem a (suc (suc (suc (suc zero)))) h k l = (omega arith, omega arith)
next_address_lem a (suc (suc (suc (suc (suc level))))) h k l = absurd (omega arith)

abbrev pub bits_of_part : ℕ → ℕ
bits_of_part zero = 12
bits_of_part (suc level) = 9

set_self :
    (a level value : ℕ)
    → level ≤ 4
    → part (set_part a level value) level ≡ value % 2 ^ bits_of_part level
unfolding set_part part
set_self a zero value h = omega arith
set_self a (suc zero) value h = omega arith
set_self a (suc (suc zero)) value h = omega arith
set_self a (suc (suc (suc zero))) value h = omega arith
set_self a (suc (suc (suc (suc zero)))) value h = omega arith
set_self a (suc (suc (suc (suc (suc level))))) value h = absurd (omega arith)

set_ne :
    (a level other value : ℕ)
    → level ≤ 4
    → other ≤ 4
    → other ≢ level
    → part (set_part a level value) other ≡ part a other
unfolding set_part part
set_ne a zero zero value h k l = absurd (l refl)
set_ne a zero (suc zero) value h k l = omega arith
set_ne a zero (suc (suc zero)) value h k l = omega arith
set_ne a zero (suc (suc (suc zero))) value h k l = omega arith
set_ne a zero (suc (suc (suc (suc zero)))) value h k l = omega arith
set_ne a zero (suc (suc (suc (suc (suc other))))) value h k l = absurd (omega arith)
set_ne a (suc zero) zero value h k l = omega arith
set_ne a (suc zero) (suc zero) value h k l = absurd (l refl)
set_ne a (suc zero) (suc (suc zero)) value h k l = omega arith
set_ne a (suc zero) (suc (suc (suc zero))) value h k l = omega arith
set_ne a (suc zero) (suc (suc (suc (suc zero)))) value h k l = omega arith
set_ne a (suc zero) (suc (suc (suc (suc (suc other))))) value h k l = absurd (omega arith)
set_ne a (suc (suc zero)) zero value h k l = omega arith
set_ne a (suc (suc zero)) (suc zero) value h k l = omega arith
set_ne a (suc (suc zero)) (suc (suc zero)) value h k l = absurd (l refl)
set_ne a (suc (suc zero)) (suc (suc (suc zero))) value h k l = omega arith
set_ne a (suc (suc zero)) (suc (suc (suc (suc zero)))) value h k l = omega arith
set_ne a (suc (suc zero)) (suc (suc (suc (suc (suc other))))) value h k l = absurd (omega arith)
set_ne a (suc (suc (suc zero))) zero value h k l = omega arith
set_ne a (suc (suc (suc zero))) (suc zero) value h k l = omega arith
set_ne a (suc (suc (suc zero))) (suc (suc zero)) value h k l = omega arith
set_ne a (suc (suc (suc zero))) (suc (suc (suc zero))) value h k l = absurd (l refl)
set_ne a (suc (suc (suc zero))) (suc (suc (suc (suc zero)))) value h k l = omega arith
set_ne a (suc (suc (suc zero))) (suc (suc (suc (suc (suc other))))) value h k l =
    absurd (omega arith)
set_ne a (suc (suc (suc (suc zero)))) zero value h k l = omega arith
set_ne a (suc (suc (suc (suc zero)))) (suc zero) value h k l = omega arith
set_ne a (suc (suc (suc (suc zero)))) (suc (suc zero)) value h k l = omega arith
set_ne a (suc (suc (suc (suc zero)))) (suc (suc (suc zero))) value h k l = omega arith
set_ne a (suc (suc (suc (suc zero)))) (suc (suc (suc (suc zero)))) value h k l = absurd (l refl)
set_ne a (suc (suc (suc (suc zero)))) (suc (suc (suc (suc (suc other))))) value h k l =
    absurd (omega arith)
set_ne a (suc (suc (suc (suc (suc level))))) other value h k l = absurd (omega arith)

-- A part that is set is read back, cut to its bits, and every other part stays the same.
pub part-set_part :
    (a level other value : ℕ)
    → level ≤ 4
    → other ≤ 4
    → other ≢ level
    → (part (set_part a level value) level ≡ value % 2 ^ bits_of_part level)
      × (part (set_part a level value) other ≡ part a other)
part-set_part a level other value h k l =
    (set_self a level value h, set_ne a level other value h k l)
