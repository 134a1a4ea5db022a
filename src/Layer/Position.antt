-- ===== src/Layer/Position.antt =====
-- The layer that FindLayerByPosition finds.
use duvuvurkarpogeschel.Prelude.{
  ℕ, ◌<◌, ◌≡◌, ◌≢◌, Option, some, none, refl, ◌+◌, ◌-◌, ◌≤◌, Bool, true, false, not, List, [], ◌∷◌,
  ◌++◌, ◌==◌, if◌then◌else◌, All, arith, inl, inr, Bool-cases, ℕ_discrete, sym, ◌∙◌, ◌&&◌,
}
use mathlib.Core.Bool.{false≢true}
use duvuvurkarpogeschel.Prelude.Int.{
  ℤ, pos, negsuc, ◌+ℤ◌, ltb_ℤ, pos_part, neg_part, +ℤ_parts, eq_of_parts,
}
use duvuvurkarpogeschel.Layer.{
  LayerManager, Vector2D, Layer, layer_of, layer_covers, window_covers, add_vector, covers, is_hit,
  find_last, find_layer_by_position,
}

-- A coordinate is one of the `n` from a corner on, for a size of `n`.
pub InSpan : (corner size at : ℤ) → Type 0
InSpan corner size at = (k n : ℕ) × (size ≡ pos n) × (k < n) × (at ≡ corner +ℤ pos k)

not_before : (a b : ℤ) → ltb_ℤ a b ≡ false → pos_part b + neg_part a ≤ pos_part a + neg_part b
not_before a b e = ground (arith, e)

before : (a b : ℤ) → ltb_ℤ a b ≡ true → pos_part a + neg_part b < pos_part b + neg_part a
before a b e = ground (arith, e)

span_of :
    (corner size at : ℤ)
    → ltb_ℤ at corner ≡ false
    → ltb_ℤ at (corner +ℤ size) ≡ true
    → InSpan corner size at
unfolding InSpan
span_of corner (pos n) at low high =
    let k = pos_part at + neg_part corner - (pos_part corner + neg_part at) in
    let after = not_before at corner low in
    let inside = before at (corner +ℤ pos n) high in
    (
      k,
      n,
      refl,
      omega (arith, after, inside, +ℤ_parts corner (pos n)),
      eq_of_parts at (corner +ℤ pos k) (omega (arith, after, +ℤ_parts corner (pos k))),
    )
span_of corner (negsuc n) at low high = absurd (
    omega (
      arith,
      not_before at corner low,
      before at (corner +ℤ negsuc n) high,
      +ℤ_parts corner (negsuc n),
    ))

InSpan-within :
    (corner size at : ℤ)
    → InSpan corner size at
    → (ltb_ℤ at corner ≡ false) × (ltb_ℤ at (corner +ℤ size) ≡ true)
unfolding InSpan
InSpan-within corner size at (k, n, e, h, a) =
    let at_parts = +ℤ_parts corner (pos k) in
    let end_parts = +ℤ_parts corner (pos n) in
    rw (a, e) (ground (arith, at_parts), ground (arith, at_parts, end_parts, h))

-- A layer other than the excluded one, with a window whose span has the position.
pub IsUnder : LayerManager → Vector2D → (exclude_id layer : ℕ) → Type 0
IsUnder m p exclude_id layer =
    (layer ≢ exclude_id)
    × (l : Layer) × (size : Vector2D) × (layer_of m.layers layer ≡ some l)
    × (l.window ≡ some size)
    × InSpan l.position.x size.x p.x
    × InSpan l.position.y size.y p.y

-- The highest layer of a stack with a property, or 0 when none has it.
pub data IsTopmost (P : ℕ → Type 0) : List ℕ → ℕ → Type 0 where
  nothing : (stack : List ℕ) → All (λ l. ¬ P l) stack → IsTopmost P stack 0
  topmost :
      (below : List ℕ) (l : ℕ) (above : List ℕ)
      → 0 < l
      → P l
      → All (λ u. ¬ P u) above
      → IsTopmost P (below ++ l ∷ above) l

all_of :
    (a b c d : Bool)
    → (not a && b && (not c && d)) ≡ true
    → (a ≡ false) × (b ≡ true) × (c ≡ false) × (d ≡ true)
all_of a b c d e = (ground (arith, e), ground (arith, e), ground (arith, e), ground (arith, e))

covers-InSpan :
    (corner size p : Vector2D)
    → covers corner size p ≡ true
    → InSpan corner.x size.x p.x × InSpan corner.y size.y p.y
unfolding covers add_vector
covers-InSpan corner size p e =
    let end = add_vector corner size in
    let (low, high, low', high') =
      all_of (ltb_ℤ p.x corner.x) (ltb_ℤ p.x end.x) (ltb_ℤ p.y corner.y) (ltb_ℤ p.y end.y) e in
    (span_of corner.x size.x p.x low high, span_of corner.y size.y p.y low' high')

InSpan-covers :
    (corner size p : Vector2D)
    → InSpan corner.x size.x p.x
    → InSpan corner.y size.y p.y
    → covers corner size p ≡ true
unfolding covers add_vector
InSpan-covers corner size p h k =
    let (low, high) = InSpan-within corner.x size.x p.x h in
    let (low', high') = InSpan-within corner.y size.y p.y k in rw (low, high, low', high') refl

-- What the window of a layer, and a layer, must be for it to cover the position.
abbrev Covering : Vector2D → Vector2D → Option Vector2D → Type 0
Covering p corner window =
    (size : Vector2D) × (window ≡ some size)
    × InSpan corner.x size.x p.x
    × InSpan corner.y size.y p.y

window_covers-Covering :
    (p corner : Vector2D) (window : Option Vector2D)
    → window_covers p corner window ≡ true
    → Covering p corner window
window_covers-Covering p corner none e = absurd (false≢true e)
window_covers-Covering p corner (some size) e =
    let (h, k) = covers-InSpan corner size p e in (size, refl, h, k)

Covering-window_covers :
    (p corner : Vector2D) (window : Option Vector2D)
    → Covering p corner window
    → window_covers p corner window ≡ true
Covering-window_covers p corner window (size, e, h, k) = rw e (InSpan-covers corner size p h k)

layer_covers-Covering :
    (p : Vector2D) (o : Option Layer)
    → layer_covers p o ≡ true
    → (l : Layer) × (size : Vector2D) × (o ≡ some l)
      × (l.window ≡ some size)
      × InSpan l.position.x size.x p.x
      × InSpan l.position.y size.y p.y
layer_covers-Covering p none e = absurd (false≢true e)
layer_covers-Covering p (some l) e =
    let (size, window, h, k) = window_covers-Covering p l.position l.window e in
    (l, size, refl, window, h, k)

is_hit-IsUnder :
    (m : LayerManager) (p : Vector2D) (exclude_id layer : ℕ)
    → is_hit m p exclude_id layer ≡ true
    → IsUnder m p exclude_id layer
unfolding is_hit IsUnder
is_hit-IsUnder m p exclude_id layer e = elim (ℕ_discrete layer exclude_id) [
  | yes same ↦
      let equal : (layer == exclude_id) ≡ true = ground (arith, same) in
      absurd (false≢true (sym (rw equal refl) ∙ e))
  | no other ↦
      let differs : (layer == exclude_id) ≡ false = ground (arith, other) in
      let (l, size, found, window, h, k) =
        layer_covers-Covering p (layer_of m.layers layer) (rw differs at e) in
      (other, l, size, found, window, h, k)
]

IsUnder-is_hit :
    (m : LayerManager) (p : Vector2D) (exclude_id layer : ℕ)
    → IsUnder m p exclude_id layer
    → is_hit m p exclude_id layer ≡ true
unfolding is_hit IsUnder
IsUnder-is_hit m p exclude_id layer (other, l, size, e, w, h, k) =
    let differs : (layer == exclude_id) ≡ false = ground (arith, other) in
    rw (differs, e) (Covering-window_covers p l.position l.window (size, w, h, k))

not_zero : (r : ℕ) → 0 < r → (r == 0) ≡ false
not_zero r h = ground (arith, h)

module _ (m : LayerManager) (p : Vector2D) (exclude_id : ℕ) where
  lower :
      (l r : ℕ) (stack : List ℕ)
      → 0 < l
      → IsTopmost (IsUnder m p exclude_id) stack r
      → IsTopmost
          (IsUnder m p exclude_id)
          (l ∷ stack)
          (if not (r == 0) then r else if is_hit m p exclude_id l then l else 0)
  lower l _ _ positive (nothing stack none_above) = elim (Bool-cases (is_hit m p exclude_id l)) [
    | inl hit ↦
        rw hit (topmost [] l stack positive (is_hit-IsUnder m p exclude_id l hit) none_above)
    | inr miss ↦ rw miss (
        nothing (l ∷ stack)
          ((λ u. false≢true (sym miss ∙ IsUnder-is_hit m p exclude_id l u)), none_above))
  ]
  lower l _ _ positive (topmost below r above set hit none_above) =
      rw (not_zero r set) (topmost (l ∷ below) r above set hit none_above)

  find_last-IsTopmost :
      (stack : List ℕ)
      → All (λ l. 0 < l) stack
      → IsTopmost (IsUnder m p exclude_id) stack (find_last (is_hit m p exclude_id) stack)
  unfolding find_last
  find_last-IsTopmost [] h = nothing [] tt
  find_last-IsTopmost (l ∷ stack) h =
      lower l (find_last (is_hit m p exclude_id) stack) stack h.0 (find_last-IsTopmost stack h.1)

-- FindLayerByPosition returns the highest layer of the stack that is not the excluded one and whose
-- window has the position among its columns and rows, or a null pointer if there is none. The layers
-- of the stack are not null.
pub find_layer_by_position_lem :
    (m : LayerManager) (p : Vector2D) (exclude_id : ℕ)
    → All (λ l. 0 < l) m.layer_stack
    → IsTopmost (IsUnder m p exclude_id) m.layer_stack (find_layer_by_position m p exclude_id)
unfolding find_layer_by_position
find_layer_by_position_lem m p exclude_id h = find_last-IsTopmost m p exclude_id m.layer_stack h
