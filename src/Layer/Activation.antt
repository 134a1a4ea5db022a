-- ===== src/Layer/Activation.antt =====
-- Where Activate puts the active layer.
use duvuvurkarpogeschel.Prelude.{
  ℕ, zero, suc, ◌+◌, ◌-◌, ◌≤◌, ◌<◌, ◌≡◌, ◌≢◌, refl, sym, ap, ◌∙◌, min, true, false, List, [], ◌∷◌,
  ◌==◌, leb, lt→ltb, length, arith,
}
use duvuvurkarpogeschel.Prelude.Int.{pos, negsuc, ◌+ℤ◌}
use duvuvurkarpogeschel.Prelude.Distinct.{IsDistinct, without}
use duvuvurkarpogeschel.Layer.{
  LayerManager, ActiveLayer, up_down, find_layer, get_height, height_of, activate, insert_at,
}
use duvuvurkarpogeschel.Layer.Stack.{
  up_down_lem, up_down_stack, new_index, height_of-insert_at, without-IsNotIn,
}

module _ (x : ℕ) where
  height-below :
      (others : List ℕ) (h k : ℕ) → height_of others h x ≡ pos (h + k) → k < length others
  height-below [] h k found = ground (arith, found)
  height-below (l ∷ others) h zero found = omega arith
  height-below (l ∷ others) h (suc k) found =
      let further : h + suc k ≡ h + 1 + k = omega arith in
      ground (arith, found, further, height-below others (h + 1) k)

  height_shift :
      (others : List ℕ) (h k : ℕ)
      → height_of others h x ≡ pos k
      → height_of others (h + 1) x ≡ pos (k + 1)
  height_shift [] h k found = ground (arith, found)
  height_shift (l ∷ others) h k found = ground (arith, found, height_shift others (h + 1) k)

  -- A layer put just below another.
  height-insert_at :
      (id : ℕ) (others : List ℕ) (h k : ℕ)
      → id ≢ x
      → height_of others h x ≡ pos (h + k)
      → height_of (insert_at others k id) h x ≡ pos (h + k + 1)
  unfolding insert_at
  height-insert_at id [] h k apart found = ground (arith, found)
  height-insert_at id (l ∷ others) h zero apart found =
      ground (arith, apart, height_shift (l ∷ others) h (h + 0) found)
  height-insert_at id (l ∷ others) h (suc k) apart found =
      let further : h + suc k ≡ h + 1 + k = omega arith in
      ground (arith, found, further, height-insert_at id others (h + 1) k apart)

from_zero : (k : ℕ) → 0 + k ≡ k
from_zero k = omega arith

not_equal : (a b : ℕ) → a ≢ b → (a == b) ≡ false
not_equal a b h = ground (arith, h)

height-at-most :
    (x : ℕ) (others : List ℕ) (height : ℕ)
    → height_of others 0 x ≡ pos height
    → height ≤ length others
height-at-most x others height shown =
    let inner = height-below x others 0 height (shown ∙ ap pos (sym (from_zero height))) in
    omega (arith, inner)

leb-true : (k : ℕ) → leb 1 (k + 1 + 0) ≡ true
leb-true k = ground arith

down : (k : ℕ) → pos (k + 1) +ℤ negsuc 0 ≡ pos k
unfolding ◌+ℤ◌
down k = let back : k + 1 + 0 - 1 ≡ k = omega arith in rw (leb-true k, back) refl

module _ (m : LayerManager) (id mouse height : ℕ) (apart : mouse ≢ id)
    (known : find_layer m id ≡ id) (distinct : IsDistinct m.layer_stack)
    (shown : height_of (without id m.layer_stack) 0 mouse ≡ pos height) where
  abbrev others : List ℕ
  others = without id m.layer_stack

  abbrev lowered : LayerManager
  lowered = up_down m id (pos 0)

  lowered_stack : lowered.layer_stack ≡ id ∷ others
  unfolding insert_at
  lowered_stack =
      let bottom : new_index m.layer_stack id 0 ≡ 0 = omega arith in
      up_down_stack m id 0 known distinct ∙ ap (λ k. insert_at others k id) bottom

  target : get_height lowered mouse +ℤ negsuc 0 ≡ pos height
  unfolding get_height
  target =
      ap (λ s. height_of s 0 mouse +ℤ negsuc 0) lowered_stack
      ∙ ap (λ z. z +ℤ negsuc 0) (ground (arith, apart, height_shift mouse others 0 height shown))
      ∙ down height

  still_known : find_layer lowered id ≡ id
  unfolding up_down find_layer
  still_known = known

  raised_stack :
      (up_down lowered id (get_height lowered mouse +ℤ negsuc 0)).layer_stack
      ≡ insert_at others height id
  raised_stack =
      let (height_low, same, distinct_low) = up_down_lem m id 0 known distinct in
      let fits = height-at-most mouse others height shown in
      let here : min height (length others) ≡ height = omega (arith, fits) in
      ap (λ z. (up_down lowered id z).layer_stack) target
      ∙ up_down_stack lowered id height still_known distinct_low
      ∙ ap (λ s. insert_at s (min height (length s)) id) same
      ∙ ap (λ k. insert_at others k id) here

-- Activate on a layer other than the active one, with the mouse's layer in the stack, makes the
-- layer active and puts it just below the mouse's.
pub activate_lem :
    (m : LayerManager) (a : ActiveLayer) (id height : ℕ)
    → 0 < id
    → a.active_layer ≢ id
    → a.mouse_layer ≢ id
    → find_layer m id ≡ id
    → IsDistinct m.layer_stack
    → height_of (without id m.layer_stack) 0 a.mouse_layer ≡ pos height
    → let (after, active) = activate m a id in
      (active.active_layer ≡ id)
      × (get_height after id ≡ pos height)
      × (get_height after a.mouse_layer ≡ pos (height + 1))
unfolding activate get_height
activate_lem m a id height positive other mouse known distinct shown =
    let lowered = up_down m id (pos 0) in
    let z = get_height lowered a.mouse_layer +ℤ negsuc 0 in
    let stack = raised_stack m id a.mouse_layer height mouse known distinct shown in
    let others = without id m.layer_stack in
    rw (not_equal a.active_layer id other, lt→ltb 0 id positive)
      (
        refl,
        ap (λ s. height_of s 0 id) stack
            ∙ height_of-insert_at id height others 0
                (height-at-most a.mouse_layer others height shown)
                (without-IsNotIn id m.layer_stack)
            ∙ ap pos (from_zero height),
        ap (λ s. height_of s 0 a.mouse_layer) stack
            ∙ height-insert_at a.mouse_layer id others 0 height (λ e. mouse (sym e))
                (shown ∙ ap pos (sym (from_zero height)))
            ∙ ap (λ k. pos (k + 1)) (from_zero height),
      )
