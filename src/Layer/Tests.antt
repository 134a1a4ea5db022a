-- ===== src/Layer/Tests.antt =====
-- A stack of four layers, and the theorems at it.
use duvuvurkarpogeschel.Prelude.{ℕ, ◌≡◌, refl, true, some, [], ◌∷◌, arith}
use duvuvurkarpogeschel.Prelude.Int.{pos, ◌+ℤ◌}
use duvuvurkarpogeschel.Prelude.Distinct.{IsDistinct, without}
use duvuvurkarpogeschel.Layer.{
  Vector2D, Layer, LayerManager, ActiveLayer, find_layer, find_layer_by_position, up_down,
  get_height, activate, is_hit, covers, add_vector, find_last,
}
use duvuvurkarpogeschel.Layer.Stack.{up_down_lem}
use duvuvurkarpogeschel.Layer.Position.{IsTopmost, IsUnder, find_layer_by_position_lem}
use duvuvurkarpogeschel.Layer.Activation.{activate_lem}

abbrev vector : ℕ → ℕ → Vector2D
vector x y = record { x = pos x; y = pos y }

abbrev layer : ℕ → Vector2D → Layer
layer id position = record {
  id = id;
  position = position;
  window = some (vector 10 10);
  draggable = true;
}

-- The layer 4 is the mouse's.
abbrev manager : LayerManager
manager = record {
  layers =
      layer 1 (vector 0 0)
      ∷ layer 2 (vector 5 5)
      ∷ layer 3 (vector 20 0)
      ∷ layer 4 (vector 6 6)
      ∷ [];
  layer_stack = 1 ∷ 2 ∷ 3 ∷ 4 ∷ [];
  latest_id = 4;
}

stack-IsDistinct : IsDistinct manager.layer_stack
stack-IsDistinct = ground arith

known : find_layer manager 1 ≡ 1
unfolding find_layer
known = refl

-- The layer 2 covers the position 7, 7 above the layer 1.
found : find_layer_by_position manager (vector 7 7) 4 ≡ 2
unfolding find_layer_by_position find_last is_hit covers add_vector ◌+ℤ◌
found = refl

find_layer_by_position_lem_example :
    IsTopmost
      (IsUnder manager (vector 7 7) 4)
      manager.layer_stack
      (find_layer_by_position manager (vector 7 7) 4)
find_layer_by_position_lem_example =
    find_layer_by_position_lem manager (vector 7 7) 4
      (omega arith, (omega arith, (omega arith, (omega arith, tt))))

up_down_lem_example :
    (get_height (up_down manager 1 (pos 9)) 1 ≡ pos 3)
    × (without 1 (up_down manager 1 (pos 9)).layer_stack ≡ 2 ∷ 3 ∷ 4 ∷ [])
    × IsDistinct (up_down manager 1 (pos 9)).layer_stack
up_down_lem_example = up_down_lem manager 1 9 known stack-IsDistinct

abbrev active : ActiveLayer
active = record { active_layer = 3; mouse_layer = 4 }

activate_lem_example :
    ((activate manager active 1).1.active_layer ≡ 1)
    × (get_height (activate manager active 1).0 1 ≡ pos 2)
    × (get_height (activate manager active 1).0 4 ≡ pos 3)
activate_lem_example =
    activate_lem manager active 1 2 (omega arith) (λ e. omega (arith, e)) (λ e. omega (arith, e))
      known stack-IsDistinct refl
