-- ===== src/Layer.antt =====
-- kernel/layer.hpp and kernel/layer.cpp: the layers and their stack, lowest first. A Layer* is the
-- layer's ID, 0 for nullptr, since IDs start at 1. A window is its size; drawing is left out.
pub mod Stack
pub mod Position
pub mod Activation
mod Tests
use duvuvurkarpogeschel.Prelude.{
  ℕ, zero, suc, ◌+◌, ◌-◌, Bool, true, false, not, ◌&&◌, Option, none, some, List, [], ◌∷◌, ◌++◌,
  ◌==◌, leb, ltb, if◌then◌else◌, length,
}
use duvuvurkarpogeschel.Prelude.Int.{ℤ, pos, negsuc, ◌+ℤ◌, ltb_ℤ}

pub record Vector2D : Type 0 where
  pub x : ℤ
  pub y : ℤ

pub add_vector : Vector2D → Vector2D → Vector2D
add_vector a b = record { x = a.x +ℤ b.x; y = a.y +ℤ b.y }

pub record Layer : Type 0 where
  pub id : ℕ
  pub position : Vector2D
  pub window : Option Vector2D
  pub draggable : Bool

pub record LayerManager : Type 0 where
  pub layers : List Layer
  pub layer_stack : List ℕ
  pub latest_id : ℕ

pub new_layer : LayerManager → LayerManager
new_layer m =
    let latest_id = m.latest_id + 1 in
    let origin : Vector2D = record { x = pos 0; y = pos 0 } in
    let layer : Layer = record {
      id = latest_id;
      position = origin;
      window = none;
      draggable = false;
    } in
    record m { latest_id = latest_id; layers = m.layers ++ layer ∷ [] }

abbrev pub layer_of : List Layer → ℕ → Option Layer
layer_of [] id = none
layer_of (l ∷ ls) id = if l.id == id then some l else layer_of ls id

abbrev pointer : Option Layer → ℕ
pointer none = 0
pointer (some l) = l.id

pub find_layer : LayerManager → ℕ → ℕ
find_layer m id = pointer (layer_of m.layers id)

-- `std::find`, which gives the length at the end.
pub find_index : List ℕ → ℕ → ℕ
find_index [] layer = 0
find_index (l ∷ ls) layer = if l == layer then 0 else suc (find_index ls layer)

-- `std::vector::erase` and `std::vector::insert` at an index.
pub erase_at : List ℕ → ℕ → List ℕ
erase_at [] i = []
erase_at (l ∷ ls) zero = ls
erase_at (l ∷ ls) (suc i) = l ∷ erase_at ls i

pub insert_at : List ℕ → ℕ → ℕ → List ℕ
insert_at ls zero layer = layer ∷ ls
insert_at [] (suc i) layer = layer ∷ []
insert_at (l ∷ ls) (suc i) layer = l ∷ insert_at ls i layer

pub hide : LayerManager → ℕ → LayerManager
hide m id =
    let at = find_index m.layer_stack (find_layer m id) in
    if not (at == length m.layer_stack)
    then record m { layer_stack = erase_at m.layer_stack at }
    else m

-- What `UpDown` does to the stack for a height that is not negative.
pub move_to : List ℕ → (layer height : ℕ) → List ℕ
move_to stack layer height =
    let new_height = if ltb (length stack) height then length stack else height in
    let old_pos = find_index stack layer in
    let new_pos = if new_height == length stack then new_height - 1 else new_height in
    if old_pos == length stack
    then insert_at stack new_height layer
    else insert_at (erase_at stack old_pos) new_pos layer

pub up_down : LayerManager → ℕ → ℤ → LayerManager
up_down m id (negsuc n) = hide m id
up_down m id (pos height) = record m {
  layer_stack = move_to m.layer_stack (find_layer m id) height;
}

abbrev remove_id : ℕ → List Layer → List Layer
remove_id id [] = []
remove_id id (l ∷ ls) = if l.id == id then remove_id id ls else l ∷ remove_id id ls

pub remove_layer : LayerManager → ℕ → LayerManager
remove_layer m id = let hidden = hide m id in record hidden { layers = remove_id id hidden.layers }

-- Whether a window at `corner` covers a position.
pub covers : Vector2D → Vector2D → Vector2D → Bool
covers corner size p =
    let end = add_vector corner size in
    not (ltb_ℤ p.x corner.x) && ltb_ℤ p.x end.x && (not (ltb_ℤ p.y corner.y) && ltb_ℤ p.y end.y)

abbrev pub window_covers : Vector2D → Vector2D → Option Vector2D → Bool
window_covers p corner none = false
window_covers p corner (some size) = covers corner size p

abbrev pub layer_covers : Vector2D → Option Layer → Bool
layer_covers p none = false
layer_covers p (some l) = window_covers p l.position l.window

-- The predicate of `FindLayerByPosition`. There is no null pointer in the stack.
pub is_hit : LayerManager → Vector2D → (exclude_id layer : ℕ) → Bool
is_hit m p exclude_id layer =
    if layer == exclude_id then false else layer_covers p (layer_of m.layers layer)

-- `std::find_if` from the end.
pub find_last : (ℕ → Bool) → List ℕ → ℕ
find_last pred [] = 0
find_last pred (l ∷ ls) =
    let above = find_last pred ls in if not (above == 0) then above else if pred l then l else 0

pub find_layer_by_position : LayerManager → Vector2D → ℕ → ℕ
find_layer_by_position m p exclude_id = find_last (is_hit m p exclude_id) m.layer_stack

abbrev height_of : List ℕ → (h id : ℕ) → ℤ
height_of [] h id = negsuc 0
height_of (l ∷ ls) h id = if l == id then pos h else height_of ls (h + 1) id

pub get_height : LayerManager → ℕ → ℤ
get_height m id = height_of m.layer_stack 0 id

-- `ActiveLayer`, with the windows and messages left out.
pub record ActiveLayer : Type 0 where
  pub active_layer : ℕ
  pub mouse_layer : ℕ

pub activate : LayerManager → ActiveLayer → ℕ → LayerManager × ActiveLayer
activate m a layer_id =
    let lowered = up_down m layer_id (pos 0) in
    let raised = up_down lowered layer_id (get_height lowered a.mouse_layer +ℤ negsuc 0) in
    if a.active_layer == layer_id
    then (m, a)
    else (if ltb 0 layer_id then raised else m, record a { active_layer = layer_id })
