-- ===== src/Message.antt =====
-- kernel/message.hpp: what tasks and interrupt handlers send. The tagged union is a data type with
-- a constructor for each tag and the fields that go with it.
use duvuvurkarpogeschel.Prelude.{ℕ, List}
use duvuvurkarpogeschel.Prelude.Int.{ℤ}

pub data LayerOperation : Type 0 where
  move move_relative draw draw_area : LayerOperation

pub data Body : Type 0 where
  interrupt_xhci : Body
  timer_timeout : (timeout : ℕ) (value : ℤ) → Body
  key_push : (modifier keycode unicode : ℕ) (press : ℤ) → Body
  layer : LayerOperation → (layer_id : ℕ) (x y w h : ℤ) → Body
  layer_finish : Body
  mouse_move : (x y dx dy : ℤ) (buttons : ℕ) → Body
  mouse_button : (x y press button : ℤ) → Body
  window_active : (activate : ℤ) → Body
  pipe : (bytes : List ℕ) (len : ℕ) → Body
  window_close : (layer_id : ℕ) → Body

pub record Message : Type 0 where
  pub src_task : ℕ
  pub body : Body
