-- ===== src/Compositor/World.antt =====
-- What the handlers read of the state that the libraries keep, at the time of an event.
use zen_os.Base.{ℕ, Bool, Option, List, Bytes}
use zen_os.Base.Int.{ℤ}

-- struct wlr_box
pub record Box : Type 0 where
  pub x : ℤ
  pub y : ℤ
  pub width : ℤ
  pub height : ℤ

pub record World : Type 0 where
  -- wlr_surface.mapped of a toplevel's surface
  pub mapped : ℕ → Bool
  -- the position of a toplevel's scene node
  pub node_x : ℕ → ℤ
  pub node_y : ℕ → ℤ
  -- xdg_toplevel->current, ->requested, ->title and ->app_id
  pub current_maximized : ℕ → Bool
  pub current_fullscreen : ℕ → Bool
  pub requested_output : ℕ → Option ℕ
  pub client_title : ℕ → Option Bytes
  pub client_app_id : ℕ → Option Bytes
  -- wlr_output_layout
  pub output_at : ℤ → ℤ → Option ℕ
  pub layout_outputs : List ℕ
  pub box_of : ℕ → Box
  -- wlr_output.width and .height
  pub output_width : ℕ → ℤ
  pub output_height : ℕ → ℤ
  -- wlr_seat_get_keyboard is not NULL
  pub has_keyboard : Bool
  -- wlr_cursor
  pub cursor_x : ℤ
  pub cursor_y : ℤ
  -- strdup
  pub strdup : Bytes → Option Bytes
