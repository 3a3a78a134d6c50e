-- ===== src/Compositor/Calls.antt =====
-- What the compositor asks of wlroots, libwayland, the kernel and PAM: one constructor for each
-- call whose effect a client or the user can see. A state carries the calls made so far.
use zen_os.Base.{ℕ, suc, Bool, List, [], ◌∷◌, Bytes}
use zen_os.Base.Int.{ℤ}

-- A surface that can have the keyboard: that of a toplevel, or of an X11 window.
pub data Surface : Type 0 where
  xdg : ℕ → Surface
  x11 : ℕ → Surface
  other : ℕ → Surface

pub data Node : Type 0 where
  window x11_window layer_surface : ℕ → Node
  overlay wallpaper : Node

-- The programs that are started by fork and exec.
pub data Program : Type 0 where
  terminal : Program
  shell_command : Bytes → Program
  application : Bytes → Program

pub data Call : Type 0 where
  -- wlr_xdg_toplevel_*, on the toplevel at an address
  set_activated : ℕ → Bool → Call
  set_size : ℕ → ℤ → ℤ → Call
  set_maximized : ℕ → Bool → Call
  set_fullscreen : ℕ → Bool → Call
  send_close : ℕ → Call
  -- wlr_seat_keyboard_*
  keyboard_clear_focus : Call
  keyboard_enter : Surface → Call
  keyboard_key : ℕ → ℕ → Bool → Call
  keyboard_modifiers : ℕ → Call
  set_keyboard : ℕ → Call
  -- wlr_keyboard_*
  set_keymap : ℕ → Call
  set_repeat_info : ℕ → ℕ → ℕ → Call
  -- wlr_seat_pointer_*, wlr_cursor_*
  pointer_clear_focus : Call
  pointer_enter : Surface → ℤ → ℤ → Call
  pointer_motion : ℕ → ℤ → ℤ → Call
  pointer_button : ℕ → ℕ → Bool → Call
  default_cursor : Call
  cursor_surface : ℕ → ℤ → ℤ → Call
  attach_device : ℕ → Call
  attach_output_layout : Call
  move_cursor : ℤ → ℤ → Call
  warp_cursor : ℤ → ℤ → Call
  set_capabilities : Bool → Bool → Call
  -- wlr_scene_node_*
  create_node : Node → Call
  raise_to_top : Node → Call
  set_enabled : Node → Bool → Call
  set_position : Node → ℤ → ℤ → Call
  -- the lock screen
  draw_lock : ℕ → Bool → Call
  send_locked : ℕ → Call
  arm_idle_timer : ℕ → Call
  pam_authenticate : Bytes → Bytes → Call
  -- wlr_layer_surface_v1_*
  destroy_layer_surface : ℕ → Call
  configure_layer_surface : ℕ → ℤ → ℤ → Call
  -- wlr_xwayland_*, and DISPLAY
  activate_x11 : ℕ → Call
  xwayland_seat : Call
  set_display : Bytes → Call
  -- processes
  spawn : Program → Call

-- How many key events clients have been sent.
unfoldable pub keys_sent : List Call → ℕ
keys_sent [] = 0
keys_sent (keyboard_key time keycode pressed ∷ ks) = suc (keys_sent ks)
keys_sent (k ∷ ks) = keys_sent ks
