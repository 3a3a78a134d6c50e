-- ===== src/Compositor.antt =====
-- src/compositor/include/zen: the structs of compositor.h, xdg.h and keybinds.h, with the static
-- variables of lock.c. A pointer to something that only the libraries look into is a `Bool`, whether
-- it is set; an owned object is known by its address.
pub mod Calls
pub mod World
use zen_os.Base.{ℕ, Bool, false, Option, none, List, [], ◌∷◌, Bytes, replicate}
use zen_os.Base.Int.{ℤ, pos}
use Calls.{Call}

-- struct ZenToplevel. The scene tree and the xdg_toplevel are set for as long as it lives.
pub record Toplevel : Type 0 where
  pub address : ℕ
  pub title : Option Bytes
  pub app_id : Option Bytes

abbrev pub address_of : Toplevel → ℕ
address_of t = t.address

pub data Action : Type 0 where
  launch_terminal toggle_launcher lock_screen switch_window close_window custom : Action

-- ZenKeybinding
pub record Keybinding : Type 0 where
  pub modifiers : ℕ
  pub keysym : ℕ
  pub action : Action
  pub custom_cmd : Option Bytes

-- The interactive move: grabbed_toplevel, grab_x, grab_y, grab_node_x, grab_node_y. Cursor
-- coordinates are in 1/256 of a pixel, the precision of the protocol; node coordinates in pixels.
pub record Grab : Type 0 where
  pub toplevel : Option ℕ
  pub x : ℤ
  pub y : ℤ
  pub node_x : ℤ
  pub node_y : ℤ

abbrev pub no_grab : Grab
no_grab = record { toplevel = none; x = pos 0; y = pos 0; node_x = pos 0; node_y = pos 0 }

-- ZEN_LOCK_PASS_MAX
abbrev pub pass_max : ℕ
pass_max = 255

-- struct ZenLockScreen
pub record LockScreen : Type 0 where
  pub wlr_lock : Bool
  pub buffer : Bool
  pub width : ℤ
  pub height : ℤ
  pub show_error : Bool

abbrev pub no_lock_screen : LockScreen
no_lock_screen = record {
  wlr_lock = false;
  buffer = false;
  width = pos 0;
  height = pos 0;
  show_error = false;
}

-- s_lock, s_password, s_password_len, s_idle_timer, s_lock_signal_slot
pub record LockState : Type 0 where
  pub screen : LockScreen
  pub password : Bytes
  pub password_len : ℕ
  pub idle_timer : Bool
  pub signal_slot : Bool

-- The static variables at program start, with `memset(s_password, 0, …)`.
unfoldable pub no_password : Bytes
no_password = replicate 256 0

-- struct ZenCompositor
pub record Compositor : Type 0 where
  pub wl_display : Bool
  pub output_layout : Bool
  pub shell_overlay_tree : Bool
  pub toplevels : List Toplevel
  pub focused_toplevel : Option ℕ
  pub xdg_shell : Bool
  -- new_xdg_toplevel hangs on the signal of the xdg_shell.
  pub new_xdg_toplevel : Bool
  -- The toplevels whose listeners hang on their surface's signals.
  pub listening : List ℕ
  pub seat : Bool
  pub cursor : Bool
  pub xcursor_mgr : Bool
  -- cursor_motion, cursor_motion_absolute, cursor_button, request_cursor and new_input hang on their
  -- signals. They are added one after the other, and removed one after the other.
  pub input_listeners : Bool
  -- The keyboards, each with its listeners on its device's signals.
  pub keyboards : List ℕ
  pub keybindings : List Keybinding
  pub dark_mode : Bool
  pub bus : Bool
  pub dbus_slot : Bool
  pub dbus_event_source : Bool
  pub lock_mgr : Bool
  pub active_lock : Bool
  pub locked : Bool
  pub grab : Grab
  pub lock : LockState
  -- Newest first.
  pub calls : List Call

abbrev pub call : Call → Compositor → Compositor
call k c = record c { calls = k ∷ c.calls }

abbrev pub zeroed : Compositor
zeroed = record {
  wl_display = false;
  output_layout = false;
  shell_overlay_tree = false;
  toplevels = [];
  focused_toplevel = none;
  xdg_shell = false;
  new_xdg_toplevel = false;
  listening = [];
  seat = false;
  cursor = false;
  xcursor_mgr = false;
  input_listeners = false;
  keyboards = [];
  keybindings = [];
  dark_mode = false;
  bus = false;
  dbus_slot = false;
  dbus_event_source = false;
  lock_mgr = false;
  active_lock = false;
  locked = false;
  grab = no_grab;
  lock = record {
    screen = no_lock_screen;
    password = no_password;
    password_len = 0;
    idle_timer = false;
    signal_slot = false;
  };
  calls = [];
}
