-- ===== src/Input/Asides.antt =====
-- src/compositor/src/input.c, lock.c and dbus.c: the events that leave both the windows and the lock
-- screen alone. A keyboard need not be in the list for its events.
use zen_os.Base.{ℕ, Option, arith}
use zen_os.Base.Int.{ℤ}
use zen_os.Compositor.{Compositor}
use zen_os.Lock.{handle_new_lock}
use zen_os.Windows.Untouched.{Untouched}
use zen_os.Windows.Locking.{SameLock}
use zen_os.Input.{
  Device, handle_new_input, handle_keyboard_destroy, handle_keyboard_modifiers,
  handle_request_cursor,
}
use zen_os.Dbus.{
  Method, dispatch, handle_launch_app, handle_get_running_apps, handle_pin_to_shelf,
  handle_unpin_from_shelf, handle_set_shelf_config, handle_toggle_dark_mode,
  handle_show_notification,
}

pub data Aside : Type 0 where
  plugs : Device → Aside
  unplugs modifies asks_for_lock : ℕ → Aside
  asks_for_cursor : Option ℕ → ℕ → ℕ → ℤ → ℤ → Aside
  calls_method : Method → Aside

abbrev pub handle_aside : Aside → Compositor → Compositor
handle_aside (plugs d) c = handle_new_input d c
handle_aside (unplugs k) c = handle_keyboard_destroy k c
handle_aside (modifies k) c = handle_keyboard_modifiers k c
handle_aside (asks_for_lock l) c = handle_new_lock l c
handle_aside (asks_for_cursor focused client surface x y) c =
    handle_request_cursor focused client surface x y c
handle_aside (calls_method m) c = (dispatch m c).0

-- Neither part changes, and no window is activated.
pub record Beside (c d : Compositor) : Type 0 where
  pub windows : Untouched c d
  pub lock : SameLock c d

pub handle_aside-Beside : (a : Aside) (c : Compositor) → Beside c (handle_aside a c)
unfolding handle_new_input handle_keyboard_destroy handle_keyboard_modifiers handle_new_lock
    handle_request_cursor dispatch handle_launch_app handle_get_running_apps handle_pin_to_shelf
    handle_unpin_from_shelf handle_set_shelf_config handle_toggle_dark_mode handle_show_notification
handle_aside-Beside a c = record {
  windows = record {
    toplevels = ground arith;
    focused_toplevel = ground arith;
    listening = ground arith;
    grab = ground arith;
    activation = λ u. ground arith;
  };
  lock = record { locked = ground arith; lock = ground arith };
}
