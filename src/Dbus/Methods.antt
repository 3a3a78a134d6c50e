-- ===== src/Dbus/Methods.antt =====
-- src/compositor/src/dbus.c: the methods' arguments and effects, and the connection's errors.
use zen_os.Base.{
  ℕ, Bool, true, false, not, Option, none, some, Bytes, ◌≡◌, refl, arith, ltb, is_some,
  if◌then◌else◌, inl, inr, Bool-cases,
}
use zen_os.Base.Int.{ℤ, pos, negsuc, is_pos}
use zen_os.Compositor.{Compositor}
use zen_os.Windows.Untouched.{Untouched, Untouched-refl, called}
use zen_os.Windows.Locking.{SameLock}
use zen_os.Dbus.{
  Read, read, unreadable, Reply, error, invalid_argument, is_empty, handle_launch_app,
  handle_get_running_apps, handle_pin_to_shelf, handle_unpin_from_shelf, handle_set_shelf_config,
  handle_toggle_dark_mode, handle_show_notification, Method, launch_app, get_running_apps,
  pin_to_shelf, unpin_from_shelf, set_shelf_config, toggle_dark_mode, show_notification, dispatch,
  Connects, dbus_init, dbus_destroy,
}

-- Whether the arguments of a method were read and are in the documented ranges.
abbrev pub in_range : Method → Bool
in_range (launch_app fork (read app_id)) = not (is_empty app_id)
in_range (pin_to_shelf (read app_id)) = not (is_empty app_id)
in_range (unpin_from_shelf (read app_id)) = not (is_empty app_id)
in_range (set_shelf_config (read size)) = is_pos size
in_range (show_notification (read (pos n))) = not (ltb 2 n)
in_range (show_notification (read (negsuc n))) = false
in_range (toggle_dark_mode (read b)) = true
in_range (get_running_apps e) = true
in_range _ = false

-- Whether a reply says that an argument is bad or could not be read.
abbrev pub refuses : Reply → Bool
refuses (invalid_argument e) = true
refuses (error e) = true
refuses _ = false

-- Whether the libraries let a method's reply be built and sent.
abbrev pub sendable : Method → Bool
sendable (get_running_apps (some e)) = false
sendable _ = true

-- A method whose reply can be built and sent refuses exactly the messages whose arguments cannot
-- be read or are out of range: an empty app_id, an icon size below 1, an urgency outside 0 to 2.
pub refuses-dispatch :
    (m : Method) (c : Compositor) → sendable m ≡ true → refuses (dispatch m c).1 ≡ not (in_range m)
unfolding dispatch handle_launch_app handle_get_running_apps handle_pin_to_shelf
    handle_unpin_from_shelf handle_set_shelf_config handle_toggle_dark_mode handle_show_notification
refuses-dispatch (launch_app fork (unreadable e)) c h = refl
refuses-dispatch (launch_app none (read a)) c h = ground arith
refuses-dispatch (launch_app (some e) (read a)) c h = ground arith
refuses-dispatch (get_running_apps none) c h = refl
refuses-dispatch (get_running_apps (some e)) c h = absurd (cc)
refuses-dispatch (pin_to_shelf (unreadable e)) c h = refl
refuses-dispatch (pin_to_shelf (read a)) c h = ground arith
refuses-dispatch (unpin_from_shelf (unreadable e)) c h = refl
refuses-dispatch (unpin_from_shelf (read a)) c h = ground arith
refuses-dispatch (set_shelf_config (unreadable e)) c h = refl
refuses-dispatch (set_shelf_config (read s)) c h = ground arith
refuses-dispatch (toggle_dark_mode (unreadable e)) c h = refl
refuses-dispatch (toggle_dark_mode (read b)) c h = refl
refuses-dispatch (show_notification (unreadable e)) c h = refl
refuses-dispatch (show_notification (read (pos n))) c h = ground arith
refuses-dispatch (show_notification (read (negsuc n))) c h = ground arith

-- What no method touches: the windows and the lock.
pub record Aside (c d : Compositor) : Type 0 where
  pub windows : Untouched c d
  pub lock : SameLock c d

Aside-refl : (c : Compositor) → Aside c c
Aside-refl c = record { windows = Untouched-refl c; lock = record { locked = refl; lock = refl } }

launch_app-Aside :
    (fork : Option ℕ) (r : Read (Option Bytes)) (c : Compositor)
    → Aside c (handle_launch_app fork r c).0
unfolding handle_launch_app
launch_app-Aside fork (unreadable e) c = Aside-refl c
launch_app-Aside (some e) (read a) c = elim (Bool-cases (is_empty a)) [
  | inl h ↦ rw (h, handle_launch_app) (Aside-refl c)
  | inr h ↦ rw (h, handle_launch_app) (Aside-refl c)
]
launch_app-Aside none (read a) c = elim (Bool-cases (is_empty a)) [
  | inl h ↦ rw (h, handle_launch_app) (Aside-refl c)
  | inr h ↦
      rw (h, handle_launch_app)
        (record { windows = called _ c (λ u. refl); lock = record { locked = refl; lock = refl } })
]

unchanged-Aside : {c d : Compositor} → d ≡ c → Aside c d
unchanged-Aside {c} {d} e = rw e (Aside-refl c)

pin_to_shelf-Aside : (r : Read (Option Bytes)) (c : Compositor) → (handle_pin_to_shelf r c).0 ≡ c
unfolding handle_pin_to_shelf
pin_to_shelf-Aside (unreadable e) c = refl
pin_to_shelf-Aside (read a) c = ground arith

unpin_from_shelf-Aside :
    (r : Read (Option Bytes)) (c : Compositor) → (handle_unpin_from_shelf r c).0 ≡ c
unfolding handle_unpin_from_shelf
unpin_from_shelf-Aside (unreadable e) c = refl
unpin_from_shelf-Aside (read a) c = ground arith

set_shelf_config-Aside : (r : Read ℤ) (c : Compositor) → (handle_set_shelf_config r c).0 ≡ c
unfolding handle_set_shelf_config
set_shelf_config-Aside (unreadable e) c = refl
set_shelf_config-Aside (read a) c = ground arith

show_notification-Aside : (r : Read ℤ) (c : Compositor) → (handle_show_notification r c).0 ≡ c
unfolding handle_show_notification
show_notification-Aside (unreadable e) c = refl
show_notification-Aside (read a) c = ground arith

-- No method of the bus changes the list of windows, focus, a move, an activation or the lock
-- screen, whatever its message holds.
pub dispatch-Aside : (m : Method) (c : Compositor) → Aside c (dispatch m c).0
unfolding dispatch handle_get_running_apps handle_toggle_dark_mode
dispatch-Aside (launch_app fork r) c = launch_app-Aside fork r c
dispatch-Aside (get_running_apps none) c = Aside-refl c
dispatch-Aside (get_running_apps (some e)) c = Aside-refl c
dispatch-Aside (pin_to_shelf r) c = unchanged-Aside (pin_to_shelf-Aside r c)
dispatch-Aside (unpin_from_shelf r) c = unchanged-Aside (unpin_from_shelf-Aside r c)
dispatch-Aside (set_shelf_config r) c = unchanged-Aside (set_shelf_config-Aside r c)
dispatch-Aside (show_notification r) c = unchanged-Aside (show_notification-Aside r c)
dispatch-Aside (toggle_dark_mode (unreadable e)) c = Aside-refl c
dispatch-Aside (toggle_dark_mode (read b)) c = record {
  windows = record {
    toplevels = refl;
    focused_toplevel = refl;
    listening = refl;
    grab = refl;
    activation = λ u. refl;
  };
  lock = record { locked = refl; lock = refl };
}

abbrev pub or_error : Option ℕ → Option ℕ → Option ℕ
or_error none e = e
or_error (some d) e = some d

-- The first error of the calls, in their order.
abbrev pub first_error : Connects → Option ℕ
first_error k = or_error k.open_user (
    or_error k.add_object_vtable
      (or_error k.request_name (or_error k.get_fd (if k.add_fd then none else some 1))))

-- zen_dbus_init returns the first error of its calls, with no connection, slot or event source
-- left, or 0 with all three set; it touches nothing else.
pub dbus_init_lem :
    (k : Connects) (c : Compositor)
    → dbus_init k c ≡ (
      record c {
        bus = not (is_some (first_error k));
        dbus_slot = not (is_some (first_error k));
        dbus_event_source = not (is_some (first_error k));
      },
      first_error k,
    )
unfolding dbus_init dbus_destroy
dbus_init_lem k c = ground arith
