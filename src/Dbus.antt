-- ===== src/Dbus.antt =====
-- src/compositor/src/dbus.c: the methods of org.zenos.Compositor, and the connection to the bus. What
-- sd_bus_message_read finds in a message is an argument; an error is its number.
pub mod Methods
pub mod Vtable
use zen_os.Base.{
  ℕ, Bool, true, false, not, ◌&&◌, ◌||◌, Option, none, some, List, [], ◌∷◌, Bytes, ltb,
  if◌then◌else◌,
}
use zen_os.Base.Int.{ℤ, pos_part, neg_part, is_pos}
use zen_os.Compositor.{Compositor, Toplevel, call}
use zen_os.Compositor.Calls.{spawn, application}

-- What sd_bus_message_read returns.
pub data Read (A : Type 0) : Type 0 where
  read : A → Read A
  unreadable : ℕ → Read A

-- What a method call is answered with.
pub data Reply : Type 0 where
  yes_or_no : Bool → Reply
  number : ℕ → Reply
  names : List Bytes → Reply
  error invalid_argument fork_failed : ℕ → Reply

-- EINVAL
abbrev pub einval : ℕ
einval = 22

-- `!app_id || app_id[0] == '\0'`
abbrev pub is_empty : Option Bytes → Bool
is_empty none = true
is_empty (some []) = true
is_empty (some (x ∷ s)) = false

abbrev text : Option Bytes → Bytes
text none = []
text (some s) = s

-- handle_launch_app. The first argument is the error of fork, if it fails.
unfoldable pub handle_launch_app : Option ℕ → Read (Option Bytes) → Compositor → Compositor × Reply
handle_launch_app fork (unreadable e) c = (c, error e)
handle_launch_app fork (read app_id) c =
    if is_empty app_id then (c, invalid_argument einval) else elim fork [
      | none ↦ (call (spawn (application (text app_id))) c, yes_or_no true)
      | some e ↦ (c, fork_failed e)
    ]

-- The loop over the toplevels.
app_ids : List Toplevel → List Bytes
app_ids [] = []
app_ids (t ∷ ts) = text t.app_id ∷ app_ids ts

-- handle_get_running_apps. The first argument is the error of the first call that fails to build or
-- send the reply.
unfoldable pub handle_get_running_apps : Option ℕ → Compositor → Compositor × Reply
unfolding app_ids
handle_get_running_apps (some e) c = (c, error e)
handle_get_running_apps none c = (c, names (app_ids c.toplevels))

-- handle_pin_to_shelf and handle_unpin_from_shelf, which differ in what they log.
unfoldable pub handle_pin_to_shelf : Read (Option Bytes) → Compositor → Compositor × Reply
handle_pin_to_shelf (unreadable e) c = (c, error e)
handle_pin_to_shelf (read app_id) c =
    if is_empty app_id then (c, invalid_argument einval) else (c, yes_or_no true)

unfoldable pub handle_unpin_from_shelf : Read (Option Bytes) → Compositor → Compositor × Reply
handle_unpin_from_shelf (unreadable e) c = (c, error e)
handle_unpin_from_shelf (read app_id) c =
    if is_empty app_id then (c, invalid_argument einval) else (c, yes_or_no true)

-- handle_set_shelf_config, on the icon size. Nothing tests the position.
unfoldable pub handle_set_shelf_config : Read ℤ → Compositor → Compositor × Reply
handle_set_shelf_config (unreadable e) c = (c, error e)
handle_set_shelf_config (read icon_size) c =
    if not (is_pos icon_size) then (c, invalid_argument einval) else (c, yes_or_no true)

-- handle_toggle_dark_mode
unfoldable pub handle_toggle_dark_mode : Read Bool → Compositor → Compositor × Reply
handle_toggle_dark_mode (unreadable e) c = (c, error e)
handle_toggle_dark_mode (read enabled) c = (record c { dark_mode = enabled }, yes_or_no enabled)

-- handle_show_notification, on the urgency
unfoldable pub handle_show_notification : Read ℤ → Compositor → Compositor × Reply
handle_show_notification (unreadable e) c = (c, error e)
handle_show_notification (read urgency) c =
    if ltb 0 (neg_part urgency) || ltb 2 (pos_part urgency)
    then (c, invalid_argument einval)
    else (c, number 1)

-- The method table, with what each method reads.
pub data Method : Type 0 where
  launch_app : Option ℕ → Read (Option Bytes) → Method
  get_running_apps : Option ℕ → Method
  pin_to_shelf unpin_from_shelf : Read (Option Bytes) → Method
  set_shelf_config show_notification : Read ℤ → Method
  toggle_dark_mode : Read Bool → Method

unfoldable pub dispatch : Method → Compositor → Compositor × Reply
dispatch (launch_app fork r) c = handle_launch_app fork r c
dispatch (get_running_apps e) c = handle_get_running_apps e c
dispatch (pin_to_shelf r) c = handle_pin_to_shelf r c
dispatch (unpin_from_shelf r) c = handle_unpin_from_shelf r c
dispatch (set_shelf_config r) c = handle_set_shelf_config r c
dispatch (toggle_dark_mode r) c = handle_toggle_dark_mode r c
dispatch (show_notification r) c = handle_show_notification r c

-- zen_dbus_destroy
unfoldable pub dbus_destroy : Compositor → Compositor
dbus_destroy c = record c { dbus_event_source = false; dbus_slot = false; bus = false }

-- The errors of the calls of zen_dbus_init, in order; the last returns NULL when it fails.
pub record Connects : Type 0 where
  pub open_user : Option ℕ
  pub add_object_vtable : Option ℕ
  pub request_name : Option ℕ
  pub get_fd : Option ℕ
  pub add_fd : Bool

add_to_loop : Bool → Compositor → Compositor × Option ℕ
unfolding dbus_destroy
add_to_loop true c = (record c { dbus_event_source = true }, none)
add_to_loop false c = (dbus_destroy c, some 1)

-- A step that leaves by `goto cleanup` when it fails.
or_cleanup : Option ℕ → (Compositor → Compositor × Option ℕ) → Compositor → Compositor × Option ℕ
unfolding dbus_destroy
or_cleanup none rest c = rest c
or_cleanup (some e) rest c = (dbus_destroy c, some e)

-- zen_dbus_init: the new state, and the error it returns.
unfoldable pub dbus_init : Connects → Compositor → Compositor × Option ℕ
unfolding add_to_loop or_cleanup
dbus_init k c =
    or_cleanup k.open_user
      (λ c.
        or_cleanup k.add_object_vtable
          (λ c.
            or_cleanup k.request_name (or_cleanup k.get_fd (add_to_loop k.add_fd))
              (record c { dbus_slot = true }))
          (record c { bus = true }))
      c
