-- ===== src/Input.antt =====
-- src/compositor/src/input.c: keyboards, the pointer, and where their events go. What
-- wlr_scene_node_at finds under the cursor is an argument, as is what xkbcommon makes of a key.
pub mod Asides
pub mod Keys
pub mod History
pub mod Locked
pub mod Pointer
pub mod Startup
use zen_os.Base.{
  ℕ, ◌+◌, Bool, true, false, not, ◌&&◌, ◌||◌, Option, none, some, List, [], ◌∷◌, ◌==◌,
  if◌then◌else◌, is_at, is_some,
}
use zen_os.Base.Int.{ℤ, ◌+ℤ◌, ◌-ℤ◌, quot}
use zen_os.Base.Links.{unlink}
use zen_os.Compositor.{Compositor, Grab, no_grab, call}
use zen_os.Compositor.Calls.{
  Surface, keyboard_key, keyboard_modifiers, set_keyboard, set_keymap, set_repeat_info,
  pointer_clear_focus, pointer_enter, pointer_motion, pointer_button, default_cursor,
  cursor_surface, attach_device, attach_output_layout, move_cursor, warp_cursor, set_capabilities,
  Node, set_position,
}
use zen_os.Compositor.World.{World}
use zen_os.Keybinds
use zen_os.Lock
use zen_os.Lock.{Auth}
use zen_os.Windows.{focus_toplevel, self}

-- What wlr_scene_node_at finds: the `data` of the node, of its parent, and so on up to the root; the
-- surface, if the node is a buffer that shows one; and the position on it, in 1/256 of a pixel.
pub record Hit : Type 0 where
  pub data_upwards : List (Option ℕ)
  pub surface : Option Surface
  pub sx : ℤ
  pub sy : ℤ

-- toplevel_at_scene_node
unfoldable pub toplevel_at_scene_node : List (Option ℕ) → Option ℕ
toplevel_at_scene_node [] = none
toplevel_at_scene_node (none ∷ parents) = toplevel_at_scene_node parents
toplevel_at_scene_node (some t ∷ parents) = some t

-- struct wlr_keyboard_key_event, with the keysyms of the key and the modifiers that are held.
pub record KeyEvent : Type 0 where
  pub time_msec : ℕ
  pub keycode : ℕ
  pub pressed : Bool
  pub syms : List ℕ
  pub modifiers : ℕ

-- What a key event asks of the world: that of zen_lock_handle_key and of zen_keybinds_handle_key.
pub record Surroundings : Type 0 where
  pub world : World
  pub auth : Auth
  -- the lock buffer can be made
  pub lock_buffer : Bool

-- `for (…) zen_lock_handle_key(…)`
unfoldable pub route_locked : Auth → Bool → List ℕ → Compositor → Compositor
route_locked a pressed [] c = c
route_locked a pressed (k ∷ ks) c = route_locked a pressed ks (Lock.handle_key a k pressed c).0

-- `for (…) if (zen_keybinds_handle_key(…)) { consumed = true; break; }`
unfoldable pub try_bindings : Surroundings → ℕ → List ℕ → Compositor → Compositor × Bool
try_bindings s modifiers [] c = (c, false)
try_bindings s modifiers (k ∷ ks) c =
    let tried = Keybinds.handle_key s.world s.lock_buffer modifiers k c in
    let rest = try_bindings s modifiers ks tried.0 in if tried.1 then (tried.0, true) else rest

abbrev forward_key : KeyEvent → Compositor × Bool → Compositor
forward_key e (c, true) = c
forward_key e (c, false) = call (keyboard_key e.time_msec e.keycode e.pressed) c

-- handle_keyboard_key
unfoldable pub handle_keyboard_key : Surroundings → KeyEvent → Compositor → Compositor
handle_keyboard_key s e c =
    if c.locked
    then route_locked s.auth e.pressed e.syms c
    else forward_key e (if e.pressed then try_bindings s e.modifiers e.syms c else (c, false))

-- handle_keyboard_modifiers
unfoldable pub handle_keyboard_modifiers : ℕ → Compositor → Compositor
handle_keyboard_modifiers keyboard c =
    call (keyboard_modifiers keyboard) (call (set_keyboard keyboard) c)

-- handle_keyboard_destroy
unfoldable pub handle_keyboard_destroy : ℕ → Compositor → Compositor
handle_keyboard_destroy keyboard c = record c { keyboards = unlink self keyboard c.keyboards }

-- Where the grabbed toplevel goes: the cursor's way, rounded toward zero, from where it stood.
unfoldable pub dragged : ℤ → ℤ → ℤ → ℤ
dragged node start cursor = node +ℤ quot (cursor -ℤ start) 256

point_at : ℕ → Hit → Option Surface → Compositor → Compositor
point_at time hit none c = call pointer_clear_focus (call default_cursor c)
point_at time hit (some s) c =
    call (pointer_motion time hit.sx hit.sy) (call (pointer_enter s hit.sx hit.sy) c)

point : ℕ → Option Hit → Compositor → Compositor
unfolding point_at
point time none c = call pointer_clear_focus (call default_cursor c)
point time (some hit) c = point_at time hit hit.surface c

drag_or_point : World → Option ℕ → ℕ → Option Hit → Compositor → Compositor
drag_or_point w none time hit c = point time hit c
drag_or_point w (some t) time hit c =
    call
      (set_position (Node.window t) (dragged c.grab.node_x c.grab.x w.cursor_x)
        (dragged c.grab.node_y c.grab.y w.cursor_y))
      c

-- zen_input_process_cursor_motion
unfoldable pub process_cursor_motion : World → ℕ → Option Hit → Compositor → Compositor
unfolding drag_or_point point dragged
process_cursor_motion w time hit c =
    if not c.cursor || not c.seat then c else drag_or_point w c.grab.toplevel time hit c

-- handle_cursor_motion. The world is that after the cursor has moved.
unfoldable pub handle_cursor_motion : World → ℕ → ℤ → ℤ → Option Hit → Compositor → Compositor
handle_cursor_motion w time dx dy hit c =
    process_cursor_motion w time hit (call (move_cursor dx dy) c)

-- handle_cursor_motion_absolute
unfoldable pub handle_cursor_motion_absolute :
    World → ℕ → ℤ → ℤ → Option Hit → Compositor → Compositor
handle_cursor_motion_absolute w time x y hit c =
    process_cursor_motion w time hit (call (warp_cursor x y) c)

-- The toplevel under the cursor.
pub toplevel_under : Option Hit → Option ℕ
unfolding toplevel_at_scene_node
toplevel_under none = none
toplevel_under (some hit) = toplevel_at_scene_node hit.data_upwards

abbrev focus_under : World → Option ℕ → Compositor → Compositor
focus_under w none c = c
focus_under w (some t) c = focus_toplevel w (some t) c

-- handle_cursor_button
unfoldable pub handle_cursor_button : World → ℕ → ℕ → Bool → Option Hit → Compositor → Compositor
unfolding toplevel_under
handle_cursor_button w time button pressed hit c =
    let released =
      if not pressed && is_some c.grab.toplevel then record c { grab = no_grab } else c in
    let focused = if pressed then focus_under w (toplevel_under hit) released else released in
    call (pointer_button time button pressed) focused

-- handle_request_cursor. `focused` is the client that has the pointer.
unfoldable pub handle_request_cursor : Option ℕ → ℕ → ℕ → ℤ → ℤ → Compositor → Compositor
handle_request_cursor focused client surface hotspot_x hotspot_y c =
    if is_at client focused then call (cursor_surface surface hotspot_x hotspot_y) c else c

-- enum wlr_input_device_type, with what calloc returns for a keyboard, and whether its keymap can be
-- made.
pub data Device : Type 0 where
  keyboard : Option ℕ → Bool → Device
  pointer touch other_device : ℕ → Device

-- The seat's capabilities: pointer, and keyboard if there is one.
abbrev update_capabilities : Compositor → Compositor
update_capabilities c =
    call (set_capabilities true (elim c.keyboards [ [] ↦ false | x ∷ xs ↦ true ])) c

abbrev add_keyboard : ℕ → Bool → Compositor → Compositor
add_keyboard k keymap c =
    let mapped = if keymap then call (set_keymap k) c else c in
    let active = call (set_keyboard k) (call (set_repeat_info k 25 600) mapped) in
    record active { keyboards = k ∷ c.keyboards }

-- handle_new_input
unfoldable pub handle_new_input : Device → Compositor → Compositor
handle_new_input (keyboard none keymap) c = c
handle_new_input (keyboard (some k) keymap) c = update_capabilities (add_keyboard k keymap c)
handle_new_input (pointer d) c = update_capabilities (call (attach_device d) c)
handle_new_input (touch d) c = update_capabilities (call (attach_device d) c)
handle_new_input (other_device d) c = update_capabilities c

-- zen_input_destroy
unfoldable pub input_destroy : Compositor → Compositor
input_destroy c = record c {
  keyboards = [];
  input_listeners = false;
  xcursor_mgr = false;
  cursor = false;
  seat = false;
}

-- zen_input_init: the new state, and whether it returns 0. The arguments are whether the seat, the
-- cursor and the cursor theme's manager were made.
unfoldable pub input_init : Bool → Bool → Bool → Compositor → Compositor × Bool
unfolding input_destroy
input_init seat cursor manager c =
    if not c.wl_display
    then (input_destroy c, false)
    else let with_seat = record c { keyboards = []; seat = seat } in
      if not seat
      then (input_destroy with_seat, false)
      else let with_cursor = record with_seat { cursor = cursor } in
        if not cursor
        then (input_destroy with_cursor, false)
        else let with_manager = record (call attach_output_layout with_cursor) {
          xcursor_mgr = manager;
        } in
          if not manager
          then (input_destroy with_manager, false)
          else (record with_manager { input_listeners = true }, true)
