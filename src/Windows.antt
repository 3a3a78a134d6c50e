-- ===== src/Windows.antt =====
-- src/compositor/src/xdg.c: the toplevel windows, most recently used first, and which has focus.
-- A handler takes the address of the toplevel whose listener was called.
pub mod Invariant
pub mod History
pub mod Untouched
pub mod Locking
pub mod Order
pub mod Faults
use zen_os.Base.{
  ℕ, ◌+◌, Bool, true, false, not, ◌&&◌, Option, none, some, List, [], ◌∷◌, Bytes, ◌==◌,
  if◌then◌else◌, is_at, is_some,
}
use zen_os.Base.Int.{ℤ, pos}
use zen_os.Base.Links.{unlink, to_front}
use zen_os.Compositor.{Compositor, Toplevel, address_of, Grab, no_grab, call}
use zen_os.Compositor.Calls.{
  set_activated, set_size, set_maximized, set_fullscreen, keyboard_clear_focus, keyboard_enter, xdg,
  Node, create_node, raise_to_top, set_enabled, set_position,
}
use zen_os.Compositor.World.{World, Box}

-- `prev == toplevel`
abbrev pub same : Option ℕ → Option ℕ → Bool
same none none = true
same (some a) b = is_at a b
same none (some b) = false

-- Clear the activation of the previously focused toplevel.
abbrev deactivate : Option ℕ → Compositor → Compositor
deactivate none c = c
deactivate (some p) c = call (set_activated p false) c

abbrev clear_keyboard : Compositor → Compositor
clear_keyboard c = if c.seat then call keyboard_clear_focus c else c

abbrev enter_keyboard : World → ℕ → Compositor → Compositor
enter_keyboard w t c = if c.seat && w.has_keyboard then call (keyboard_enter (xdg t)) c else c

focus_next : World → Option ℕ → Compositor → Compositor
focus_next w none c = clear_keyboard (record c { focused_toplevel = none })
focus_next w (some t) c =
    let front = record c {
      focused_toplevel = some t;
      toplevels = to_front address_of t c.toplevels;
    } in
    call (raise_to_top (Node.window t)) (enter_keyboard w t (call (set_activated t true) front))

-- zen_xdg_focus_toplevel
unfoldable pub focus_toplevel : World → Option ℕ → Compositor → Compositor
unfolding focus_next
focus_toplevel w target c =
    if same c.focused_toplevel target
    then c
    else focus_next w target (deactivate c.focused_toplevel c)

-- handle_toplevel_map
unfoldable pub handle_map : World → ℕ → Compositor → Compositor
handle_map w t c = focus_toplevel w (some t) (call (set_enabled (Node.window t) true) c)

-- The loop of handle_toplevel_unmap: the first other toplevel whose surface is mapped.
pub next_mapped : World → ℕ → List Toplevel → Option ℕ
next_mapped w t [] = none
next_mapped w t (x ∷ xs) =
    if not (x.address == t) && w.mapped x.address then some x.address else next_mapped w t xs

-- handle_toplevel_unmap
unfoldable pub handle_unmap : World → ℕ → Compositor → Compositor
handle_unmap w t c =
    let hidden = call (set_enabled (Node.window t) false) c in
    if is_at t c.focused_toplevel
    then focus_toplevel w (next_mapped w t c.toplevels) hidden
    else hidden

-- The loop of handle_toplevel_destroy: the first other toplevel.
pub next_other : ℕ → List Toplevel → Option ℕ
next_other t [] = none
next_other t (x ∷ xs) = if not (x.address == t) then some x.address else next_other t xs

-- Cancel the interactive move if it is of this toplevel.
abbrev cancel_grab : ℕ → Compositor → Compositor
cancel_grab t c = if is_at t c.grab.toplevel then record c { grab = no_grab } else c

abbrev pub self : ℕ → ℕ
self a = a

-- Remove the listeners, take the toplevel off the list, and free it.
abbrev free_toplevel : ℕ → Compositor → Compositor
free_toplevel t c = record c {
  listening = unlink self t c.listening;
  toplevels = unlink address_of t c.toplevels;
}

-- handle_toplevel_destroy
unfoldable pub handle_destroy : World → ℕ → Compositor → Compositor
handle_destroy w t c =
    let refocused =
      if is_at t c.focused_toplevel then focus_toplevel w (next_other t c.toplevels) c else c in
    free_toplevel t (cancel_grab t refocused)

-- handle_toplevel_request_move
unfoldable pub handle_request_move : World → ℕ → Compositor → Compositor
handle_request_move w t c =
    if c.cursor
    then record c {
      grab = record {
        toplevel = some t;
        x = w.cursor_x;
        y = w.cursor_y;
        node_x = w.node_x t;
        node_y = w.node_y t;
      };
    }
    else c

abbrev or_else : Option ℕ → Option ℕ → Option ℕ
or_else none b = b
or_else (some a) b = some a

abbrev first : List ℕ → Option ℕ
first [] = none
first (o ∷ os) = some o

-- The output under the toplevel's scene node, or the first one.
pub output_of : World → ℕ → Option ℕ
output_of w t = or_else (w.output_at (w.node_x t) (w.node_y t)) (first w.layout_outputs)

cover : World → ℕ → Option ℕ → (Compositor → Compositor) → Compositor → Compositor
cover w t none mark c = c
cover w t (some o) mark c =
    let b = w.box_of o in
    call (set_position (Node.window t) b.x b.y) (mark (call (set_size t b.width b.height) c))

-- handle_toplevel_request_maximize
unfoldable pub handle_request_maximize : World → ℕ → Compositor → Compositor
unfolding cover output_of
handle_request_maximize w t c =
    if c.output_layout
    then if not (w.current_maximized t)
      then cover w t (output_of w t) (call (set_maximized t true)) c
      else call (set_maximized t false) (call (set_size t (pos 0) (pos 0)) c)
    else c

-- handle_toplevel_request_fullscreen
unfoldable pub handle_request_fullscreen : World → ℕ → Compositor → Compositor
unfolding cover output_of
handle_request_fullscreen w t c =
    if c.output_layout
    then if not (w.current_fullscreen t)
      then cover w t (or_else (w.requested_output t) (output_of w t)) (call (set_fullscreen t true))
          c
      else call (set_fullscreen t false) (call (set_size t (pos 0) (pos 0)) c)
    else c

-- `new_title ? strdup(new_title) : NULL`
abbrev copy : World → Option Bytes → Option Bytes
copy w none = none
copy w (some s) = w.strdup s

pub update : ℕ → (Toplevel → Toplevel) → List Toplevel → List Toplevel
update t f [] = []
update t f (x ∷ xs) = if t == x.address then f x ∷ xs else x ∷ update t f xs

-- handle_toplevel_set_title
unfoldable pub handle_set_title : World → ℕ → Compositor → Compositor
handle_set_title w t c = record c {
  toplevels = update t (λ x. record x { title = copy w (w.client_title t) }) c.toplevels;
}

-- handle_toplevel_set_app_id
unfoldable pub handle_set_app_id : World → ℕ → Compositor → Compositor
handle_set_app_id w t c = record c {
  toplevels = update t (λ x. record x { app_id = copy w (w.client_app_id t) }) c.toplevels;
}

-- handle_new_xdg_toplevel. The arguments are what calloc and wlr_scene_xdg_surface_create returned.
unfoldable pub handle_new_toplevel : Option ℕ → Bool → Compositor → Compositor
handle_new_toplevel none scene_tree c = c
handle_new_toplevel (some t) false c = c
handle_new_toplevel (some t) true c =
    let created = call (create_node (Node.window t)) c in
    record created {
      listening = t ∷ c.listening;
      toplevels = record { address = t; title = none; app_id = none } ∷ c.toplevels;
    }

-- zen_xdg_init. The argument is whether wlr_xdg_shell_create succeeded; the result, whether it is 0.
unfoldable pub xdg_init : Bool → Compositor → Compositor × Bool
xdg_init created c =
    let empty = record c { toplevels = []; focused_toplevel = none; xdg_shell = created } in
    if not c.wl_display
    then (c, false)
    else if created
    then (record empty { new_xdg_toplevel = true }, true)
    else (empty, false)

-- zen_xdg_destroy: the toplevels are unlinked and freed.
unfoldable pub xdg_destroy : Compositor → Compositor
xdg_destroy c = record c { toplevels = []; focused_toplevel = none; new_xdg_toplevel = false }
