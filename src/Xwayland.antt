-- ===== src/Xwayland.antt =====
-- src/compositor/src/xwayland.c: the X11 windows. A Bridge is what the code keeps, with what wlroots
-- keeps for it at the address of each window: whether the window has a wlr_surface, how many scene nodes
-- there are for it, and how many listeners on that surface.
pub mod History
pub mod Local
pub mod Listeners
pub mod Focus
use zen_os.Base.{
  ℕ, suc, ◌+◌, ◌-◌, Bool, true, false, not, ◌&&◌, ◌||◌, Option, none, some, List, [], ◌∷◌, Bytes,
  ◌==◌, if◌then◌else◌, at,
}
use zen_os.Compositor.{Compositor}
use zen_os.Compositor
use zen_os.Compositor.Calls.{
  Call, Node, x11_window, x11, set_enabled, keyboard_enter, keyboard_clear_focus, activate_x11,
  xwayland_seat, set_display,
}
use zen_os.Compositor.World.{World}

-- struct ZenXWaylandSurface: whether scene_surface, map.link.next and unmap.link.next are set.
pub record XwaylandSurface : Type 0 where
  pub scene_surface : Bool
  pub title : Option Bytes
  pub map : Bool
  pub unmap : Bool

pub record Bridge : Type 0 where
  pub compositor : Compositor
  pub xwayland : Bool
  pub xwayland_ready : Bool
  pub new_xwayland_surface : Bool
  pub windows : ℕ → Option XwaylandSurface
  pub has_surface : ℕ → Bool
  pub nodes : ℕ → ℕ
  pub map_listeners : ℕ → ℕ
  pub unmap_listeners : ℕ → ℕ

abbrev pub call : Call → Bridge → Bridge
call k b = record b { compositor = Compositor.call k b.compositor }

abbrev set_window : ℕ → Option XwaylandSurface → Bridge → Bridge
set_window a x b = record b { windows = at a x b.windows }

-- handle_xws_map
unfoldable pub map_window : World → ℕ → XwaylandSurface → Bridge → Bridge
map_window w a x b =
    let shown = if x.scene_surface then call (set_enabled (x11_window a) true) b else b in
    let active = call (activate_x11 a) shown in
    if active.compositor.seat && active.has_surface a && w.has_keyboard
    then call (keyboard_enter (x11 a)) active
    else active

-- handle_xws_unmap
unfoldable pub unmap_window : ℕ → XwaylandSurface → Bridge → Bridge
unmap_window a x b =
    let hidden = if x.scene_surface then call (set_enabled (x11_window a) false) b else b in
    if hidden.compositor.seat then call keyboard_clear_focus hidden else hidden

-- handle_xws_associate, with whether the scene node can be made.
unfoldable pub associate_window : Bool → ℕ → XwaylandSurface → Bridge → Bridge
associate_window false a x b = set_window a (some (record x { scene_surface = false })) b
associate_window true a x b =
    record (set_window a (some (record x { scene_surface = true; map = true; unmap = true })) b) {
      nodes = at a (suc (b.nodes a)) b.nodes;
      map_listeners = at a (suc (b.map_listeners a)) b.map_listeners;
      unmap_listeners = at a (suc (b.unmap_listeners a)) b.unmap_listeners;
    }

unlink_map : ℕ → XwaylandSurface → Bridge → Bridge
unlink_map a x b =
    if x.map then record b { map_listeners = at a (b.map_listeners a - 1) b.map_listeners } else b

unlink_unmap : ℕ → XwaylandSurface → Bridge → Bridge
unlink_unmap a x b =
    if x.unmap
    then record b { unmap_listeners = at a (b.unmap_listeners a - 1) b.unmap_listeners }
    else b

destroy_node : ℕ → XwaylandSurface → Bridge → Bridge
destroy_node a x b =
    if x.scene_surface then record b { nodes = at a (b.nodes a - 1) b.nodes } else b

-- handle_xws_dissociate
unfoldable pub dissociate_window : ℕ → XwaylandSurface → Bridge → Bridge
unfolding unlink_map unlink_unmap destroy_node
dissociate_window a x b =
    set_window a (some (record x { scene_surface = false; map = false; unmap = false }))
      (destroy_node a x (unlink_unmap a x (unlink_map a x b)))

-- handle_xws_set_title
unfoldable pub set_window_title : World → Option Bytes → ℕ → XwaylandSurface → Bridge → Bridge
set_window_title w none a x b = set_window a (some (record x { title = none })) b
set_window_title w (some t) a x b = set_window a (some (record x { title = w.strdup t })) b

-- handle_xws_destroy: afterwards there is no window at the address.
unfoldable pub destroy_window : ℕ → XwaylandSurface → Bridge → Bridge
unfolding unlink_map unlink_unmap destroy_node
destroy_window a x b = set_window a none (destroy_node a x (unlink_unmap a x (unlink_map a x b)))

abbrev pub first_title : World → Option Bytes → Option Bytes
first_title w none = none
first_title w (some t) = w.strdup t

-- handle_new_xwayland_surface, with whether there is memory.
unfoldable pub handle_new_surface : World → Bool → Option Bytes → ℕ → Bridge → Bridge
handle_new_surface w false title a b = b
handle_new_surface w true title a b =
    set_window a
      (some
        (record { scene_surface = false; title = first_title w title; map = false; unmap = false }))
      b

abbrev pub announce : Option Bytes → Bridge → Bridge
announce none b = b
announce (some name) b = call (set_display name) b

-- handle_xwayland_ready
unfoldable pub handle_ready : Option Bytes → Bridge → Bridge
handle_ready name b =
    let named = announce name b in
    if not b.xwayland then b else if b.compositor.seat then call xwayland_seat named else named

-- zen_xwayland_destroy
unfoldable pub xwayland_destroy : Bridge → Bridge
xwayland_destroy b =
    if b.xwayland
    then record b { xwayland_ready = false; new_xwayland_surface = false; xwayland = false }
    else b

-- zen_xwayland_init: with wlr_comp, and whether wlr_xwayland_create succeeds.
unfoldable pub xwayland_init : Bool → Bool → Bridge → Bridge × Bool
unfolding xwayland_destroy
xwayland_init has_comp created b =
    if not b.compositor.wl_display || not has_comp
    then (xwayland_destroy b, false)
    else if created
    then (record b { xwayland = true; xwayland_ready = true; new_xwayland_surface = true }, true)
    else (xwayland_destroy (record b { xwayland = false }), false)
