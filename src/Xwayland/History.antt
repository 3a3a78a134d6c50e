-- ===== src/Xwayland/History.antt =====
-- src/compositor/src/xwayland.c: any sequence of events.
use zen_os.Base.{ℕ, Bool, true, false, not, ◌&&◌, Option, none, some, Bytes, ◌≡◌, is_some, at}
use zen_os.Compositor.World.{World}
use zen_os.Xwayland.{
  XwaylandSurface, Bridge, map_window, unmap_window, associate_window, dissociate_window,
  set_window_title, destroy_window, handle_new_surface, handle_ready,
}

pub data Event : Type 0 where
  ready : Option Bytes → Event
  new_surface : Bool → Option Bytes → ℕ → Event
  associate : Bool → ℕ → Event
  maps unmaps dissociate destroy : ℕ → Event
  set_title : Option Bytes → ℕ → Event

-- The listeners of a window are called while it has one.
abbrev pub on :
    (ℕ → XwaylandSurface → Bridge → Bridge) → ℕ → Option XwaylandSurface → Bridge → Bridge
on handler a none b = b
on handler a (some x) b = handler a x b

abbrev pub surface : Bool → ℕ → Bridge → Bridge
surface s a b = record b { has_surface = at a s b.has_surface }

-- wlroots sets the surface before it tells of it, and takes it away when it has told.
unfoldable pub fires : World → Event → Bridge → Bridge
unfolding map_window unmap_window associate_window dissociate_window set_window_title destroy_window
    handle_new_surface handle_ready
fires w (ready name) b = handle_ready name b
fires w (new_surface memory title a) b = handle_new_surface w memory title a b
fires w (associate made a) b = on (associate_window made) a (b.windows a) (surface true a b)
fires w (maps a) b = on (map_window w) a (b.windows a) b
fires w (unmaps a) b = on unmap_window a (b.windows a) b
fires w (dissociate a) b = surface false a (on dissociate_window a (b.windows a) b)
fires w (destroy a) b = surface false a (on destroy_window a (b.windows a) b)
fires w (set_title title a) b = on (set_window_title w title) a (b.windows a) b

-- A new window has an address of its own and no surface yet, and it is not given a second surface while
-- it has one.
abbrev pub may : Event → Bridge → Bool
may (new_surface memory title a) b = not (is_some (b.windows a)) && not (b.has_surface a)
may (associate made a) b = not (b.has_surface a)
may _ b = true

abbrev pub bit : Bool → ℕ
bit true = 1
bit false = 0

-- What there is in wlroots of a window: a scene node and a listener of each kind, exactly while the
-- window says so, which it does only while it has a surface. Nothing, if there is no window.
abbrev pub Kept : Option XwaylandSurface → Bool → ℕ → ℕ → ℕ → Type 0
Kept none has n m u = (n ≡ 0) × (m ≡ 0) × (u ≡ 0)
Kept (some x) has n m u =
    (n ≡ bit x.scene_surface)
    × (m ≡ bit x.scene_surface)
    × (u ≡ bit x.scene_surface)
    × (x.map ≡ x.scene_surface)
    × (x.unmap ≡ x.scene_surface)
    × ((x.scene_surface && not has) ≡ false)

abbrev pub Sound : Bridge → Type 0
Sound b =
    (a : ℕ)
    → Kept (b.windows a) (b.has_surface a) (b.nodes a) (b.map_listeners a) (b.unmap_listeners a)

pub data Reach (w : World) (start : Bridge) : Bridge → Type 0 where
  begins : Reach w start start
  then_event :
      (e : Event) (b : Bridge) → Reach w start b → may e b ≡ true → Reach w start (fires w e b)
