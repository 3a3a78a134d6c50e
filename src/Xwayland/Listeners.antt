-- ===== src/Xwayland/Listeners.antt =====
-- src/compositor/src/xwayland.c: the listeners and scene nodes of the windows, after any sequence of events.
use zen_os.Base.{
  ℕ, Bool, true, false, not, ◌&&◌, Option, none, some, Bytes, ◌≡◌, refl, sym, subst, if◌then◌else◌,
  arith, is_some,
}
use zen_os.Compositor.World.{World}
use zen_os.Xwayland.{
  XwaylandSurface, Bridge, map_window, unmap_window, associate_window, dissociate_window,
  set_window_title, destroy_window, handle_new_surface, handle_ready, announce, call, first_title,
}
use zen_os.Compositor.Calls.{
  x11_window, set_enabled, activate_x11, keyboard_enter, keyboard_clear_focus, x11, xwayland_seat,
}
use zen_os.Xwayland.History.{
  Event, ready, new_surface, associate, maps, unmaps, dissociate, destroy, set_title, on, surface,
  fires, may, Sound, Reach, begins, then_event,
}
use zen_os.Xwayland.Local.{
  self, view, Keeps, local_change, linked, Kept-linked, KeptAt, dissociate-linked, destroy-linked,
  associate-unlinked, titled-linked, new-Sound,
}

-- What the events of wlroots leave: the fields that Sound is about.
same_view : (b d : Bridge) → ((c : ℕ) → view d c ≡ view b c) → Sound b → Sound d
same_view b d e s c = subst Keeps (sym (e c)) (s c)

view_if :
    (t : Bool) (d e b : Bridge) (c : ℕ)
    → view d c ≡ view b c
    → view e c ≡ view b c
    → view (if t then d else e) c ≡ view b c
view_if true d e b c h k = h
view_if false d e b c h k = k

maps-view :
    (w : World) (a : ℕ) (x : XwaylandSurface) (b : Bridge) (c : ℕ)
    → view (map_window w a x b) c ≡ view b c
unfolding map_window
maps-view w a x b c =
    let node = call (set_enabled (x11_window a) true) b in
    let active = call (activate_x11 a) (if x.scene_surface then node else b) in
    let shown = view_if x.scene_surface node b b c refl refl in
    view_if (active.compositor.seat && active.has_surface a && w.has_keyboard)
      (call (keyboard_enter (x11 a)) active) active b c shown shown

unmaps-view :
    (a : ℕ) (x : XwaylandSurface) (b : Bridge) (c : ℕ) → view (unmap_window a x b) c ≡ view b c
unfolding unmap_window
unmaps-view a x b c =
    let node = call (set_enabled (x11_window a) false) b in
    let hidden = if x.scene_surface then node else b in
    let same = view_if x.scene_surface node b b c refl refl in
    view_if hidden.compositor.seat (call keyboard_clear_focus hidden) hidden b c same same

announce-view : (name : Option Bytes) (b : Bridge) (c : ℕ) → view (announce name b) c ≡ view b c
announce-view none b c = refl
announce-view (some n) b c = refl

ready-view : (name : Option Bytes) (b : Bridge) (c : ℕ) → view (handle_ready name b) c ≡ view b c
unfolding handle_ready
ready-view name b c =
    let named = announce name b in
    let same = announce-view name b c in
    view_if (not b.xwayland) b (if b.compositor.seat then call xwayland_seat named else named) b c
      refl (view_if b.compositor.seat (call xwayland_seat named) named b c same same)

-- A handler of the window at an address: if there is one, it is of one of the two kinds.
at_window :
    (handler : ℕ → XwaylandSurface → Bridge → Bridge) (f : Bridge → Bridge) (a : ℕ) (b d : Bridge)
    → Sound b
    → (b.windows a ≡ none → Sound (f d))
    → ((l : Bool) (title : Option Bytes)
        → KeptAt a b (linked l title)
        → Sound (f (handler a (linked l title) d)))
    → Sound (f (on handler a (b.windows a) d))
at_window handler f a b d s absent present = go (b.windows a) refl
  where
    go : (x : Option XwaylandSurface) → b.windows a ≡ x → Sound (f (on handler a x d))
    go none e = absent e
    go (some x) e =
        let k = rw (e) at (s a) in
        let i =
          Kept-linked x (b.has_surface a) (b.nodes a) (b.map_listeners a) (b.unmap_listeners a) k in
        subst (λ y. Sound (f (handler a y d))) (sym i)
          (present x.scene_surface x.title (subst (KeptAt a b) i k))

is_none : {A : Type 0} (x : Option A) (t : Bool) → (not (is_some x) && t) ≡ true → x ≡ none
is_none none t h = refl
is_none (some x) t h = absurd (cc)

-- The address of no window may have a surface, and lose it.
empty-Sound : (a : ℕ) (h : Bool) (b : Bridge) → Sound b → b.windows a ≡ none → Sound (surface h a b)
empty-Sound a h b s e =
    let k = rw (e) at (s a) in
    local_change a b (surface h a b) s (λ c i. rw (i) refl) (rw (self a, e) (k.0, k.1, k.2))

pub fires-Sound :
    (w : World) (e : Event) (b : Bridge) → may e b ≡ true → Sound b → Sound (fires w e b)
unfolding fires handle_new_surface set_window_title
fires-Sound w (ready name) b h s = same_view b (handle_ready name b) (ready-view name b) s
fires-Sound w (new_surface false title a) b h s = s
fires-Sound w (new_surface true title a) b h s =
    new-Sound a (first_title w title) b s (is_none (b.windows a) (not (b.has_surface a)) h)
fires-Sound w (associate made a) b h s =
    at_window (associate_window made) (λ d. d) a b (surface true a b) s (empty-Sound a true b s)
      (λ l title k. unlinked l title k)
  where
    unlinked :
        (l : Bool) (title : Option Bytes)
        → KeptAt a b (linked l title)
        → Sound (associate_window made a (linked l title) (surface true a b))
    unlinked false title k = associate-unlinked a title b s made k
    unlinked true title k = absurd (ground (arith, k.5))
fires-Sound w (maps a) b h s =
    at_window (map_window w) (λ d. d) a b b s (λ e. s)
      (λ l title k.
        same_view b (map_window w a (linked l title) b) (maps-view w a (linked l title) b) s)
fires-Sound w (unmaps a) b h s =
    at_window unmap_window (λ d. d) a b b s (λ e. s)
      (λ l title k.
        same_view b (unmap_window a (linked l title) b) (unmaps-view a (linked l title) b) s)
fires-Sound w (dissociate a) b h s =
    at_window dissociate_window (surface false a) a b b s (empty-Sound a false b s)
      (λ l title k. dissociate-linked a title b s l k)
fires-Sound w (destroy a) b h s =
    at_window destroy_window (surface false a) a b b s (empty-Sound a false b s)
      (λ l title k. destroy-linked a title b s l k)
fires-Sound w (set_title none a) b h s =
    at_window (set_window_title w none) (λ d. d) a b b s (λ e. s)
      (λ l title k. titled-linked a title b s l none k)
fires-Sound w (set_title (some t) a) b h s =
    at_window (set_window_title w (some t)) (λ d. d) a b b s (λ e. s)
      (λ l title k. titled-linked a title b s l (w.strdup t) k)

-- From a state that is sound, after any sequence of events in which a new window has an address of
-- its own and a window gets a surface only while it has none, with or without memory and scene
-- nodes: each X11 window has one scene node and one listener of each kind for map and unmap exactly
-- while its fields say so, and only while it has a surface; and there is nothing of these for an
-- address without a window.
pub Reach-Sound : (w : World) (start b : Bridge) → Sound start → Reach w start b → Sound b
Reach-Sound w start b s begins = s
Reach-Sound w start b s (then_event e d r h) = fires-Sound w e d h (Reach-Sound w start d s r)
