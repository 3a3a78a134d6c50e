-- ===== src/Xwayland/Focus.antt =====
-- src/compositor/src/xwayland.c and xdg.c: which of the windows has the keyboard.
use zen_os.Base.{
  ℕ, true, Option, none, some, List, [], ◌∷◌, ◌≡◌, refl, sym, subst, ◌∙◌, if◌then◌else◌, Bool-cases,
  inl, inr, arith,
}
use zen_os.Compositor.{Compositor}
use zen_os.Compositor.Calls.{
  Call, Surface, x11, x11_window, set_enabled, activate_x11, keyboard_enter, keyboard_clear_focus,
}
use zen_os.Compositor.World.{World}
use zen_os.Windows.{focus_toplevel, same}
use zen_os.Xwayland.{XwaylandSurface, Bridge, call, map_window}

-- The surface that has the keyboard, after these calls.
unfoldable pub keyboard_focus : List Call → Option Surface
keyboard_focus [] = none
keyboard_focus (keyboard_enter s ∷ ks) = some s
keyboard_focus (keyboard_clear_focus ∷ ks) = none
keyboard_focus (k ∷ ks) = keyboard_focus ks

-- The X11 window at this address has the keyboard, and giving the focus to this toplevel again changes
-- nothing of that.
pub record Stolen (w : World) (t a : ℕ) (c : Compositor) : Type 0 where
  pub still_focused : c.focused_toplevel ≡ some t
  pub keyboard : keyboard_focus c.calls ≡ some (x11 a)
  pub refocus : focus_toplevel w (some t) c ≡ c

same_self : (t : ℕ) (o : Option ℕ) → o ≡ some t → same o (some t) ≡ true
same_self t none h = absurd (cc)
same_self t (some u) h = ground arith

focus_toplevel-same :
    (w : World) (t : ℕ) (c : Compositor)
    → c.focused_toplevel ≡ some t
    → focus_toplevel w (some t) c ≡ c
unfolding focus_toplevel
focus_toplevel-same w t c h = rw (same_self t c.focused_toplevel h, focus_toplevel) refl

abbrev shown : ℕ → XwaylandSurface → Bridge → Bridge
shown a x b = if x.scene_surface then call (set_enabled (x11_window a) true) b else b

abbrev entered : ℕ → XwaylandSurface → Bridge → Bridge
entered a x b = call (keyboard_enter (x11 a)) (call (activate_x11 a) (shown a x b))

map_window-entered :
    (w : World) (a : ℕ) (x : XwaylandSurface) (b : Bridge)
    → b.compositor.seat ≡ true
    → b.has_surface a ≡ true
    → w.has_keyboard ≡ true
    → map_window w a x b ≡ entered a x b
unfolding map_window
map_window-entered w a x b s h k = elim (Bool-cases x.scene_surface) [
  | inl e ↦ rw (e, s, h, k) refl
  | inr e ↦ rw (e, s, h, k) refl
]

focused-shown :
    (a : ℕ) (x : XwaylandSurface) (b : Bridge)
    → (shown a x b).compositor.focused_toplevel ≡ b.compositor.focused_toplevel
focused-shown a x b = elim (Bool-cases x.scene_surface) [
  | inl e ↦ rw (e) refl
  | inr e ↦ rw (e) refl
]

-- When an X11 window with a surface is mapped while a toplevel has focus, and there are a seat and
-- a keyboard, the X11 window gets the keyboard while focused_toplevel stays as it is, and
-- zen_xdg_focus_toplevel of that toplevel then changes nothing, so the keyboard stays with the X11
-- window.
pub map_window-Stolen :
    (w : World) (t a : ℕ) (x : XwaylandSurface) (b : Bridge)
    → b.compositor.focused_toplevel ≡ some t
    → b.compositor.seat ≡ true
    → b.has_surface a ≡ true
    → w.has_keyboard ≡ true
    → Stolen w t a (map_window w a x b).compositor
unfolding map_window keyboard_focus
map_window-Stolen w t a x b f s h k =
    let g = focused-shown a x b ∙ f in
    subst (λ d. Stolen w t a d.compositor) (sym (map_window-entered w a x b s h k))
      (record {
        still_focused = g;
        keyboard = refl;
        refocus = focus_toplevel-same w t (entered a x b).compositor g;
      })
