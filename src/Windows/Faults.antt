-- ===== src/Windows/Faults.antt =====
-- src/compositor/src/xdg.c: zen_xdg_destroy with windows open, and handle_toplevel_destroy with a
-- window that is not mapped yet.
use zen_os.Base.{ℕ, true, false, some, ◌≡◌, ◌≢◌, refl, subst, ◌∙◌, arith}
use zen_os.Base.Links.{has}
use zen_os.Compositor.{Compositor, address_of}
use zen_os.Compositor.World.{World}
use zen_os.Windows.{self, next_other, handle_destroy, handle_new_toplevel, xdg_destroy}
use zen_os.Windows.Invariant.{
  Inv, PointsInto, active, handle_destroy-Inv, handle_new_toplevel-Inv, focused-focus_toplevel,
}

-- Where the invariant of the windows holds, each window that is open when zen_xdg_destroy is
-- called is off the list afterwards, with its listeners still to be called.
pub xdg_destroy_dangles :
    (c : Compositor) (t : ℕ)
    → Inv c
    → has address_of t c.toplevels ≡ true
    → (has address_of t (xdg_destroy c).toplevels ≡ false)
      × (has self t (xdg_destroy c).listening ≡ true)
unfolding xdg_destroy has
xdg_destroy_dangles c t v h = (refl, v.listeners_alive t ∙ h)

-- Where the invariant of the windows holds, and a window is created while another has focus, and
-- the focused one is destroyed before any other event, the new one gets focus and is activated,
-- whether or not it is mapped.
pub handle_destroy_activates_new :
    (w : World) (t n : ℕ) (c : Compositor)
    → Inv c
    → c.focused_toplevel ≡ some t
    → has address_of n c.toplevels ≡ false
    → let d = handle_destroy w t (handle_new_toplevel (some n) true c) in
      (d.focused_toplevel ≡ some n) × (active n d.calls ≡ true)
unfolding handle_new_toplevel handle_destroy next_other
handle_destroy_activates_new w t n c v f h = (
  focus,
  (handle_destroy-Inv w t _ (handle_new_toplevel-Inv n true c v h)).activation n
      ∙ rw focus (ground arith),
)
  where
    alive : has address_of t c.toplevels ≡ true
    alive = subst (λ o. PointsInto o c.toplevels) f v.focus_alive

    other : n ≢ t
    other e = cc (rw e at h, alive)

    focus : (handle_destroy w t (handle_new_toplevel (some n) true c)).focused_toplevel ≡ some n
    focus =
        ground
          (arith, other, focused-focus_toplevel w (some n) (handle_new_toplevel (some n) true c))
