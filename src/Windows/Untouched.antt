-- ===== src/Windows/Untouched.antt =====
-- The part of the state that src/compositor/src/xdg.c works on, before and after other code.
use zen_os.Base.{ℕ, ◌∷◌, ◌≡◌, refl, ◌∙◌, subst, sym}
use zen_os.Compositor.{Compositor, call}
use zen_os.Compositor.Calls.{Call}
use zen_os.Windows.Invariant.{Inv, active, PointsInto}
use zen_os.Windows.History.{unchanged-Inv}

pub record Untouched (c d : Compositor) : Type 0 where
  pub toplevels : d.toplevels ≡ c.toplevels
  pub focused_toplevel : d.focused_toplevel ≡ c.focused_toplevel
  pub listening : d.listening ≡ c.listening
  pub grab : d.grab ≡ c.grab
  pub activation : (u : ℕ) → active u d.calls ≡ active u c.calls

pub Untouched-refl : (c : Compositor) → Untouched c c
Untouched-refl c = record {
  toplevels = refl;
  focused_toplevel = refl;
  listening = refl;
  grab = refl;
  activation = λ u. refl;
}

-- A call that activates no window.
pub called :
    (k : Call) (c : Compositor)
    → ((u : ℕ) → active u (k ∷ c.calls) ≡ active u c.calls)
    → Untouched c (call k c)
called k c h = record {
  toplevels = refl;
  focused_toplevel = refl;
  listening = refl;
  grab = refl;
  activation = h;
}

pub Untouched-trans : (b c d : Compositor) → Untouched b c → Untouched c d → Untouched b d
Untouched-trans b c d h k = record {
  toplevels = k.toplevels ∙ h.toplevels;
  focused_toplevel = k.focused_toplevel ∙ h.focused_toplevel;
  listening = k.listening ∙ h.listening;
  grab = k.grab ∙ h.grab;
  activation = λ u. k.activation u ∙ h.activation u;
}

pub Untouched-Inv : (c d : Compositor) → Untouched c d → Inv c → Inv d
Untouched-Inv c d h v =
    unchanged-Inv c d h.toplevels h.focused_toplevel h.listening
      (subst (λ g. PointsInto g.toplevel c.toplevels) (sym h.grab) v.grab_alive) h.activation v
