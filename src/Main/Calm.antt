-- ===== src/Main/Calm.antt =====
-- src/compositor/src/main.c: what the inits of the parts leave of the windows and the lock screen.
use zen_os.Base.{ℕ, Bool, true, false, none, List, [], ◌≡◌, refl, sym, ap, subst, ◌∙◌, arith}
use zen_os.Base.Links.{has}
use zen_os.Compositor.{Compositor, Keybinding, zeroed}
use zen_os.Windows.{xdg_init}
use zen_os.Windows.Invariant.{Inv, active}
use zen_os.Input.{input_init}
use zen_os.Dbus.{Connects, dbus_init}
use zen_os.Dbus.Methods.{dbus_init_lem}
use zen_os.Lock.{lock_init}
use zen_os.Lock.Password.{Holds, empty-Holds}
use zen_os.Lock.Session.{open_screen, Implements}

-- No window, no move and no activation; the screen is open, and nothing of a password is left.
pub record Calm (c : Compositor) : Type 0 where
  pub no_toplevels : c.toplevels ≡ []
  pub no_focus : c.focused_toplevel ≡ none
  pub no_listeners : c.listening ≡ []
  pub no_move : c.grab.toplevel ≡ none
  pub no_activation : (u : ℕ) → active u c.calls ≡ false
  pub unlocked : c.locked ≡ false
  pub no_text : Holds [] c.lock

pub boot-Calm : Calm zeroed
boot-Calm = record {
  no_toplevels = refl;
  no_focus = refl;
  no_listeners = refl;
  no_move = refl;
  no_activation = λ u. refl;
  unlocked = refl;
  no_text = empty-Holds refl refl;
}

-- Nothing of the windows or the lock is another.
Calm-same :
    (c d : Compositor)
    → d.toplevels ≡ c.toplevels
    → d.focused_toplevel ≡ c.focused_toplevel
    → d.listening ≡ c.listening
    → d.grab ≡ c.grab
    → ((u : ℕ) → active u d.calls ≡ active u c.calls)
    → d.locked ≡ c.locked
    → d.lock ≡ c.lock
    → Calm c
    → Calm d
Calm-same c d t f l g a k p h = record {
  no_toplevels = t ∙ h.no_toplevels;
  no_focus = f ∙ h.no_focus;
  no_listeners = l ∙ h.no_listeners;
  no_move = ap (λ g. g.toplevel) g ∙ h.no_move;
  no_activation = λ u. a u ∙ h.no_activation u;
  unlocked = k ∙ h.unlocked;
  no_text = subst (Holds []) (sym p) h.no_text;
}

pub xdg_init-Calm :
    (created : Bool) (c : Compositor)
    → Calm c
    → (xdg_init created c).1 ≡ true
    → Calm (xdg_init created c).0
unfolding xdg_init
xdg_init-Calm created c h e =
    Calm-same c _ (ground (arith, h.no_toplevels)) (ground (arith, h.no_focus)) (ground arith)
      (ground arith) (λ u. ground arith) (ground arith) (ground arith) h

pub input_init-Calm :
    (seat cursor manager : Bool) (c : Compositor)
    → Calm c
    → (input_init seat cursor manager c).1 ≡ true
    → Calm (input_init seat cursor manager c).0
unfolding input_init
input_init-Calm seat cursor manager c h e =
    Calm-same c _ (ground arith) (ground arith) (ground arith) (ground arith) (λ u. ground arith)
      (ground arith) (ground arith) h

pub bindings-Calm :
    (bs : List Keybinding) {c : Compositor} → Calm c → Calm (record c { keybindings = bs })
bindings-Calm bs {c} h = Calm-same c _ refl refl refl refl (λ u. refl) refl refl h

pub overlay_tree-Calm :
    (b : Bool) {c : Compositor} → Calm c → Calm (record c { shell_overlay_tree = b })
overlay_tree-Calm b {c} h = Calm-same c _ refl refl refl refl (λ u. refl) refl refl h

pub dbus_init-Calm : (k : Connects) (c : Compositor) → Calm c → Calm (dbus_init k c).0
dbus_init-Calm k c h =
    subst (λ r. Calm r.0) (sym (dbus_init_lem k c))
      (Calm-same c _ refl refl refl refl (λ u. refl) refl refl h)

pub lock_init-Calm :
    (manager timer matched : Bool) (c : Compositor)
    → Calm c
    → (lock_init manager timer matched c).1 ≡ true
    → Calm (lock_init manager timer matched c).0
unfolding lock_init
lock_init-Calm manager timer matched c h e = record {
  no_toplevels = ground (arith, h.no_toplevels);
  no_focus = ground (arith, h.no_focus);
  no_listeners = ground (arith, h.no_listeners);
  no_move = ground (arith, h.no_move);
  no_activation = λ u. ground (arith, h.no_activation u);
  unlocked = ground (arith, h.unlocked);
  no_text = empty-Holds (ground arith) (ground arith);
}

-- The invariant of the windows holds.
pub Calm-Inv : {c : Compositor} → Calm c → Inv c
unfolding has
Calm-Inv {c} h = record {
  distinct = rw h.no_toplevels tt;
  focus_alive = rw h.no_focus tt;
  grab_alive = rw h.no_move tt;
  listeners_distinct = rw h.no_listeners tt;
  listeners_alive = λ u. rw (h.no_listeners, h.no_toplevels) refl;
  activation = λ u. h.no_activation u ∙ rw h.no_focus refl;
}

pub Calm-Implements : {c : Compositor} → Calm c → Implements open_screen c
Calm-Implements h = (h.unlocked, h.no_text)

pub display-Calm : (b : Bool) {c : Compositor} → Calm c → Calm (record c { wl_display = b })
display-Calm b {c} h = Calm-same c _ refl refl refl refl (λ u. refl) refl refl h

pub output_layout-Calm :
    (b : Bool) {c : Compositor} → Calm c → Calm (record c { output_layout = b })
output_layout-Calm b {c} h = Calm-same c _ refl refl refl refl (λ u. refl) refl refl h
