-- ===== src/Input/History.antt =====
-- Any interleaving of window events with keys, buttons, motions, the idle timer, logind's Lock signal,
-- devices, the requests for a cursor or a lock, and D-Bus methods. A toplevel that is
-- found at a scene node is alive: its `data` is set where it is created, and its scene tree goes
-- with it.
use zen_os.Base.{
  ℕ, Bool, true, false, Option, none, some, List, [], ◌∷◌, Bytes, refl, arith, inl, inr, Bool-cases,
  is_some,
}
use zen_os.Base.Int.{ℤ}
use zen_os.Compositor.{
  Compositor, Action, launch_terminal, toggle_launcher, lock_screen, switch_window, close_window,
  custom, Keybinding, no_grab, call,
}
use zen_os.Compositor.Calls.{pointer_button}
use zen_os.Compositor.World.{World}
use zen_os.Keybinds.{execute_action, close_focused, run_custom}
use zen_os.Lock.{Auth, idle_timeout_cb, lock_signal_cb}
use zen_os.Lock.Windows.{handle_key-Untouched, activate-Untouched}
use zen_os.Windows.Invariant.{Inv, PointsInto, focus_toplevel-Inv}
use zen_os.Windows.Untouched.{Untouched, Untouched-refl, Untouched-trans, Untouched-Inv, called}
use zen_os.Windows.History
use zen_os.Windows.History.{unchanged-Inv, xdg_init-Inv}
use zen_os.Input.{
  Hit, KeyEvent, Surroundings, route_locked, handle_keyboard_key, handle_cursor_motion,
  handle_cursor_motion_absolute, handle_cursor_button, toplevel_under, focus_under,
  process_cursor_motion,
}
use zen_os.Input.Asides.{Aside, handle_aside, handle_aside-Beside}
use zen_os.Input.Keys.{deliver, handle_keyboard_key_locked, handle_keyboard_key_unlocked}

close_focused-Untouched : (o : Option ℕ) (c : Compositor) → Untouched c (close_focused o c)
unfolding close_focused
close_focused-Untouched none c = Untouched-refl c
close_focused-Untouched (some t) c = called _ c (λ u. refl)

run_custom-Untouched : (o : Option Bytes) (c : Compositor) → Untouched c (run_custom o c)
unfolding run_custom
run_custom-Untouched none c = Untouched-refl c
run_custom-Untouched (some []) c = Untouched-refl c
run_custom-Untouched (some (x ∷ cmd)) c = called _ c (λ u. refl)

execute_action-Untouched :
    (w : World) (created : Bool) (a : Action) (cmd : Option Bytes) (c : Compositor)
    → Untouched c (execute_action w created a cmd c)
unfolding execute_action
execute_action-Untouched w created launch_terminal cmd c = called _ c (λ u. refl)
execute_action-Untouched w created toggle_launcher cmd c = Untouched-refl c
execute_action-Untouched w created lock_screen cmd c = activate-Untouched w created c
execute_action-Untouched w created switch_window cmd c = Untouched-refl c
execute_action-Untouched w created close_window cmd c = close_focused-Untouched c.focused_toplevel c
execute_action-Untouched w created custom cmd c = run_custom-Untouched cmd c

route_locked-Untouched :
    (a : Auth) (pressed : Bool) (ks : List ℕ) (c : Compositor)
    → Untouched c (route_locked a pressed ks c)
unfolding route_locked
route_locked-Untouched a pressed [] c = Untouched-refl c
route_locked-Untouched a pressed (k ∷ ks) c =
    Untouched-trans c _ _ (handle_key-Untouched a k pressed c)
      (route_locked-Untouched a pressed ks _)

deliver-Untouched :
    (s : Surroundings) (e : KeyEvent) (o : Option Keybinding) (c : Compositor)
    → Untouched c (deliver s e o c)
unfolding deliver
deliver-Untouched s e none c = called _ c (λ u. refl)
deliver-Untouched s e (some b) c =
    execute_action-Untouched s.world s.lock_buffer b.action b.custom_cmd c

handle_keyboard_key-Untouched :
    (s : Surroundings) (e : KeyEvent) (c : Compositor) → Untouched c (handle_keyboard_key s e c)
handle_keyboard_key-Untouched s e c = elim (Bool-cases c.locked) [
  | inl h ↦
      rw (handle_keyboard_key_locked s e c h) (route_locked-Untouched s.auth e.pressed e.syms c)
  | inr h ↦ rw (handle_keyboard_key_unlocked s e c h) (deliver-Untouched s e _ c)
]

motion-Untouched :
    (w : World) (time : ℕ) (dx dy : ℤ) (hit : Option Hit) (c : Compositor)
    → Untouched c (handle_cursor_motion w time dx dy hit c)
unfolding handle_cursor_motion process_cursor_motion
motion-Untouched w time dx dy hit c = record {
  toplevels = ground arith;
  focused_toplevel = ground arith;
  listening = ground arith;
  grab = ground arith;
  activation = λ u. ground arith;
}

absolute_motion-Untouched :
    (w : World) (time : ℕ) (x y : ℤ) (hit : Option Hit) (c : Compositor)
    → Untouched c (handle_cursor_motion_absolute w time x y hit c)
unfolding handle_cursor_motion_absolute process_cursor_motion
absolute_motion-Untouched w time x y hit c = record {
  toplevels = ground arith;
  focused_toplevel = ground arith;
  listening = ground arith;
  grab = ground arith;
  activation = λ u. ground arith;
}

end_grab-Inv : (c : Compositor) → Inv c → Inv (record c { grab = no_grab })
end_grab-Inv c v = unchanged-Inv c _ refl refl refl tt (λ u. refl) v

focus_under-Inv :
    (w : World) (o : Option ℕ) (c : Compositor)
    → Inv c
    → PointsInto o c.toplevels
    → Inv (focus_under w o c)
focus_under-Inv w none c v h = v
focus_under-Inv w (some t) c v h = focus_toplevel-Inv w (some t) c v h

button_called-Inv :
    (time button : ℕ) (pressed : Bool) (c : Compositor)
    → Inv c
    → Inv (call (pointer_button time button pressed) c)
button_called-Inv time button pressed c v = Untouched-Inv c _ (called _ c (λ u. refl)) v

handle_cursor_button-Inv :
    (w : World) (time button : ℕ) (pressed : Bool) (hit : Option Hit) (c : Compositor)
    → PointsInto (toplevel_under hit) c.toplevels
    → Inv c
    → Inv (handle_cursor_button w time button pressed hit c)
unfolding handle_cursor_button
handle_cursor_button-Inv w time button true hit c h v =
    button_called-Inv time button true _ (focus_under-Inv w (toplevel_under hit) c v h)
handle_cursor_button-Inv w time button false hit c h v =
    elim (Bool-cases (is_some c.grab.toplevel)) [
      | inl e ↦
          rw (e, handle_cursor_button) (button_called-Inv time button false _ (end_grab-Inv c v))
      | inr e ↦ rw (e, handle_cursor_button) (button_called-Inv time button false c v)
    ]

pub data Step (c : Compositor) : Compositor → Type 0 where
  window : {d : Compositor} → History.Step c d → Step c d
  key : (s : Surroundings) (e : KeyEvent) → Step c (handle_keyboard_key s e c)
  motion :
      (w : World) (time : ℕ) (dx dy : ℤ) (hit : Option Hit)
      → Step c (handle_cursor_motion w time dx dy hit c)
  absolute_motion :
      (w : World) (time : ℕ) (x y : ℤ) (hit : Option Hit)
      → Step c (handle_cursor_motion_absolute w time x y hit c)
  button :
      (w : World) (time which : ℕ) (pressed : Bool) (hit : Option Hit)
      → PointsInto (toplevel_under hit) c.toplevels
      → Step c (handle_cursor_button w time which pressed hit c)
  idles : (w : World) (lock_buffer : Bool) → Step c (idle_timeout_cb w lock_buffer c)
  lock_signal : (w : World) (lock_buffer : Bool) → Step c (lock_signal_cb w lock_buffer c)
  aside : (a : Aside) → Step c (handle_aside a c)

pub data Reach (s : Compositor) : Compositor → Type 0 where
  here : Reach s s
  next : {c d : Compositor} → Reach s c → Step c d → Reach s d

Step-Inv : {c d : Compositor} → Step c d → Inv c → Inv d
unfolding idle_timeout_cb lock_signal_cb
Step-Inv (window st) v = History.Step-Inv st v
Step-Inv {c} (key s e) v = Untouched-Inv c _ (handle_keyboard_key-Untouched s e c) v
Step-Inv {c} (motion w time dx dy hit) v = Untouched-Inv c _ (motion-Untouched w time dx dy hit c) v
Step-Inv {c} (absolute_motion w time x y hit) v =
    Untouched-Inv c _ (absolute_motion-Untouched w time x y hit c) v
Step-Inv {c} (button w time which pressed hit h) v =
    handle_cursor_button-Inv w time which pressed hit c h v
Step-Inv {c} (idles w b) v = Untouched-Inv c _ (activate-Untouched w b c) v
Step-Inv {c} (lock_signal w b) v = Untouched-Inv c _ (activate-Untouched w b c) v
Step-Inv {c} (aside a) v = Untouched-Inv c _ (handle_aside-Beside a c).windows v

pub interleaving-Inv : {s c : Compositor} → Inv s → Reach s c → Inv c
interleaving-Inv v here = v
interleaving-Inv v (next r st) = Step-Inv st (interleaving-Inv v r)
