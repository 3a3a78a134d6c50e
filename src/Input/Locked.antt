-- ===== src/Input/Locked.antt =====
-- src/compositor/src/input.c and lock.c: the lock screen among the other events.
use zen_os.Base.{
  ℕ, Bool, true, false, Option, none, some, [], Bytes, ◌≡◌, refl, sym, ap, subst, ◌∙◌, arith, map,
}
use zen_os.Base.Int.{ℤ}
use zen_os.Compositor.{
  Compositor, Action, launch_terminal, toggle_launcher, lock_screen, switch_window, close_window,
  custom, Keybinding,
}
use zen_os.Compositor.World.{World}
use zen_os.Keybinds.{execute_action, close_focused, run_custom}
use zen_os.Lock.{activate, idle_timeout_cb, lock_signal_cb}
use zen_os.Lock.Password.{Holds}
use zen_os.Lock.Session.{
  Screen, open_screen, shut_screen, respond_all, Implements, activate-Implements,
  activate_fails-Implements, activate_locked,
}
use zen_os.Windows.{focus_toplevel}
use zen_os.Windows.Locking.{SameLock, SameLock-Step}
use zen_os.Input.{
  Hit, KeyEvent, Surroundings, handle_keyboard_key, handle_cursor_motion,
  handle_cursor_motion_absolute, handle_cursor_button, process_cursor_motion,
}
use zen_os.Input.Keys.{deliver, handle_keyboard_key_unlocked, handle_keyboard_key-Implements}
use zen_os.Input.History.{
  Step, window, key, motion, absolute_motion, button, idles, lock_signal, aside,
}
use zen_os.Input.Asides.{handle_aside-Beside}

SameLock-Implements :
    (c d : Compositor) (s : Screen) → SameLock c d → Implements s c → Implements s d
SameLock-Implements c d open_screen h i = (h.locked ∙ i.0, subst (Holds []) (sym h.lock) i.1)
SameLock-Implements c d (shut_screen text) h i =
    (h.locked ∙ i.0, subst (Holds text) (sym h.lock) i.1)

-- A screen that was open before an event: it has been shut, with nothing typed, or not.
abbrev pub fresh : Bool → Screen
fresh true = shut_screen []
fresh false = open_screen

abbrev pub IsFresh : Compositor → Type 0
IsFresh c = Implements (fresh c.locked) c

open-IsFresh : (c : Compositor) → Implements open_screen c → IsFresh c
open-IsFresh c i = subst (λ b. Implements (fresh b) c) (sym i.0) i

SameLock-IsFresh : (c d : Compositor) → SameLock c d → Implements open_screen c → IsFresh d
SameLock-IsFresh c d h i = open-IsFresh d (SameLock-Implements c d open_screen h i)

activate-IsFresh :
    (w : World) (created : Bool) (c : Compositor)
    → Implements open_screen c
    → IsFresh (activate w created c)
activate-IsFresh w true c i =
    let j = activate-Implements w c i in
    subst (λ b. Implements (fresh b) (activate w true c)) (sym j.0) j
activate-IsFresh w false c i = open-IsFresh _ (activate_fails-Implements w c i)

close_focused-SameLock : (o : Option ℕ) (c : Compositor) → SameLock c (close_focused o c)
unfolding close_focused
close_focused-SameLock o c = record { locked = ground arith; lock = ground arith }

run_custom-SameLock : (o : Option Bytes) (c : Compositor) → SameLock c (run_custom o c)
unfolding run_custom
run_custom-SameLock o c = record { locked = ground arith; lock = ground arith }

execute_action-IsFresh :
    (w : World) (created : Bool) (a : Action) (cmd : Option Bytes) (c : Compositor)
    → Implements open_screen c
    → IsFresh (execute_action w created a cmd c)
unfolding execute_action
execute_action-IsFresh w created launch_terminal cmd c i =
    SameLock-IsFresh c _ (record { locked = refl; lock = refl }) i
execute_action-IsFresh w created toggle_launcher cmd c i = open-IsFresh c i
execute_action-IsFresh w created lock_screen cmd c i = activate-IsFresh w created c i
execute_action-IsFresh w created switch_window cmd c i = open-IsFresh c i
execute_action-IsFresh w created close_window cmd c i =
    SameLock-IsFresh c _ (close_focused-SameLock c.focused_toplevel c) i
execute_action-IsFresh w created custom cmd c i = SameLock-IsFresh c _ (run_custom-SameLock cmd c) i

deliver-IsFresh :
    (s : Surroundings) (e : KeyEvent) (o : Option Keybinding) (c : Compositor)
    → Implements open_screen c
    → IsFresh (deliver s e o c)
unfolding deliver
deliver-IsFresh s e none c i = SameLock-IsFresh c _ (record { locked = refl; lock = refl }) i
deliver-IsFresh s e (some b) c i =
    execute_action-IsFresh s.world s.lock_buffer b.action b.custom_cmd c i

handle_keyboard_key-IsFresh :
    (s : Surroundings) (e : KeyEvent) (c : Compositor)
    → Implements open_screen c
    → IsFresh (handle_keyboard_key s e c)
handle_keyboard_key-IsFresh s e c i =
    rw (handle_keyboard_key_unlocked s e c i.0) (deliver-IsFresh s e _ c i)

motion-SameLock :
    (w : World) (time : ℕ) (dx dy : ℤ) (hit : Option Hit) (c : Compositor)
    → SameLock c (handle_cursor_motion w time dx dy hit c)
unfolding handle_cursor_motion process_cursor_motion
motion-SameLock w time dx dy hit c = record { locked = ground arith; lock = ground arith }

absolute_motion-SameLock :
    (w : World) (time : ℕ) (x y : ℤ) (hit : Option Hit) (c : Compositor)
    → SameLock c (handle_cursor_motion_absolute w time x y hit c)
unfolding handle_cursor_motion_absolute process_cursor_motion
absolute_motion-SameLock w time x y hit c = record { locked = ground arith; lock = ground arith }

button-SameLock :
    (w : World) (time which : ℕ) (pressed : Bool) (hit : Option Hit) (c : Compositor)
    → SameLock c (handle_cursor_button w time which pressed hit c)
unfolding handle_cursor_button focus_toplevel
button-SameLock w time which pressed hit c = record { locked = ground arith; lock = ground arith }

-- The screen after an event. A key event on a shut screen is answered by the text field; any other
-- event leaves a shut screen as it is; and an open one may be shut, with nothing typed.
abbrev pub screen_after : {c d : Compositor} → Step c d → Screen → Screen
screen_after {c} {d} st open_screen = fresh d.locked
screen_after (key s e) (shut_screen text) =
    respond_all s.auth (map (λ k. (k, e.pressed)) e.syms) (shut_screen text)
screen_after st (shut_screen text) = shut_screen text

open-Step : {c d : Compositor} → Step c d → Implements open_screen c → IsFresh d
unfolding idle_timeout_cb lock_signal_cb
open-Step {c} (window st) i = SameLock-IsFresh c _ (SameLock-Step st) i
open-Step {c} (key s e) i = handle_keyboard_key-IsFresh s e c i
open-Step {c} (motion w time dx dy hit) i =
    SameLock-IsFresh c _ (motion-SameLock w time dx dy hit c) i
open-Step {c} (absolute_motion w time x y hit) i =
    SameLock-IsFresh c _ (absolute_motion-SameLock w time x y hit c) i
open-Step {c} (button w time which pressed hit h) i =
    SameLock-IsFresh c _ (button-SameLock w time which pressed hit c) i
open-Step {c} (idles w b) i = activate-IsFresh w b c i
open-Step {c} (lock_signal w b) i = activate-IsFresh w b c i
open-Step {c} (aside a) i = SameLock-IsFresh c _ (handle_aside-Beside a c).lock i

pub Step-Implements :
    {c d : Compositor} (st : Step c d) (sc : Screen)
    → Implements sc c
    → Implements (screen_after st sc) d
unfolding idle_timeout_cb lock_signal_cb
Step-Implements st open_screen i = open-Step st i
Step-Implements {c} (window st) (shut_screen text) i =
    SameLock-Implements c _ (shut_screen text) (SameLock-Step st) i
Step-Implements {c} (key s e) (shut_screen text) i = handle_keyboard_key-Implements s e text c i
Step-Implements {c} (motion w time dx dy hit) (shut_screen text) i =
    SameLock-Implements c _ (shut_screen text) (motion-SameLock w time dx dy hit c) i
Step-Implements {c} (absolute_motion w time x y hit) (shut_screen text) i =
    SameLock-Implements c _ (shut_screen text) (absolute_motion-SameLock w time x y hit c) i
Step-Implements {c} (button w time which pressed hit h) (shut_screen text) i =
    SameLock-Implements c _ (shut_screen text) (button-SameLock w time which pressed hit c) i
Step-Implements {c} (idles w b) (shut_screen text) i = rw (activate_locked w b c i.0) i
Step-Implements {c} (lock_signal w b) (shut_screen text) i = rw (activate_locked w b c i.0) i
Step-Implements {c} (aside a) (shut_screen text) i =
    SameLock-Implements c _ (shut_screen text) (handle_aside-Beside a c).lock i

-- What a step does that opens a shut screen.
abbrev pub Opens : Bytes → Compositor → Compositor → Type 0
Opens text c d =
    (s : Surroundings) × (e : KeyEvent) × (d ≡ handle_keyboard_key s e c)
    × (respond_all s.auth (map (λ k. (k, e.pressed)) e.syms) (shut_screen text) ≡ open_screen)

still_locked :
    (text : Bytes) (c d : Compositor)
    → SameLock c d
    → Implements (shut_screen text) c
    → d.locked ≡ false
    → Opens text c d
still_locked text c d h i l = absurd (ground (arith, h.locked, i.0))

stays_locked :
    (w : World) (created : Bool) (c : Compositor)
    → c.locked ≡ true
    → ¬ (activate w created c).locked ≡ false
stays_locked w created c h l =
    ground (arith, ap Compositor.locked (activate_locked w created c h), h)

opened : (sc : Screen) (c : Compositor) → Implements sc c → c.locked ≡ false → sc ≡ open_screen
opened open_screen c i l = refl
opened (shut_screen text) c i l = absurd (ground (arith, i.0))

-- Of all the events, only a key event opens a shut screen, and only one that opens the text field
-- of the specification, which takes a Return for which PAM accepts the text typed since the screen
-- was shut or the field last cleared.
pub only_keys_unlock :
    (text : Bytes) (c d : Compositor)
    → Implements (shut_screen text) c
    → Step c d
    → d.locked ≡ false
    → Opens text c d
unfolding idle_timeout_cb lock_signal_cb
only_keys_unlock text c d i (window st) l = still_locked text c d (SameLock-Step st) i l
only_keys_unlock text c d i (key s e) l =
    (s, e, refl, opened _ _ (handle_keyboard_key-Implements s e text c i) l)
only_keys_unlock text c d i (motion w time dx dy hit) l =
    still_locked text c d (motion-SameLock w time dx dy hit c) i l
only_keys_unlock text c d i (absolute_motion w time x y hit) l =
    still_locked text c d (absolute_motion-SameLock w time x y hit c) i l
only_keys_unlock text c d i (button w time which pressed hit h) l =
    still_locked text c d (button-SameLock w time which pressed hit c) i l
only_keys_unlock text c d i (idles w b) l = absurd (stays_locked w b c i.0 l)
only_keys_unlock text c d i (lock_signal w b) l = absurd (stays_locked w b c i.0 l)
only_keys_unlock text c d i (aside a) l = still_locked text c d (handle_aside-Beside a c).lock i l
