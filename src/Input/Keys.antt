-- ===== src/Input/Keys.antt =====
-- src/compositor/src/input.c: where a key event goes, the lock screen, a binding, or the client that
-- has the keyboard.
use zen_os.Base.{
  ℕ, suc, Bool, true, false, ◌&&◌, ◌||◌, Option, none, some, List, [], ◌∷◌, Bytes, ◌≡◌, refl, sym,
  ap, ◌∙◌, arith, if◌then◌else◌, inl, inr, Bool-cases, Option-cases, map, is_some,
}
use zen_os.Compositor.{Compositor, Keybinding, call, Action}
use zen_os.Compositor.Calls.{keyboard_key, keys_sent}
use zen_os.Compositor.World.{World}
use zen_os.Keybinds.{find_binding, execute_action}
use zen_os.Keybinds
use zen_os.Lock.{Auth}
use zen_os.Lock.Session.{Screen, shut_screen, respond_all, Implements, handle_key-Implements}
use zen_os.Lock.Silence.{keys_sent-handle_key, keys_sent-activate}
use zen_os.Input.{
  KeyEvent, Surroundings, route_locked, try_bindings, forward_key, handle_keyboard_key,
}

-- The binding of the first keysym that has one.
unfoldable pub first_bound : ℕ → List ℕ → List Keybinding → Option Keybinding
first_bound modifiers [] bs = none
first_bound modifiers (k ∷ ks) bs = elim (find_binding modifiers k bs) [
  | none ↦ first_bound modifiers ks bs
  | some b ↦ some b
]

-- What becomes of a key event on an unlocked screen: its binding is performed, or it is forwarded.
unfoldable pub deliver : Surroundings → KeyEvent → Option Keybinding → Compositor → Compositor
deliver s e none c = call (keyboard_key e.time_msec e.keycode e.pressed) c
deliver s e (some b) c = execute_action s.world s.lock_buffer b.action b.custom_cmd c

abbrev perform_first : Surroundings → Option Keybinding → Compositor → Compositor × Bool
perform_first s none c = (c, false)
perform_first s (some b) c = (execute_action s.world s.lock_buffer b.action b.custom_cmd c, true)

try_bindings_lem :
    (s : Surroundings) (modifiers : ℕ) (ks : List ℕ) (c : Compositor)
    → try_bindings s modifiers ks c ≡ perform_first s (first_bound modifiers ks c.keybindings) c
unfolding try_bindings first_bound Keybinds.handle_key
try_bindings_lem s modifiers [] c = refl
try_bindings_lem s modifiers (k ∷ ks) c =
    elim (Option-cases (find_binding modifiers k c.keybindings)) [
      | inl e ↦ rw (e, try_bindings, first_bound) (try_bindings_lem s modifiers ks c)
      | inr (b, e) ↦ rw (e, try_bindings, first_bound)
    ]

performed :
    (s : Surroundings) (e : KeyEvent) (o : Option Keybinding) (c : Compositor)
    → forward_key e (perform_first s o c) ≡ deliver s e o c
unfolding deliver
performed s e none c = refl
performed s e (some b) c = refl

pub handle_keyboard_key_locked :
    (s : Surroundings) (e : KeyEvent) (c : Compositor)
    → c.locked ≡ true
    → handle_keyboard_key s e c ≡ route_locked s.auth e.pressed e.syms c
unfolding handle_keyboard_key
handle_keyboard_key_locked s e c h = rw (h, handle_keyboard_key)

handle_keyboard_key_press :
    (s : Surroundings) (e : KeyEvent) (c : Compositor)
    → c.locked ≡ false
    → e.pressed ≡ true
    → handle_keyboard_key s e c ≡ forward_key e (try_bindings s e.modifiers e.syms c)
unfolding handle_keyboard_key
handle_keyboard_key_press s e c h p = rw (h, p, handle_keyboard_key)

handle_keyboard_key_release :
    (s : Surroundings) (e : KeyEvent) (c : Compositor)
    → c.locked ≡ false
    → e.pressed ≡ false
    → handle_keyboard_key s e c ≡ deliver s e none c
unfolding handle_keyboard_key deliver
handle_keyboard_key_release s e c h p = rw (h, p, handle_keyboard_key)

-- On an unlocked screen, a key event does what its first bound keysym is bound to, if it is a
-- press and there is one; otherwise it is forwarded to the client, and nothing else is done.
pub handle_keyboard_key_unlocked :
    (s : Surroundings) (e : KeyEvent) (c : Compositor)
    → c.locked ≡ false
    → handle_keyboard_key s e c
      ≡ deliver s e (if e.pressed then first_bound e.modifiers e.syms c.keybindings else none) c
handle_keyboard_key_unlocked s e c h = elim (Bool-cases e.pressed) [
  | inl p ↦
      handle_keyboard_key_press s e c h p
      ∙ ap (forward_key e) (try_bindings_lem s e.modifiers e.syms c)
      ∙ performed s e (first_bound e.modifiers e.syms c.keybindings) c
      ∙ ap (λ b. deliver s e (if b then first_bound e.modifiers e.syms c.keybindings else none) c)
          (sym p)
  | inr p ↦
      handle_keyboard_key_release s e c h p
      ∙ ap (λ b. deliver s e (if b then first_bound e.modifiers e.syms c.keybindings else none) c)
          (sym p)
]

keys_sent-execute_action :
    (w : World) (created : Bool) (a : Action) (cmd : Option Bytes) (c : Compositor)
    → keys_sent (execute_action w created a cmd c).calls ≡ keys_sent c.calls
unfolding execute_action keys_sent
keys_sent-execute_action w created a cmd c = ground (arith, keys_sent-activate w created c)

keys_sent-deliver :
    (s : Surroundings) (e : KeyEvent) (o : Option Keybinding) (c : Compositor)
    → keys_sent (deliver s e o c).calls
      ≡ (if is_some o then keys_sent c.calls else suc (keys_sent c.calls))
unfolding deliver keys_sent
keys_sent-deliver s e none c = refl
keys_sent-deliver s e (some b) c =
    keys_sent-execute_action s.world s.lock_buffer b.action b.custom_cmd c

keys_sent-route_locked :
    (a : Auth) (pressed : Bool) (ks : List ℕ) (c : Compositor)
    → keys_sent (route_locked a pressed ks c).calls ≡ keys_sent c.calls
unfolding route_locked
keys_sent-route_locked a pressed [] c = refl
keys_sent-route_locked a pressed (k ∷ ks) c =
    keys_sent-route_locked a pressed ks _ ∙ keys_sent-handle_key a k pressed c

-- A key event is sent to a client exactly if the screen is not locked and, on a press, no keysym
-- of the key is bound, and then once.
pub handle_keyboard_key_sends :
    (s : Surroundings) (e : KeyEvent) (c : Compositor)
    → keys_sent (handle_keyboard_key s e c).calls ≡ (
        if c.locked || (e.pressed && is_some (first_bound e.modifiers e.syms c.keybindings))
        then keys_sent c.calls
        else suc (keys_sent c.calls))
handle_keyboard_key_sends s e c = elim (Bool-cases c.locked) [
  | inl h ↦
      rw (handle_keyboard_key_locked s e c h)
        (keys_sent-route_locked s.auth e.pressed e.syms c ∙ ground arith)
  | inr h ↦ rw (handle_keyboard_key_unlocked s e c h) (keys_sent-deliver s e _ c ∙ ground arith)
]

route_locked-Implements :
    (a : Auth) (pressed : Bool) (ks : List ℕ) (sc : Screen) (c : Compositor)
    → Implements sc c
    → Implements (respond_all a (map (λ k. (k, pressed)) ks) sc) (route_locked a pressed ks c)
unfolding route_locked
route_locked-Implements a pressed [] sc c h = h
route_locked-Implements a pressed (k ∷ ks) sc c h =
    route_locked-Implements a pressed ks _ _ (handle_key-Implements a k pressed sc c h)

-- On a locked screen, a key event acts as all the keysyms of the key do, one after the other, on
-- the text field that the screen stands for.
pub handle_keyboard_key-Implements :
    (s : Surroundings) (e : KeyEvent) (text : Bytes) (c : Compositor)
    → Implements (shut_screen text) c
    → Implements
        (respond_all s.auth (map (λ k. (k, e.pressed)) e.syms) (shut_screen text))
        (handle_keyboard_key s e c)
unfolding handle_keyboard_key
handle_keyboard_key-Implements s e text c h =
    rw (handle_keyboard_key_locked s e c h.0)
      (route_locked-Implements s.auth e.pressed e.syms (shut_screen text) c h)
