-- ===== src/Main/Unlocking.antt =====
-- src/compositor/src/input.c and lock.c: the way out of the lock screen, by key events, in a
-- compositor that runs.
use zen_os.Base.{
  ℕ, ◌+◌, ◌≤◌, Bool, true, false, List, [], ◌∷◌, ◌++◌, Bytes, ◌≡◌, refl, sym, ap, ◌∙◌, arith,
  length, length-append, append_assoc, append-nil, subst, map,
}
use zen_os.Base.Scan.{done}
use zen_os.Compositor.{Compositor, pass_max}
use zen_os.Lock.{Auth, authenticate_password, return_key, escape}
use zen_os.Lock.Session.{Screen, open_screen, shut_screen, press, respond_all, Implements}
use zen_os.Input.{KeyEvent, Surroundings, handle_keyboard_key}
use zen_os.Input.Keys.{handle_keyboard_key-Implements}
use zen_os.Input.History.{Reach}
use zen_os.Main.{Process, compositor, Starts, compositor_create}
use zen_os.Main.Steps.{boot}
use zen_os.Main.Running.{Reach-Sane, screen_of}

-- ASCII, from the blank to the tilde.
abbrev pub Printable : Bytes → Type 0
Printable [] = Unit {0}
Printable (k ∷ ks) = (0x20 ≤ k) × (k ≤ 0x7e) × Printable ks

press_printable :
    (a : Auth) (k : ℕ) (text : Bytes)
    → 0x20 ≤ k
    → k ≤ 0x7e
    → length text + 1 ≤ pass_max
    → press a k text ≡ shut_screen (text ++ k ∷ [])
press_printable a k text lo hi fits = ground arith

-- The events of a keyboard: each key has one keysym when it is pressed.
pub record Keyboard : Type 0 where
  pub down : ℕ → KeyEvent
  pub up : ℕ → KeyEvent
  pub down_pressed : (k : ℕ) → (down k).pressed ≡ true
  pub down_syms : (k : ℕ) → (down k).syms ≡ k ∷ []
  pub up_released : (k : ℕ) → (up k).pressed ≡ false

pub handle_all : Surroundings → List KeyEvent → Compositor → Compositor
handle_all s [] c = c
handle_all s (e ∷ es) c = handle_all s es (handle_keyboard_key s e c)

-- Each key of the password is pressed and released, and Return is pressed.
unfoldable pub strokes : Keyboard → Bytes → List KeyEvent
strokes kb [] = kb.down return_key ∷ []
strokes kb (k ∷ ks) = kb.down k ∷ kb.up k ∷ strokes kb ks

-- First Escape.
abbrev pub strokes_after_escape : Keyboard → Bytes → List KeyEvent
strokes_after_escape kb password = kb.down escape ∷ kb.up escape ∷ strokes kb password

releases_change_nothing :
    (a : Auth) (ks : List ℕ) (text : Bytes)
    → respond_all a (map (λ k. (k, false)) ks) (shut_screen text) ≡ shut_screen text
releases_change_nothing a [] text = refl
releases_change_nothing a (k ∷ ks) text = releases_change_nothing a ks text

module _ (s : Surroundings) (kb : Keyboard) where
  down-Implements :
      (k : ℕ) (text : Bytes) (c : Compositor)
      → Implements (shut_screen text) c
      → Implements (press s.auth k text) (handle_keyboard_key s (kb.down k) c)
  down-Implements k text c h =
      let answer =
        λ (b : Bool) (ks : List ℕ). respond_all s.auth (map (λ j. (j, b)) ks) (shut_screen text) in
      subst (λ sc. Implements sc (handle_keyboard_key s (kb.down k) c))
        (ap (λ b. answer b (kb.down k).syms) (kb.down_pressed k)
          ∙ ap (answer true) (kb.down_syms k))
        (handle_keyboard_key-Implements s (kb.down k) text c h)

  up-Implements :
      (k : ℕ) (text : Bytes) (c : Compositor)
      → Implements (shut_screen text) c
      → Implements (shut_screen text) (handle_keyboard_key s (kb.up k) c)
  up-Implements k text c h =
      let answer =
        λ (b : Bool). respond_all s.auth (map (λ j. (j, b)) (kb.up k).syms) (shut_screen text) in
      subst (λ sc. Implements sc (handle_keyboard_key s (kb.up k) c))
        (ap answer (kb.up_released k) ∙ releases_change_nothing s.auth (kb.up k).syms text)
        (handle_keyboard_key-Implements s (kb.up k) text c h)

  -- A key that leaves the screen shut is pressed and released.
  stroke-Implements :
      (k : ℕ) (text new : Bytes) (c : Compositor)
      → press s.auth k text ≡ shut_screen new
      → Implements (shut_screen text) c
      → Implements
          (shut_screen new)
          (handle_keyboard_key s (kb.up k) (handle_keyboard_key s (kb.down k) c))
  stroke-Implements k text new c e h = up-Implements k new _ (
      subst (λ sc. Implements sc (handle_keyboard_key s (kb.down k) c)) e
        (down-Implements k text c h))

  strokes-Implements :
      (typed password : Bytes) (c : Compositor)
      → Implements (shut_screen typed) c
      → Printable password
      → length typed + length password ≤ pass_max
      → authenticate_password s.auth (typed ++ password) ≡ true
      → Implements open_screen (handle_all s (strokes kb password) c)
  unfolding strokes handle_all
  strokes-Implements typed [] c h p fits ok =
      let accepted : press s.auth return_key typed ≡ open_screen =
        rw (subst (λ t. authenticate_password s.auth t ≡ true) (append-nil typed) ok) refl in
      subst (λ sc. Implements sc (handle_keyboard_key s (kb.down return_key) c)) accepted
        (down-Implements return_key typed c h)
  strokes-Implements typed (k ∷ ks) c h (lo, hi, p) fits ok =
      strokes-Implements (typed ++ k ∷ []) ks _
        (stroke-Implements k typed (typed ++ k ∷ []) c
          (press_printable s.auth k typed lo hi (omega (arith, fits))) h)
        p (omega (arith, fits, length-append typed (k ∷ [])))
        (subst (λ t. authenticate_password s.auth t ≡ true) (sym (append_assoc typed (k ∷ []) ks))
          ok)

  Implements-unlocks :
      (password : Bytes) (sc : Screen) (c : Compositor)
      → Implements sc c
      → c.locked ≡ true
      → Printable password
      → length password ≤ pass_max
      → authenticate_password s.auth password ≡ true
      → Implements open_screen (handle_all s (strokes_after_escape kb password) c)
  unfolding handle_all
  Implements-unlocks password open_screen c i l p fits ok = absurd (cc (i.0))
  Implements-unlocks password (shut_screen text) c i l p fits ok =
      strokes-Implements [] password _ (stroke-Implements escape text [] c refl i) p
        (omega (arith, fits)) ok

-- After zen_compositor_create has returned 0 and any interleaving of the events of windows,
-- keyboards, the pointer and devices, the idle timer, logind's Lock signal, clients' requests for a
-- cursor or a lock, and D-Bus method calls, if the screen is locked, whatever was typed before: the
-- key events of Escape, of a printable password of at most 255 characters that PAM accepts, and of
-- Return, with each key released before the next is pressed, unlock the screen and wipe the
-- password.
pub strokes-unlock :
    (starts : Starts) (p : Process) (d : Compositor) (s : Surroundings) (kb : Keyboard)
    (password : Bytes)
    → compositor_create starts boot ≡ done (p, true)
    → Reach (compositor p) d
    → d.locked ≡ true
    → Printable password
    → length password ≤ pass_max
    → authenticate_password s.auth password ≡ true
    → Implements open_screen (handle_all s (strokes_after_escape kb password) d)
strokes-unlock starts p d s kb password e r l pr fits ok =
    Implements-unlocks s kb password (screen_of r) d (Reach-Sane starts p d e r).1 l pr fits ok
