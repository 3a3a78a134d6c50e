-- ===== src/Lock/Session.antt =====
-- src/compositor/src/lock.c against its specification: a text field that opens on an accepted
-- password.
use zen_os.Base.{
  ℕ, Bool, true, false, not, ◌&&◌, ◌||◌, List, [], ◌∷◌, Bytes, ◌≡◌, inl, inr, refl, ◌∙◌, arith,
  ◌==◌, if◌then◌else◌, Bool-cases,
}
use zen_os.Compositor.{Compositor}
use zen_os.Compositor.World.{World}
use zen_os.Lock.{
  Auth, authenticate_password, render_lock_ui, deactivate, return_key, kp_enter, submit, edit_key,
  handle_key, activate, clear_password, show_error, with_lock, erase_last, type_char,
}
use zen_os.Lock.Password.{
  edit, Holds, c_string-Holds, empty-Holds, edit_key-Holds, lock-render_lock_ui,
}

pub data Screen : Type 0 where
  open_screen : Screen
  shut_screen : Bytes → Screen

-- A key press on a shut screen. PAM is given the text since the screen was shut or last cleared.
abbrev pub press : Auth → ℕ → Bytes → Screen
press a k text =
    if k == return_key || k == kp_enter
    then if authenticate_password a text then open_screen else shut_screen []
    else shut_screen (edit k text)

abbrev pub respond : Auth → ℕ × Bool → Screen → Screen
respond a key open_screen = open_screen
respond a (k, pressed) (shut_screen text) = if pressed then press a k text else shut_screen text

abbrev pub respond_all : Auth → List (ℕ × Bool) → Screen → Screen
respond_all a [] s = s
respond_all a (k ∷ ks) s = respond_all a ks (respond a k s)

-- zen_lock_handle_key, called for each key of a list.
pub handle_keys : Auth → List (ℕ × Bool) → Compositor → Compositor
handle_keys a [] c = c
handle_keys a ((k, pressed) ∷ ks) c = handle_keys a ks (handle_key a k pressed c).0

-- The state stands for a screen. Nothing is left of a password on an open one.
abbrev pub Implements : Screen → Compositor → Type 0
Implements open_screen c = (c.locked ≡ false) × Holds [] c.lock
Implements (shut_screen text) c = (c.locked ≡ true) × Holds text c.lock

locked-render_lock_ui : (c : Compositor) → (render_lock_ui c).locked ≡ c.locked
unfolding render_lock_ui
locked-render_lock_ui c = ground arith

locked-edit_key : (k : ℕ) (c : Compositor) → (edit_key k c).locked ≡ c.locked
unfolding edit_key
locked-edit_key k c = ground (
  arith,
  locked-render_lock_ui (with_lock (show_error false (erase_last c.lock)) c),
  locked-render_lock_ui (with_lock (show_error false (clear_password c.lock)) c),
  locked-render_lock_ui (with_lock (show_error false (type_char k c.lock)) c),
)

deactivate-Implements : (c : Compositor) → c.locked ≡ true → Implements open_screen (deactivate c)
unfolding deactivate
deactivate-Implements c h = elim (Bool-cases c.lock.idle_timer) [
  | inl e ↦ rw (h, e, deactivate) (refl, empty-Holds refl refl)
  | inr e ↦ rw (h, e, deactivate) (refl, empty-Holds refl refl)
]

submit-Implements :
    (a : Auth) (text : Bytes) (c : Compositor)
    → Implements (shut_screen text) c
    → Implements (if authenticate_password a text then open_screen else shut_screen []) (submit a c)
unfolding submit
submit-Implements a text c h = elim (Bool-cases (authenticate_password a text)) [
  | inl accepted ↦ rw (c_string-Holds h.1, accepted, submit) (deactivate-Implements c h.0)
  | inr refused ↦
      rw (c_string-Holds h.1, refused, submit, lock-render_lock_ui, locked-render_lock_ui)
        (h.0, empty-Holds refl refl)
]

handle_key_open :
    (a : Auth) (k : ℕ) (pressed : Bool) (c : Compositor)
    → (not c.locked || not pressed) ≡ true
    → handle_key a k pressed c ≡ (c, c.locked)
unfolding handle_key
handle_key_open a k pressed c h = rw (h, handle_key)

handle_key-submit :
    (a : Auth) (k : ℕ) (c : Compositor)
    → (not c.locked || not true) ≡ false
    → (k == return_key || k == kp_enter) ≡ true
    → handle_key a k true c ≡ (submit a c, true)
unfolding handle_key
handle_key-submit a k c h e = rw (h, e, handle_key)

handle_key_edit :
    (a : Auth) (k : ℕ) (c : Compositor)
    → (not c.locked || not true) ≡ false
    → (k == return_key || k == kp_enter) ≡ false
    → handle_key a k true c ≡ (edit_key k c, true)
unfolding handle_key
handle_key_edit a k c h e = rw (h, e, handle_key)

-- Each key press or release acts on the compositor as it acts on the screen that it stands for.
pub handle_key-Implements :
    (a : Auth) (k : ℕ) (pressed : Bool) (s : Screen) (c : Compositor)
    → Implements s c
    → Implements (respond a (k, pressed) s) (handle_key a k pressed c).0
handle_key-Implements a k pressed open_screen c h =
    rw (handle_key_open a k pressed c (ground (arith, h.0))) h
handle_key-Implements a k false (shut_screen text) c h =
    rw (handle_key_open a k false c (ground (arith, h.0))) h
handle_key-Implements a k true (shut_screen text) c h =
    elim (Bool-cases (k == return_key || k == kp_enter)) [
      | inl e ↦
          rw (e, handle_key-submit a k c (ground (arith, h.0)) e) (submit-Implements a text c h)
      | inr e ↦
          rw (e, handle_key_edit a k c (ground (arith, h.0)) e)
            (locked-edit_key k c ∙ h.0, edit_key-Holds k text c h.1)
    ]

-- Any sequence of key presses and releases acts on the compositor as it acts on the text field
-- that it stands for: the screen opens only when PAM accepts the text typed since it was shut or
-- last cleared, and the password is wiped when it does.
pub handle_keys-Implements :
    (a : Auth) (ks : List (ℕ × Bool)) (s : Screen) (c : Compositor)
    → Implements s c
    → Implements (respond_all a ks s) (handle_keys a ks c)
unfolding handle_keys
handle_keys-Implements a [] s c h = h
handle_keys-Implements a ((k, pressed) ∷ ks) s c h =
    handle_keys-Implements a ks (respond a (k, pressed) s) _
      (handle_key-Implements a k pressed s c h)

-- Whatever the key, the event is consumed exactly if the screen was locked.
pub handle_key_consumes :
    (a : Auth) (k : ℕ) (pressed : Bool) (c : Compositor) → (handle_key a k pressed c).1 ≡ c.locked
unfolding handle_key
handle_key_consumes a k pressed c = ground arith

-- zen_lock_activate shuts an open screen, with an empty text field, if the lock buffer can be
-- made.
pub activate-Implements :
    (w : World) (c : Compositor)
    → Implements open_screen c
    → Implements (shut_screen []) (activate w true c)
unfolding activate
activate-Implements w c h =
    rw (h.0, activate, lock-render_lock_ui, locked-render_lock_ui) (refl, empty-Holds refl refl)

-- zen_lock_activate leaves a shut screen as it is.
pub activate_locked :
    (w : World) (created : Bool) (c : Compositor) → c.locked ≡ true → activate w created c ≡ c
unfolding activate
activate_locked w created c h = rw (h, activate)

-- Without a lock buffer, the screen stays open.
pub activate_fails-Implements :
    (w : World) (c : Compositor)
    → Implements open_screen c
    → Implements open_screen (activate w false c)
unfolding activate
activate_fails-Implements w c h = rw (h.0, activate) (refl, empty-Holds refl refl)

without_pam : (a : Auth) (text : Bytes) → a.have_pam ≡ false → authenticate_password a text ≡ false
unfolding authenticate_password
without_pam a text h = ground arith

respond_without_pam :
    (a : Auth) (k : ℕ × Bool) (text : Bytes)
    → a.have_pam ≡ false
    → (t : Bytes) × (respond a k (shut_screen text) ≡ shut_screen t)
respond_without_pam a (k, pressed) text h =
    elim (Bool-cases (pressed && not (k == return_key || k == kp_enter))) [
      | inl e ↦ (edit k text, ground arith)
      | inr e ↦ (if pressed then [] else text, ground (arith, without_pam a text h))
    ]

-- Built without PAM, a locked screen, which stands for a shut text field, stays locked, whatever
-- keys are pressed.
pub no_pam_stays_locked :
    (a : Auth) (ks : List (ℕ × Bool)) (text : Bytes) (c : Compositor)
    → a.have_pam ≡ false
    → Implements (shut_screen text) c
    → (handle_keys a ks c).locked ≡ true
unfolding handle_keys
no_pam_stays_locked a [] text c n h = h.0
no_pam_stays_locked a ((k, pressed) ∷ ks) text c n h =
    let (t, e) = respond_without_pam a (k, pressed) text n in
    no_pam_stays_locked a ks t _ n
      (rw e at (handle_key-Implements a k pressed (shut_screen text) c h))
