-- ===== src/Lock/Silence.antt =====
-- src/compositor/src/lock.c: the lock screen and the key events that clients are sent.
use zen_os.Base.{ℕ, Bool, false, true, ◌≡◌, arith, inl, inr, Bool-cases}
use zen_os.Compositor.{Compositor}
use zen_os.Compositor.Calls.{keys_sent}
use zen_os.Compositor.World.{World}
use zen_os.Lock.{
  Auth, render_lock_ui, deactivate, submit, edit_key, handle_key, activate, with_lock, show_error,
  clear_password, erase_last, type_char,
}

keys_sent-render_lock_ui : (c : Compositor) → keys_sent (render_lock_ui c).calls ≡ keys_sent c.calls
unfolding render_lock_ui keys_sent
keys_sent-render_lock_ui c = ground arith

keys_sent-deactivate : (c : Compositor) → keys_sent (deactivate c).calls ≡ keys_sent c.calls
unfolding deactivate keys_sent
keys_sent-deactivate c = ground arith

keys_sent-submit : (a : Auth) (c : Compositor) → keys_sent (submit a c).calls ≡ keys_sent c.calls
unfolding submit
keys_sent-submit a c = ground (
  arith,
  keys_sent-deactivate c,
  keys_sent-render_lock_ui (with_lock (clear_password (show_error true c.lock)) c),
)

keys_sent-edit_key : (k : ℕ) (c : Compositor) → keys_sent (edit_key k c).calls ≡ keys_sent c.calls
unfolding edit_key
keys_sent-edit_key k c = ground (
  arith,
  keys_sent-render_lock_ui (with_lock (show_error false (erase_last c.lock)) c),
  keys_sent-render_lock_ui (with_lock (show_error false (clear_password c.lock)) c),
  keys_sent-render_lock_ui (with_lock (show_error false (type_char k c.lock)) c),
)

pub keys_sent-handle_key :
    (a : Auth) (k : ℕ) (pressed : Bool) (c : Compositor)
    → keys_sent (handle_key a k pressed c).0.calls ≡ keys_sent c.calls
unfolding handle_key
keys_sent-handle_key a k pressed c = ground (arith, keys_sent-submit a c, keys_sent-edit_key k c)

pub keys_sent-activate :
    (w : World) (created : Bool) (c : Compositor)
    → keys_sent (activate w created c).calls ≡ keys_sent c.calls
unfolding activate keys_sent
keys_sent-activate w created c = elim (Bool-cases c.locked) [
  | inl e ↦ ground arith
  | inr e ↦ elim (Bool-cases created) [
    | inl f ↦ rw (e, f, activate, keys_sent-render_lock_ui)
    | inr f ↦ ground arith
  ]
]
