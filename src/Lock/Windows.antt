-- ===== src/Lock/Windows.antt =====
-- src/compositor/src/lock.c: the lock screen and the state of the windows.
use zen_os.Base.{
  ℕ, Bool, true, false, not, ◌&&◌, ◌||◌, ltb, leb, ◌==◌, if◌then◌else◌, ◌⊎◌, ◌≡◌, refl, arith, inl,
  inr, Bool-cases,
}
use zen_os.Compositor.{Compositor, LockState, pass_max}
use zen_os.Compositor.World.{World}
use zen_os.Lock.{
  Auth, c_string, authenticate_password, render_lock_ui, deactivate, submit, edit_key, handle_key,
  activate, with_lock, show_error, clear_password, erase_last, type_char, return_key, kp_enter,
  backspace, escape,
}
use zen_os.Windows.Untouched.{Untouched, Untouched-refl, Untouched-trans}

render_lock_ui-Untouched : (c : Compositor) → Untouched c (render_lock_ui c)
unfolding render_lock_ui
render_lock_ui-Untouched c = record {
  toplevels = ground arith;
  focused_toplevel = ground arith;
  listening = ground arith;
  grab = ground arith;
  activation = λ u. ground arith;
}

deactivate-Untouched : (c : Compositor) → Untouched c (deactivate c)
unfolding deactivate
deactivate-Untouched c = record {
  toplevels = ground arith;
  focused_toplevel = ground arith;
  listening = ground arith;
  grab = ground arith;
  activation = λ u. ground arith;
}

-- A change of the lock's state, and the screen drawn again.
redrawn : (l : LockState) (c : Compositor) → Untouched c (render_lock_ui (with_lock l c))
redrawn l c =
    Untouched-trans c (with_lock l c) _
      record {
        toplevels = refl;
        focused_toplevel = refl;
        listening = refl;
        grab = refl;
        activation = λ u. refl;
      }
      (render_lock_ui-Untouched (with_lock l c))

submit-Untouched : (a : Auth) (c : Compositor) → Untouched c (submit a c)
unfolding submit
submit-Untouched a c = elim (Bool-cases (authenticate_password a (c_string c.lock.password))) [
  | inl e ↦ rw (e, submit) (deactivate-Untouched c)
  | inr e ↦ rw (e, submit) (redrawn _ c)
]

-- One of two ways.
either :
    (b : Bool) (c d e : Compositor)
    → Untouched c d
    → Untouched c e
    → Untouched c (if b then d else e)
either true c d e h k = h
either false c d e h k = k

edit_key-Untouched : (k : ℕ) (c : Compositor) → Untouched c (edit_key k c)
unfolding edit_key
edit_key-Untouched k c =
    either (k == backspace) c _ _
      (either (ltb 0 c.lock.password_len) c _ _ (redrawn (show_error false (erase_last c.lock)) c)
        (Untouched-refl c))
      (either (k == escape) c _ _ (redrawn (show_error false (clear_password c.lock)) c) (
        either (leb 0x20 k && leb k 0x7e && ltb c.lock.password_len pass_max) c _ _
          (redrawn (show_error false (type_char k c.lock)) c) (Untouched-refl c)))

handle_key-cases :
    (a : Auth) (k : ℕ) (pressed : Bool) (c : Compositor)
    → ((handle_key a k pressed c).0 ≡ c)
      ⊎ (((handle_key a k pressed c).0 ≡ submit a c)
          ⊎ ((handle_key a k pressed c).0 ≡ edit_key k c))
unfolding handle_key
handle_key-cases a k pressed c = elim (Bool-cases (not c.locked || not pressed)) [
  | inl e ↦ inl (rw (e, handle_key))
  | inr e ↦ elim (Bool-cases (k == return_key || k == kp_enter)) [
    | inl f ↦ inr (inl (rw (e, f, handle_key)))
    | inr f ↦ inr (inr (rw (e, f, handle_key)))
  ]
]

pub handle_key-Untouched :
    (a : Auth) (k : ℕ) (pressed : Bool) (c : Compositor) → Untouched c (handle_key a k pressed c).0
handle_key-Untouched a k pressed c = elim (handle_key-cases a k pressed c) [
  | inl e ↦ rw e (Untouched-refl c)
  | inr (inl e) ↦ rw e (submit-Untouched a c)
  | inr (inr e) ↦ rw e (edit_key-Untouched k c)
]

pub activate-Untouched :
    (w : World) (created : Bool) (c : Compositor) → Untouched c (activate w created c)
unfolding activate render_lock_ui
activate-Untouched w created c = record {
  toplevels = ground arith;
  focused_toplevel = ground arith;
  listening = ground arith;
  grab = ground arith;
  activation = λ u. ground arith;
}
