-- ===== src/Tests/Lock.antt =====
-- lock.c on a screen that is shut, and a letter typed.
use zen_os.Base.{true, false, [], ◌∷◌, ◌≡◌, refl}
use zen_os.Compositor.{Compositor}
use zen_os.Lock
use zen_os.Lock.{escape, Auth, return_key, handle_key, edit_key, activate}
use zen_os.Lock.Password.{Holds, empty-Holds, edit_key-Holds}
use zen_os.Lock.Session.{
  open_screen, shut_screen, handle_keys, Implements, handle_keys-Implements, activate-Implements,
}
use zen_os.Tests.Fixtures.{desktop, booted, letter_a}

pub booted-open : Implements open_screen booted
booted-open = (refl, empty-Holds refl refl)

abbrev pub shut : Compositor
shut = activate desktop true booted

pub shut-Implements : Implements (shut_screen []) shut
shut-Implements = activate-Implements desktop booted booted-open

-- Typing `a` and Return opens the screen.
handle_keys-Implements_example : Implements open_screen (
    handle_keys letter_a
      ((b'b', true) ∷ (0xff08, true) ∷ (b'a', true) ∷ (b'a', false) ∷ (return_key, true) ∷ [])
      shut)
unfolding Lock.authenticate_password Lock.pam_conv Lock.username Lock.reply_to
handle_keys-Implements_example =
    handle_keys-Implements letter_a
      ((b'b', true) ∷ (0xff08, true) ∷ (b'a', true) ∷ (b'a', false) ∷ (return_key, true) ∷ [])
      (shut_screen []) shut shut-Implements

edit_key-Holds_example : Holds (b'a' ∷ []) (edit_key b'a' shut).lock
edit_key-Holds_example = edit_key-Holds b'a' [] shut shut-Implements.1

pub a_opens : Lock.authenticate_password letter_a (b'a' ∷ []) ≡ true
unfolding Lock.authenticate_password Lock.pam_conv Lock.username Lock.reply_to
a_opens = refl
