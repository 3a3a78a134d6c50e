-- ===== src/Tests/Input.antt =====
-- input.c: a key at the lock screen, a key with a binding, and a drag.
use zen_os.Base.{
  ℕ, Option, suc, true, false, none, some, [], ◌∷◌, ◌≡◌, refl, if◌then◌else◌, is_some,
}
use zen_os.Base.Int.{ℤ, pos}
use zen_os.Compositor.{Compositor, close_window, no_grab, no_password}
use zen_os.Compositor.Calls.{keys_sent, pointer_button}
use zen_os.Lock
use zen_os.Lock.{return_key, handle_key}
use zen_os.Lock.Session.{shut_screen, Implements, handle_key-Implements}
use zen_os.Windows.{handle_request_move}
use zen_os.Input.{handle_keyboard_key, handle_cursor_button, route_locked}
use zen_os.Input.Keys.{
  first_bound, deliver, handle_keyboard_key_unlocked, handle_keyboard_key_sends,
  handle_keyboard_key-Implements,
}
use zen_os.Input.Pointer.{
  Motion, move_all, drag_calls, Follows, drag_lem, IsUnder, or_focus, handle_cursor_button_focus,
}
use zen_os.Input.History.{key}
use zen_os.Input.Locked.{Opens, only_keys_unlock}
use zen_os.Tests.Fixtures.{desktop, booted, letter_a, around, pressing, hit_on}
use zen_os.Tests.Lock.{shut, shut-Implements}

-- The screen is shut, and `a` was typed.
abbrev typed : Compositor
typed = (handle_key letter_a b'a' true shut).0

typed-Implements : Implements (shut_screen (b'a' ∷ [])) typed
typed-Implements = handle_key-Implements letter_a b'a' true (shut_screen []) shut shut-Implements

only_keys_unlock_example :
    Opens (b'a' ∷ []) typed (handle_keyboard_key around (pressing (return_key ∷ []) 0) typed)
unfolding handle_keyboard_key route_locked Lock.handle_key Lock.edit_key Lock.render_lock_ui
    Lock.activate Lock.submit Lock.deactivate Lock.c_string Lock.authenticate_password Lock.pam_conv
    Lock.username Lock.reply_to no_password
only_keys_unlock_example =
    only_keys_unlock (b'a' ∷ []) typed
      (handle_keyboard_key around (pressing (return_key ∷ []) 0) typed) typed-Implements
      (key around (pressing (return_key ∷ []) 0)) refl

handle_keyboard_key-Implements_example :
    Implements
      (shut_screen (b'a' ∷ b'b' ∷ []))
      (handle_keyboard_key around (pressing (b'b' ∷ []) 0) typed)
handle_keyboard_key-Implements_example =
    handle_keyboard_key-Implements around (pressing (b'b' ∷ []) 0) (b'a' ∷ []) typed
      typed-Implements

-- Super and q close the window.
abbrev bound : Compositor
bound = record booted {
  keybindings =
      record { modifiers = 64; keysym = b'q'; action = close_window; custom_cmd = none } ∷ [];
}

handle_keyboard_key_unlocked_example :
    handle_keyboard_key around (pressing (b'q' ∷ []) 64) bound
    ≡ deliver around (pressing (b'q' ∷ []) 64) (first_bound 64 (b'q' ∷ []) bound.keybindings) bound
handle_keyboard_key_unlocked_example =
    handle_keyboard_key_unlocked around (pressing (b'q' ∷ []) 64) bound refl

handle_keyboard_key_sends_example :
    keys_sent (handle_keyboard_key around (pressing (b'q' ∷ []) 64) bound).calls ≡ (
      if is_some (first_bound 64 (b'q' ∷ []) bound.keybindings)
      then keys_sent bound.calls
      else suc (keys_sent bound.calls))
handle_keyboard_key_sends_example = handle_keyboard_key_sends around (pressing (b'q' ∷ []) 64) bound

-- Three pixels to the right.
abbrev moved : Motion
moved = record {
  world = record desktop { cursor_x = pos 2048 };
  time = 2;
  dx = pos 768;
  dy = pos 0;
  hit = none;
}

drag_lem_example :
    (place : ℤ → ℤ → ℤ → ℤ) × Follows place
    × (handle_cursor_button desktop 3 272 false none
          (move_all (moved ∷ []) (handle_request_move desktop 1 booted))
        ≡ record booted {
          grab = no_grab;
          calls = pointer_button 3 272 false ∷ drag_calls place desktop 1 (moved ∷ []) booted.calls;
        })
drag_lem_example = drag_lem desktop desktop 1 3 272 (moved ∷ []) none booted refl refl

handle_cursor_button_focus_example :
    (o : Option ℕ) × IsUnder (some (hit_on 2)) o
    × ((handle_cursor_button desktop 5 272 true (some (hit_on 2)) booted).focused_toplevel
        ≡ or_focus o booted.focused_toplevel)
handle_cursor_button_focus_example =
    handle_cursor_button_focus desktop 5 272 true (some (hit_on 2)) booted
