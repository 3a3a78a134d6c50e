-- ===== src/Tests/Dbus.antt =====
-- dbus.c on a few messages.
use zen_os.Base.{
  true, false, not, none, some, ◌≡◌, refl, List, [], ◌∷◌, Bytes, arith, if◌then◌else◌,
}
use zen_os.Base.Int.{pos}
use zen_os.Dbus.{
  Connects, read, unreadable, dispatch, show_notification, toggle_dark_mode, dbus_init,
}
use zen_os.Dbus.Methods.{refuses, in_range, Aside, refuses-dispatch, dispatch-Aside, dbus_init_lem}
use zen_os.Dbus.Vtable.{
  shows_notification, sig_i, sig_ssssii, vtable, Value, str, int32, signature_of, Reader, handled,
}
use zen_os.Dbus.Vtable.Typed.{Typed, vtable-Typed}
use zen_os.Keybinds.Config.{equal}
use zen_os.Tests.Fixtures.{booted}

refuses-dispatch_example :
    refuses (dispatch (show_notification (read (pos 3))) booted).1
    ≡ not (in_range (show_notification (read (pos 3))))
refuses-dispatch_example = refuses-dispatch (show_notification (read (pos 3))) booted refl

dispatch-Aside_example : Aside booted (dispatch (toggle_dark_mode (read true)) booted).0
dispatch-Aside_example = dispatch-Aside (toggle_dark_mode (read true)) booted

-- The name is taken.
abbrev name_taken : Connects
name_taken = record {
  open_user = none;
  add_object_vtable = none;
  request_name = some 17;
  get_fd = none;
  add_fd = true;
}

dbus_init_lem_example :
    dbus_init name_taken booted
    ≡ (record booted { bus = false; dbus_slot = false; dbus_event_source = false }, some 17)
dbus_init_lem_example = dbus_init_lem name_taken booted

equal_self : (s : Bytes) → equal s s ≡ true
unfolding equal
equal_self [] = refl
equal_self (x ∷ s) = ground (arith, equal_self s)

-- A stand-in for sd_bus_message_read that refuses a message of other types with ENXIO.
strict : Reader
strict = record {
  message_read = λ f vs. if equal f (signature_of vs) then read vs else unreadable 6;
  reads_types = λ vs. rw (equal_self (signature_of vs)) refl;
}

abbrev notification : List Value
notification =
    str (b'm' ∷ []) ∷ str (b'n' ∷ []) ∷ str [] ∷ str [] ∷ int32 (pos 1) ∷ int32 (pos 5000) ∷ []

vtable-Typed_example :
    Typed sig_i none (dispatch (handled strict none shows_notification notification) booted).1
unfolding vtable
vtable-Typed_example =
    vtable-Typed 6
      (record {
        member =
            b'S' ∷ b'h' ∷ b'o' ∷ b'w' ∷ b'N' ∷ b'o' ∷ b't' ∷ b'i' ∷ b'f' ∷ b'i' ∷ b'c' ∷ b'a' ∷ b't'
            ∷ b'i' ∷ b'o' ∷ b'n' ∷ [];
        signature = sig_ssssii;
        reply_signature = sig_i;
        handler = shows_notification;
      })
      strict none notification booted refl refl
