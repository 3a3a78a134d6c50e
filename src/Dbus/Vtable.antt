-- ===== src/Dbus/Vtable.antt =====
-- src/compositor/src/dbus.c: compositor_vtable, and the types of the arguments and replies of its
-- methods. sd_bus_message_read is a parameter.
pub mod Typed
use zen_os.Base.{
  ℕ, Bool, true, false, Option, none, some, List, [], ◌∷◌, Bytes, ◌≡◌, refl, ap, ◌∙◌, arith, map,
}
use zen_os.Base.Int.{ℤ}
use zen_os.Compositor.{Compositor}
use zen_os.Dbus.{
  Read, read, unreadable, Reply, yes_or_no, number, names, error, invalid_argument, fork_failed,
  is_empty, handle_launch_app, handle_get_running_apps, handle_pin_to_shelf,
  handle_unpin_from_shelf, handle_set_shelf_config, handle_toggle_dark_mode,
  handle_show_notification, Method, launch_app, get_running_apps, pin_to_shelf, unpin_from_shelf,
  set_shelf_config, toggle_dark_mode, show_notification, dispatch,
}

-- The handlers of the table.
pub data Handler : Type 0 where
  launches lists_running pins unpins configures_shelf toggles_dark_mode shows_notification : Handler

-- SD_BUS_METHOD
pub record VtableEntry : Type 0 where
  pub member : Bytes
  pub signature : Bytes
  pub reply_signature : Bytes
  pub handler : Handler

abbrev pub sig_s : Bytes
sig_s = b's' ∷ []

abbrev pub sig_b : Bytes
sig_b = b'b' ∷ []

abbrev pub sig_i : Bytes
sig_i = b'i' ∷ []

abbrev pub sig_as : Bytes
sig_as = b'a' ∷ b's' ∷ []

abbrev pub sig_sbi : Bytes
sig_sbi = b's' ∷ b'b' ∷ b'i' ∷ []

abbrev pub sig_ssssii : Bytes
sig_ssssii = b's' ∷ b's' ∷ b's' ∷ b's' ∷ b'i' ∷ b'i' ∷ []

-- compositor_vtable
unfoldable pub vtable : List VtableEntry
vtable =
    record {
      member = b'L' ∷ b'a' ∷ b'u' ∷ b'n' ∷ b'c' ∷ b'h' ∷ b'A' ∷ b'p' ∷ b'p' ∷ [];
      signature = sig_s;
      reply_signature = sig_b;
      handler = launches;
    }
    ∷ record {
      member =
          b'G' ∷ b'e' ∷ b't' ∷ b'R' ∷ b'u' ∷ b'n' ∷ b'n' ∷ b'i' ∷ b'n' ∷ b'g' ∷ b'A' ∷ b'p' ∷ b'p'
          ∷ b's' ∷ [];
      signature = [];
      reply_signature = sig_as;
      handler = lists_running;
    }
    ∷ record {
      member = b'P' ∷ b'i' ∷ b'n' ∷ b'T' ∷ b'o' ∷ b'S' ∷ b'h' ∷ b'e' ∷ b'l' ∷ b'f' ∷ [];
      signature = sig_s;
      reply_signature = sig_b;
      handler = pins;
    }
    ∷ record {
      member =
          b'U' ∷ b'n' ∷ b'p' ∷ b'i' ∷ b'n' ∷ b'F' ∷ b'r' ∷ b'o' ∷ b'm' ∷ b'S' ∷ b'h' ∷ b'e' ∷ b'l'
          ∷ b'f' ∷ [];
      signature = sig_s;
      reply_signature = sig_b;
      handler = unpins;
    }
    ∷ record {
      member =
          b'S' ∷ b'e' ∷ b't' ∷ b'S' ∷ b'h' ∷ b'e' ∷ b'l' ∷ b'f' ∷ b'C' ∷ b'o' ∷ b'n' ∷ b'f' ∷ b'i'
          ∷ b'g' ∷ [];
      signature = sig_sbi;
      reply_signature = sig_b;
      handler = configures_shelf;
    }
    ∷ record {
      member =
          b'T' ∷ b'o' ∷ b'g' ∷ b'g' ∷ b'l' ∷ b'e' ∷ b'D' ∷ b'a' ∷ b'r' ∷ b'k' ∷ b'M' ∷ b'o' ∷ b'd'
          ∷ b'e' ∷ [];
      signature = sig_b;
      reply_signature = sig_b;
      handler = toggles_dark_mode;
    }
    ∷ record {
      member =
          b'S' ∷ b'h' ∷ b'o' ∷ b'w' ∷ b'N' ∷ b'o' ∷ b't' ∷ b'i' ∷ b'f' ∷ b'i' ∷ b'c' ∷ b'a' ∷ b't'
          ∷ b'i' ∷ b'o' ∷ b'n' ∷ [];
      signature = sig_ssssii;
      reply_signature = sig_i;
      handler = shows_notification;
    }
    ∷ []

-- An argument of a message.
pub data Value : Type 0 where
  str : Bytes → Value
  boolean : Bool → Value
  int32 : ℤ → Value

abbrev type_of : Value → ℕ
type_of (str s) = b's'
type_of (boolean b) = b'b'
type_of (int32 n) = b'i'

-- The signature of a message with these arguments.
abbrev pub signature_of : List Value → Bytes
signature_of vs = map type_of vs

-- The types that a handler hands to sd_bus_message_read; handle_get_running_apps reads nothing.
unfoldable pub format_of : Handler → Bytes
format_of launches = sig_s
format_of lists_running = []
format_of pins = sig_s
format_of unpins = sig_s
format_of configures_shelf = sig_sbi
format_of toggles_dark_mode = sig_b
format_of shows_notification = sig_ssssii

-- sd_bus_message_read: it reads a message of the types that it is given.
pub record Reader : Type 0 where
  pub message_read : Bytes → List Value → Read (List Value)
  pub reads_types : (vs : List Value) → message_read (signature_of vs) vs ≡ read vs

-- What was read for other types is nothing that the handler could use.
abbrev no_value : ℕ
no_value = 0

abbrev one_string : Read (List Value) → Read (Option Bytes)
one_string (unreadable e) = unreadable e
one_string (read (str s ∷ [])) = read (some s)
one_string (read _) = unreadable no_value

abbrev one_boolean : Read (List Value) → Read Bool
one_boolean (unreadable e) = unreadable e
one_boolean (read (boolean b ∷ [])) = read b
one_boolean (read _) = unreadable no_value

-- Of a shelf's configuration, the icon size.
abbrev icon_size : Read (List Value) → Read ℤ
icon_size (unreadable e) = unreadable e
icon_size (read (str position ∷ boolean auto_hide ∷ int32 size ∷ [])) = read size
icon_size (read _) = unreadable no_value

-- Of a notification, the urgency.
abbrev urgency : Read (List Value) → Read ℤ
urgency (unreadable e) = unreadable e
urgency (read (str app ∷ str summary ∷ str body ∷ str icon ∷ int32 u ∷ int32 timeout ∷ [])) = read u
urgency (read _) = unreadable no_value

-- What a handler makes of a message. The second argument is the error of fork, or of the first call
-- that fails to build a reply.
unfoldable pub handled : Reader → Option ℕ → Handler → List Value → Method
unfolding format_of
handled r fails launches vs = launch_app fails (one_string (r.message_read (format_of launches) vs))
handled r fails lists_running vs = get_running_apps fails
handled r fails pins vs = pin_to_shelf (one_string (r.message_read (format_of pins) vs))
handled r fails unpins vs = unpin_from_shelf (one_string (r.message_read (format_of unpins) vs))
handled r fails configures_shelf vs =
    set_shelf_config (icon_size (r.message_read (format_of configures_shelf) vs))
handled r fails toggles_dark_mode vs =
    toggle_dark_mode (one_boolean (r.message_read (format_of toggles_dark_mode) vs))
handled r fails shows_notification vs =
    show_notification (urgency (r.message_read (format_of shows_notification) vs))
