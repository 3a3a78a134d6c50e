-- ===== src/Tests/Keys.antt =====
-- keybinds.c on concrete configuration files.
use Prim.Native.Char.{code}
use Prim.Native.String.{String}
use zen_os.Base.{true, false, Option, none, some, [], ◌∷◌, Bytes, ◌≡◌, refl, length}
use zen_os.Base.Int.{pos}
use zen_os.Base.Scan.{done}
use zen_os.Compositor.{Compositor, custom, close_window}
use zen_os.Base.{List}
use zen_os.Base.Scan.{Ensures}
use zen_os.Compositor.World.{World}
use zen_os.Keybinds.{keybinds_init, key_q}
use zen_os.Keybinds.Overrides.{Defaulted, default_action, keybinds_init-Ensures}
use zen_os.Keybinds.Config.Ends.{Extends, load_config-Ensures}
use zen_os.Keybinds.Config.Printed
use zen_os.Keybinds.Config.Printed.{Entry, Around, ctrl, shift}
use zen_os.Keybinds.Config.RoundTrip as Written
use zen_os.Tests.Fixtures.{desktop, booted, plenty, first_letter}
use zen_os.Keybinds.Fields.{modifier_logo, parse_modifier_token}
use zen_os.Keybinds.Config.{
  ConfigFile, load_config, read_buffer, read_bindings, parse_action_string, register_binding,
  split_object,
}

abbrev codes : String → Bytes
codes String.[] = []
codes (String.◌∷◌ c s) = code c ∷ codes s

abbrev file_of : Bytes → Option ConfigFile
file_of s = some (record { seeks = true; size = pos (length s); contents = s })

config_text : Bytes
config_text =
    codes
      "{\"bindings\": [{\"modifiers\": [\"Ctrl\", \"shift\"], \"key\": \"k\", \"action\": \"custom\", \"command\": \"ls\"},\n {\"key\": \"q\", \"action\": \"close_window\"}]}"

config_runs :
    load_config plenty first_letter (file_of config_text) []
    ≡ done (
      true,
      record { modifiers = 5; keysym = b'k'; action = custom; custom_cmd = some (codes "ls") }
          ∷ record { modifiers = 0; keysym = b'q'; action = close_window; custom_cmd = none }
          ∷ [],
    )
unfolding config_text load_config read_buffer read_bindings parse_action_string register_binding
    split_object parse_modifier_token
config_runs = refl

-- Super and q are bound to the launcher in the configuration, and close the window.
override_text : Bytes
override_text =
    codes
      "{\"bindings\": [{\"modifiers\": [\"super\"], \"key\": \"q\", \"action\": \"toggle_launcher\"}]}"

keybinds_init-Ensures_example :
    Ensures
      (Defaulted desktop true modifier_logo key_q close_window)
      (keybinds_init plenty first_letter (some (file_of override_text)) booted)
unfolding default_action
keybinds_init-Ensures_example =
    keybinds_init-Ensures desktop true plenty first_letter (some (file_of override_text)) booted
      modifier_logo key_q close_window refl

load_config-Ensures_example :
    Ensures (λ r. Extends [] r.1) (load_config plenty first_letter (file_of config_text) [])
load_config-Ensures_example = load_config-Ensures plenty first_letter (file_of config_text) []

-- A blank behind each colon and between the fields.
abbrev first_field : Around
first_field = record { before = []; behind = codes " " }

abbrev later_field : Around
later_field = record { before = codes ", "; behind = codes " " }

-- Two entries, one with a field's name as its key.
abbrev two_entries : List (Bytes × Entry)
two_entries =
    (
      codes "\n  ",
      record {
        at_modifiers = first_field;
        modifiers =
            record { before = []; capital = true; modifier = ctrl }
            ∷ record { before = codes ", "; capital = false; modifier = shift }
            ∷ [];
        at_key = later_field;
        key = codes "action";
        at_action = later_field;
        action = custom;
        at_command = later_field;
        command = some (codes "ls [a-z]");
        at_end = codes "\n";
      },
    )
    ∷ (
      codes ",\n",
      record {
        at_modifiers = first_field;
        modifiers = [];
        at_key = later_field;
        key = codes "q";
        at_action = later_field;
        action = close_window;
        at_command = later_field;
        command = none;
        at_end = [];
      },
    )
    ∷ []
