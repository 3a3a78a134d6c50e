-- ===== src/Keybinds/Configured.antt =====
-- src/compositor/src/keybinds.c: what the keys do after zen_keybinds_init with a configuration that is
-- written out.
use zen_os.Base.{
  ℕ, Bool, true, false, ◌&&◌, Option, none, some, List, [], ◌∷◌, Bytes, ◌==◌, if◌then◌else◌,
}
use zen_os.Compositor.{Compositor, Keybinding, Action}
use zen_os.Compositor.World.{World}
use zen_os.Keybinds.{execute_action, defaults}
use zen_os.Keybinds.Config.Printed.{Entry, mask_of}
use zen_os.Keybinds.Overrides.{default_action}

-- What a key combination is to do: an action, with a command.
abbrev pub Meaning : Type 0
Meaning = Option (Action × Option Bytes)

abbrev by_default : Option Action → Meaning
by_default none = none
by_default (some a) = some (a, none)

-- The first entry of the configuration for a combination.
unfoldable pub configured : (Bytes → ℕ) → ℕ → ℕ → List (Bytes × Entry) → Meaning
configured keysym_of modifiers keysym [] = none
configured keysym_of modifiers keysym ((seps, e) ∷ es) =
    if mask_of 0 e.modifiers == modifiers && keysym_of e.key == keysym
    then some (e.action, e.command)
    else configured keysym_of modifiers keysym es

abbrev or_meaning : Meaning → Meaning → Meaning
or_meaning none m = m
or_meaning (some a) m = some a

-- The default goes before the configuration.
abbrev pub meaning : (Bytes → ℕ) → ℕ → ℕ → List (Bytes × Entry) → Meaning
meaning keysym_of modifiers keysym es =
    or_meaning (by_default (default_action modifiers keysym defaults))
      (configured keysym_of modifiers keysym es)

-- The action is done and the key consumed, or nothing is done.
abbrev pub obeys : World → Bool → Meaning → Compositor → Compositor × Bool
obeys w created none c = (c, false)
obeys w created (some (a, cmd)) c = (execute_action w created a cmd c, true)

abbrev meaning_of : Option Keybinding → Meaning
meaning_of none = none
meaning_of (some b) = some (b.action, b.custom_cmd)

-- The bindings of a table of defaults.
unfoldable default_bindings : List (ℕ × ℕ × Action) → List Keybinding
default_bindings [] = []
default_bindings ((modifiers, keysym, a) ∷ ds) =
    record { modifiers = modifiers; keysym = keysym; action = a; custom_cmd = none }
    ∷ default_bindings ds
