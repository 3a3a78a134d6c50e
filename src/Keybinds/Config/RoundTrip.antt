-- ===== src/Keybinds/Config/RoundTrip.antt =====
-- src/compositor/src/keybinds.c: what zen_keybinds_load_config makes of a configuration that is
-- written out.
use zen_os.Base.{ℕ, Bool, true, not, ◌&&◌, List, [], ◌∷◌, Bytes, ◌==◌, length}
use zen_os.Base.Int.{pos}
use zen_os.Compositor.{Keybinding}
use zen_os.Keybinds.Config.{ConfigFile}
use zen_os.Keybinds.Config.Printed.{Entry, binding_of}

-- What the entries bind, in their order.
unfoldable pub bindings_of : (Bytes → ℕ) → List (Bytes × Entry) → List Keybinding
bindings_of keysym_of [] = []
bindings_of keysym_of ((seps, e) ∷ es) = binding_of keysym_of e ∷ bindings_of keysym_of es

-- Each key has a keysym.
unfoldable pub all_known : (Bytes → ℕ) → List (Bytes × Entry) → Bool
all_known keysym_of [] = true
all_known keysym_of ((seps, e) ∷ es) = not (keysym_of e.key == 0) && all_known keysym_of es

-- A file that can be read, with a text.
abbrev pub file_of : Bytes → ConfigFile
file_of text = record { seeks = true; size = pos (length text); contents = text }
