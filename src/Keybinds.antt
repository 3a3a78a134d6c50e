-- ===== src/Keybinds.antt =====
-- src/compositor/src/keybinds.c: the registry of key bindings and what a binding does. The parser
-- of the configuration file is in Config.
pub mod Config
pub mod Fields
pub mod Overrides
pub mod Configured
use zen_os.Base.{
  ℕ, Bool, true, false, not, ◌&&◌, Option, none, some, List, [], ◌∷◌, ◌++◌, Bytes, ◌==◌,
  if◌then◌else◌, length, bit_or,
}
use zen_os.Base.Scan.{Scan, done, fault, no_fuel, ◌>>=◌}
use zen_os.Compositor.{
  Compositor, Keybinding, Action, launch_terminal, toggle_launcher, lock_screen, switch_window,
  close_window, custom, call,
}
use zen_os.Compositor.Calls.{send_close, spawn, terminal, shell_command}
use zen_os.Compositor.World.{World}
use zen_os.Lock.{activate}
use Config.{ConfigFile, register_binding, load_config}
use Fields.{Memory, modifier_alt, modifier_ctrl, modifier_logo}

unfoldable pub close_focused : Option ℕ → Compositor → Compositor
close_focused none c = c
close_focused (some t) c = call (send_close t) c

-- `if (custom_cmd && *custom_cmd)`
unfoldable pub run_custom : Option Bytes → Compositor → Compositor
run_custom none c = c
run_custom (some []) c = c
run_custom (some (x ∷ cmd)) c = call (spawn (shell_command (x ∷ cmd))) c

-- execute_action. `created` is what zen_lock_activate is given.
unfoldable pub execute_action : World → Bool → Action → Option Bytes → Compositor → Compositor
unfolding close_focused run_custom
execute_action w created launch_terminal cmd c = call (spawn terminal) c
execute_action w created lock_screen cmd c = activate w created c
execute_action w created close_window cmd c = close_focused c.focused_toplevel c
execute_action w created custom cmd c = run_custom cmd c
execute_action w created toggle_launcher cmd c = c
execute_action w created switch_window cmd c = c

-- The loop of zen_keybinds_handle_key: the first binding of that combination.
unfoldable pub find_binding : ℕ → ℕ → List Keybinding → Option Keybinding
find_binding modifiers keysym [] = none
find_binding modifiers keysym (b ∷ bs) =
    if b.modifiers == modifiers && b.keysym == keysym
    then some b
    else find_binding modifiers keysym bs

perform : World → Bool → Option Keybinding → Compositor → Compositor × Bool
perform w created none c = (c, false)
perform w created (some b) c = (execute_action w created b.action b.custom_cmd c, true)

-- zen_keybinds_handle_key: the new state, and whether the key is consumed.
unfoldable pub handle_key : World → Bool → ℕ → ℕ → Compositor → Compositor × Bool
unfolding perform
handle_key w created modifiers keysym c =
    perform w created (find_binding modifiers keysym c.keybindings) c

-- zen_keybinds_destroy
unfoldable pub keybinds_destroy : Compositor → Compositor
keybinds_destroy c = record c { keybindings = [] }

-- XKB_KEY_*
abbrev pub key_t : ℕ
key_t = 0x74

abbrev pub key_super_l : ℕ
key_super_l = 0xffeb

abbrev pub key_l : ℕ
key_l = 0x6c

abbrev pub key_tab : ℕ
key_tab = 0xff09

abbrev pub key_q : ℕ
key_q = 0x71

-- The table of zen_keybinds_init.
abbrev pub defaults : List (ℕ × ℕ × Action)
defaults =
    (bit_or modifier_ctrl modifier_alt, key_t, launch_terminal)
    ∷ (0, key_super_l, toggle_launcher)
    ∷ (modifier_logo, key_l, lock_screen)
    ∷ (modifier_alt, key_tab, switch_window)
    ∷ (modifier_logo, key_q, close_window)
    ∷ []

-- The loop over the table; `none` if the memory runs out.
pub register_all : Memory → List (ℕ × ℕ × Action) → List Keybinding → Option (List Keybinding)
register_all m [] bs = some bs
register_all m ((modifiers, keysym, action) ∷ ds) bs =
    elim (register_binding m modifiers keysym action none bs) [
      | none ↦ none
      | some bs' ↦ register_all m ds bs'
    ]

-- The result of zen_keybinds_load_config is dropped.
abbrev load_overrides :
    Memory → (Bytes → ℕ) → Option (Option ConfigFile) → List Keybinding → Scan (List Keybinding)
load_overrides m keysym_of none bs = done bs
load_overrides m keysym_of (some file) bs = do
  (loaded, bs') ← load_config m keysym_of file bs
  done bs'

-- zen_keybinds_init: the new state, and whether it returns 0. The configuration is `none` if HOME is
-- not set, and `some none` if the file cannot be opened.
unfoldable pub keybinds_init :
    Memory → (Bytes → ℕ) → Option (Option ConfigFile) → Compositor → Scan (Compositor × Bool)
unfolding register_all
keybinds_init m keysym_of file c = elim (register_all m defaults []) [
  | none ↦ done (record c { keybindings = [] }, false)
  | some bs ↦ do
    bs' ← load_overrides m keysym_of file bs
    done (record c { keybindings = bs' }, true)
]
