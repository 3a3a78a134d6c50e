-- ===== src/Keybinds/Config.antt =====
-- The part of src/compositor/src/keybinds.c that reads ~/.config/zenos/keybinds.json.
-- xkb_keysym_from_name is a parameter.
pub mod Ends
pub mod Printed
pub mod Followed
pub mod Objects
pub mod RoundTrip
pub mod Split
use zen_os.Base.{
  ℕ, suc, ◌+◌, ◌-◌, Bool, true, false, not, ◌&&◌, ◌||◌, Option, none, some, List, [], ◌∷◌, ◌++◌,
  Bytes, ltb, ◌==◌, if◌then◌else◌, length,
}
use zen_os.Base.Int.{ℤ, pos_part, is_pos}
use zen_os.Base.Scan.{
  Scan, done, fault, ◌>>=◌, Next, again, stop, loop, peek, advance, skip_to, skip_separators,
  string_after_match,
}
use zen_os.Compositor.{
  Keybinding, Action, launch_terminal, toggle_launcher, lock_screen, switch_window, close_window,
  custom,
}
use zen_os.Keybinds.Fields.{Memory, quoted, extract_string_field, extract_modifiers_field}

abbrev copy_command : Memory → Option Bytes → Option (Option Bytes)
copy_command m none = some none
copy_command m (some s) = elim (m.copy s) [ none ↦ none | some s' ↦ some (some s') ]

-- register_binding: at the end of the list, or `none` if the memory runs out.
unfoldable pub register_binding :
    Memory → ℕ → ℕ → Action → Option Bytes → List Keybinding → Option (List Keybinding)
register_binding m modifiers keysym action cmd bs =
    if m.binding (length bs)
    then elim (copy_command m cmd) [
      | none ↦ none
      | some cmd' ↦ some (
          bs
          ++ record { modifiers = modifiers; keysym = keysym; action = action; custom_cmd = cmd' }
            ∷ [])
    ]
    else none

-- `len == n && strncmp(s, name, n) == 0`
unfoldable pub equal : Bytes → Bytes → Bool
equal [] [] = true
equal (x ∷ xs) (y ∷ ys) = x == y && equal xs ys
equal _ _ = false

abbrev action_names : List (Bytes × Action)
action_names =
    (
      b'l' ∷ b'a' ∷ b'u' ∷ b'n' ∷ b'c' ∷ b'h' ∷ b'_' ∷ b't' ∷ b'e' ∷ b'r' ∷ b'm' ∷ b'i' ∷ b'n'
          ∷ b'a' ∷ b'l' ∷ [],
      launch_terminal,
    )
    ∷ (
      b't' ∷ b'o' ∷ b'g' ∷ b'g' ∷ b'l' ∷ b'e' ∷ b'_' ∷ b'l' ∷ b'a' ∷ b'u' ∷ b'n' ∷ b'c' ∷ b'h'
          ∷ b'e' ∷ b'r' ∷ [],
      toggle_launcher,
    )
    ∷ (b'l' ∷ b'o' ∷ b'c' ∷ b'k' ∷ b'_' ∷ b's' ∷ b'c' ∷ b'r' ∷ b'e' ∷ b'e' ∷ b'n' ∷ [], lock_screen)
    ∷ (
      b's' ∷ b'w' ∷ b'i' ∷ b't' ∷ b'c' ∷ b'h' ∷ b'_' ∷ b'w' ∷ b'i' ∷ b'n' ∷ b'd' ∷ b'o' ∷ b'w' ∷ [],
      switch_window,
    )
    ∷ (
      b'c' ∷ b'l' ∷ b'o' ∷ b's' ∷ b'e' ∷ b'_' ∷ b'w' ∷ b'i' ∷ b'n' ∷ b'd' ∷ b'o' ∷ b'w' ∷ [],
      close_window,
    )
    ∷ (b'c' ∷ b'u' ∷ b's' ∷ b't' ∷ b'o' ∷ b'm' ∷ [], custom)
    ∷ []

action_of : Bytes → List (Bytes × Action) → Option Action
action_of s [] = none
action_of s ((name, a) ∷ table) = if equal s name then some a else action_of s table

-- parse_action_string; `none` is ZEN_ACTION_COUNT.
unfoldable pub parse_action_string : Bytes → Option Action
unfolding action_of equal
parse_action_string s = action_of s action_names

abbrev cons_left : ℕ → Scan (Bytes × Bytes) → Scan (Bytes × Bytes)
cons_left x s = s >>= λ (object, beyond). done (x ∷ object, beyond)

-- The search for the matching brace: the object, and what follows it. Nothing looks at quotes.
unfoldable pub split_object : ℕ → Bytes → Scan (Bytes × Bytes)
split_object depth [] = fault
split_object depth (x ∷ xs) =
    let deeper = split_object (depth + 1) xs in
    let shallower = split_object (depth - 1) xs in
    let same_depth = split_object depth xs in
    if x == 0
    then done ([], x ∷ xs)
    else if x == b'{'
    then cons_left x deeper
    else if x == b'}'
    then if depth - 1 == 0 then done (x ∷ [], xs) else cons_left x shallower
    else cons_left x same_depth

abbrev key_key : Bytes
key_key = b'k' ∷ b'e' ∷ b'y' ∷ []

abbrev key_action : Bytes
key_action = b'a' ∷ b'c' ∷ b't' ∷ b'i' ∷ b'o' ∷ b'n' ∷ []

abbrev key_command : Bytes
key_command = b'c' ∷ b'o' ∷ b'm' ∷ b'm' ∷ b'a' ∷ b'n' ∷ b'd' ∷ []

abbrev pub Round : Type 0
Round = Next (Bytes × List Keybinding) (Bool × List Keybinding)

abbrev registered : Bytes → List Keybinding → Option (List Keybinding) → Round
registered beyond bs none = stop (false, bs)
registered beyond bs (some bs') = again (beyond, bs')

-- What is done with the fields of a binding object.
add_binding :
    Memory
    → (Bytes → ℕ)
    → Bytes
    → List Keybinding
    → ℕ
    → Option Bytes
    → Option Bytes
    → Option Bytes
    → Round
add_binding m keysym_of beyond bs mods none action cmd = stop (false, bs)
add_binding m keysym_of beyond bs mods (some key) none cmd = stop (false, bs)
add_binding m keysym_of beyond bs mods (some key) (some action) cmd =
    if keysym_of key == 0 then stop (false, bs) else elim (parse_action_string action) [
      | none ↦ stop (false, bs)
      | some a ↦ registered beyond bs (register_binding m mods (keysym_of key) a cmd bs)
    ]

pub read_fields : Memory → (Bytes → ℕ) → List Keybinding → Bytes → Bytes → Scan Round
unfolding add_binding extract_modifiers_field extract_string_field
read_fields m keysym_of bs object beyond = do
  mods ← extract_modifiers_field object beyond
  key ← extract_string_field m object key_key
  action ← extract_string_field m object key_action
  cmd ← extract_string_field m object key_command
  done (add_binding m keysym_of beyond bs mods key action cmd)

read_object : Memory → (Bytes → ℕ) → Bytes → List Keybinding → Scan Round
unfolding read_fields
read_object m keysym_of p bs = do
  (object, beyond) ← split_object 0 p
  read_fields m keysym_of bs object beyond

at_element : Memory → (Bytes → ℕ) → List Keybinding → Bytes → Scan Round
unfolding read_object
at_element m keysym_of bs q = do
  d ← peek q
  if d == b']' || d == 0
      then done (stop (true, bs))
      else if not (d == b'{')
      then done (stop (false, bs))
      else read_object m keysym_of q bs

read_element : Memory → (Bytes → ℕ) → Bytes → List Keybinding → Scan Round
unfolding at_element
read_element m keysym_of p bs = do q ← skip_separators p; at_element m keysym_of bs q

-- A round of the loop over the binding objects.
binding_round : Memory → (Bytes → ℕ) → Bytes × List Keybinding → Scan Round
unfolding read_element
binding_round m keysym_of (p, bs) = do
  c ← peek p
  if c == 0 then done (stop (true, bs)) else read_element m keysym_of p bs

-- The loop, behind the opening bracket of the array.
unfoldable pub read_bindings :
    Memory → (Bytes → ℕ) → Bytes → List Keybinding → Scan (Bool × List Keybinding)
unfolding binding_round loop
read_bindings m keysym_of p bs = loop (suc (length p)) (binding_round m keysym_of) (p, bs)

abbrev key_bindings : Bytes
key_bindings = b'b' ∷ b'i' ∷ b'n' ∷ b'd' ∷ b'i' ∷ b'n' ∷ b'g' ∷ b's' ∷ []

abbrev at_bracket : Memory → (Bytes → ℕ) → List Keybinding → Bytes → Scan (Bool × List Keybinding)
at_bracket m keysym_of bs p = do
  c ← peek p
  if c == 0 then done (false, bs) else read_bindings m keysym_of (advance p) bs

-- The buffer, from the start of the file on.
unfoldable pub read_buffer :
    Memory → (Bytes → ℕ) → Bytes → List Keybinding → Scan (Bool × List Keybinding)
unfolding string_after_match
read_buffer m keysym_of buf bs = elim (string_after_match (quoted key_bindings) buf) [
  | none ↦ done (false, bs)
  | some rest ↦ do p ← skip_to b'[' rest; at_bracket m keysym_of bs p
]

-- A file that can be opened: whether fseek succeeds, what ftell says, and what fread reads.
pub record ConfigFile : Type 0 where
  pub seeks : Bool
  pub size : ℤ
  pub contents : Bytes

-- zen_keybinds_load_config: whether it returns 0, and the bindings.
unfoldable pub load_config :
    Memory → (Bytes → ℕ) → Option ConfigFile → List Keybinding → Scan (Bool × List Keybinding)
load_config m keysym_of none bs = done (true, bs)
load_config m keysym_of (some f) bs =
    if not f.seeks || not (is_pos f.size) || ltb 65536 (pos_part f.size)
    then done (false, bs)
    else if not (m.buffer f.size) || not (length f.contents == pos_part f.size)
    then done (false, bs)
    else read_buffer m keysym_of (f.contents ++ 0 ∷ []) bs
