-- ===== src/Keybinds/Config/Printed.antt =====
-- Texts that src/compositor/src/keybinds.c is to read: a configuration with its bindings written out
-- in the order modifiers, key, action, command, with blanks and commas between the fields and blanks
-- behind the colons.
use zen_os.Base.{
  ℕ, Bool, true, not, ◌&&◌, ◌||◌, Option, none, some, List, [], ◌∷◌, ◌++◌, Bytes, ◌≡◌, refl, ap,
  ◌∙◌, arith, ◌==◌, bit_or, false,
}
use zen_os.Base.Texts.{quoteless, all_separators, blank}
use zen_os.Compositor.{
  Keybinding, Action, launch_terminal, toggle_launcher, lock_screen, switch_window, close_window,
  custom,
}
use zen_os.Keybinds.Fields.{quoted, parse_modifier_token, is_word}
use zen_os.Keybinds.Fields.Array.{Item, all_items, items, modifiers_of}
use zen_os.Keybinds.Config.{key_bindings}

-- Characters that stand for themselves, and that the search for a brace does not count.
abbrev pub simple_char : ℕ → Bool
simple_char x = not (x == 0 || x == b'"' || x == b'\\' || x == b'{' || x == b'}')

unfoldable pub simple : Bytes → Bool
simple [] = true
simple (x ∷ xs) = simple_char x && simple xs

abbrev pub simple_option : Option Bytes → Bool
simple_option none = true
simple_option (some s) = simple s

pub data Modifier : Type 0 where
  shift ctrl alt super_ : Modifier

-- Its bit in enum wlr_keyboard_modifier.
abbrev pub bit_of : Modifier → ℕ
bit_of shift = 1
bit_of ctrl = 4
bit_of alt = 8
bit_of super_ = 64

-- Its name, with a capital or without.
unfoldable pub word : Bool → Modifier → Bytes
word true shift = b'S' ∷ b'h' ∷ b'i' ∷ b'f' ∷ b't' ∷ []
word false shift = b's' ∷ b'h' ∷ b'i' ∷ b'f' ∷ b't' ∷ []
word true ctrl = b'C' ∷ b't' ∷ b'r' ∷ b'l' ∷ []
word false ctrl = b'c' ∷ b't' ∷ b'r' ∷ b'l' ∷ []
word true alt = b'A' ∷ b'l' ∷ b't' ∷ []
word false alt = b'a' ∷ b'l' ∷ b't' ∷ []
word true super_ = b'S' ∷ b'u' ∷ b'p' ∷ b'e' ∷ b'r' ∷ []
word false super_ = b's' ∷ b'u' ∷ b'p' ∷ b'e' ∷ b'r' ∷ []

-- A modifier in its array: what stands before it, and how it is written.
pub record Named : Type 0 where
  pub before : Bytes
  pub capital : Bool
  pub modifier : Modifier

-- The array as it is read.
unfoldable pub written : List Named → List Item
written [] = []
written (n ∷ ns) = (n.before, word n.capital n.modifier) ∷ written ns

unfoldable pub simple_named : List Named → Bool
simple_named [] = true
simple_named (n ∷ ns) = all_separators n.before && simple_named ns

-- The union of the modifiers' bits and those of `mods`.
unfoldable pub mask_of : ℕ → List Named → ℕ
mask_of mods [] = mods
mask_of mods (n ∷ ns) = mask_of (bit_or mods (bit_of n.modifier)) ns

-- What stands before the name of a field, and behind its colon.
pub record Around : Type 0 where
  pub before : Bytes
  pub behind : Bytes

abbrev pub simple_around : Around → Bool
simple_around a = all_separators a.before && blank a.behind

-- A binding as the configuration has it, with what stands around its fields and before its end.
pub record Entry : Type 0 where
  pub at_modifiers : Around
  pub modifiers : List Named
  pub at_key : Around
  pub key : Bytes
  pub at_action : Around
  pub action : Action
  pub at_command : Around
  pub command : Option Bytes
  pub at_end : Bytes

abbrev pub simple_entry : Entry → Bool
simple_entry e =
    simple_around e.at_modifiers
    && simple_named e.modifiers
    && simple_around e.at_key
    && simple e.key
    && simple_around e.at_action
    && simple_around e.at_command
    && simple_option e.command
    && all_separators e.at_end

-- The name of an action in the documentation of the configuration.
unfoldable pub name_of : Action → Bytes
name_of launch_terminal =
    b'l' ∷ b'a' ∷ b'u' ∷ b'n' ∷ b'c' ∷ b'h' ∷ b'_' ∷ b't' ∷ b'e' ∷ b'r' ∷ b'm' ∷ b'i' ∷ b'n' ∷ b'a'
    ∷ b'l' ∷ []
name_of toggle_launcher =
    b't' ∷ b'o' ∷ b'g' ∷ b'g' ∷ b'l' ∷ b'e' ∷ b'_' ∷ b'l' ∷ b'a' ∷ b'u' ∷ b'n' ∷ b'c' ∷ b'h' ∷ b'e'
    ∷ b'r' ∷ []
name_of lock_screen =
    b'l' ∷ b'o' ∷ b'c' ∷ b'k' ∷ b'_' ∷ b's' ∷ b'c' ∷ b'r' ∷ b'e' ∷ b'e' ∷ b'n' ∷ []
name_of switch_window =
    b's' ∷ b'w' ∷ b'i' ∷ b't' ∷ b'c' ∷ b'h' ∷ b'_' ∷ b'w' ∷ b'i' ∷ b'n' ∷ b'd' ∷ b'o' ∷ b'w' ∷ []
name_of close_window =
    b'c' ∷ b'l' ∷ b'o' ∷ b's' ∷ b'e' ∷ b'_' ∷ b'w' ∷ b'i' ∷ b'n' ∷ b'd' ∷ b'o' ∷ b'w' ∷ []
name_of custom = b'c' ∷ b'u' ∷ b's' ∷ b't' ∷ b'o' ∷ b'm' ∷ []

-- `"modifiers":`
abbrev pub modifiers_label : Bytes
modifiers_label =
    b'"' ∷ b'm' ∷ b'o' ∷ b'd' ∷ b'i' ∷ b'f' ∷ b'i' ∷ b'e' ∷ b'r' ∷ b's' ∷ b'"' ∷ b':' ∷ []

-- `"key":`
abbrev pub key_label : Bytes
key_label = b'"' ∷ b'k' ∷ b'e' ∷ b'y' ∷ b'"' ∷ b':' ∷ []

-- `"action":`
abbrev pub action_label : Bytes
action_label = b'"' ∷ b'a' ∷ b'c' ∷ b't' ∷ b'i' ∷ b'o' ∷ b'n' ∷ b'"' ∷ b':' ∷ []

-- `"command":`
abbrev pub command_label : Bytes
command_label = b'"' ∷ b'c' ∷ b'o' ∷ b'm' ∷ b'm' ∷ b'a' ∷ b'n' ∷ b'd' ∷ b'"' ∷ b':' ∷ []

-- A field, and its value and what follows.
abbrev pub field : Bytes → Around → Bytes → Bytes
field label a rest = a.before ++ (label ++ (a.behind ++ rest))

-- A string in quotes, and what follows.
abbrev pub in_quotes : Bytes → Bytes → Bytes
in_quotes s rest = b'"' ∷ (s ++ b'"' ∷ rest)

-- From behind the action on.
abbrev pub command_end : Around → Bytes → Option Bytes → Bytes → Bytes
command_end a end none rest = end ++ b'}' ∷ rest
command_end a end (some s) rest = field command_label a (in_quotes s (end ++ b'}' ∷ rest))

abbrev pub action_end : Entry → Bytes → Bytes
action_end e rest =
    field action_label e.at_action
      (in_quotes (name_of e.action) (command_end e.at_command e.at_end e.command rest))

abbrev pub key_end : Entry → Bytes → Bytes
key_end e rest = field key_label e.at_key (in_quotes e.key (action_end e rest))

-- The text of a binding object, and what follows.
abbrev pub object : Entry → Bytes → Bytes
object e rest =
    b'{'
    ∷ field modifiers_label e.at_modifiers (b'[' ∷ items (written e.modifiers) (key_end e rest))

-- The objects, each with what stands before it, to the end of the array, and what follows.
unfoldable pub objects : List (Bytes × Entry) → Bytes → Bytes
objects [] rest = b']' ∷ rest
objects ((seps, e) ∷ es) rest = seps ++ object e (objects es rest)

unfoldable pub simple_objects : List (Bytes × Entry) → Bool
simple_objects [] = true
simple_objects ((seps, e) ∷ es) = all_separators seps && simple_entry e && simple_objects es

-- A configuration: a text, the key, a text up to the bracket, the bindings, and a text.
abbrev pub config_text : Bytes → Bytes → List (Bytes × Entry) → Bytes → Bytes
config_text pre between es rest =
    pre ++ (quoted key_bindings ++ (between ++ b'[' ∷ objects es rest))

-- What an entry binds.
abbrev pub binding_of : (Bytes → ℕ) → Entry → Keybinding
binding_of keysym_of e = record {
  modifiers = mask_of 0 e.modifiers;
  keysym = keysym_of e.key;
  action = e.action;
  custom_cmd = e.command;
}

pub simple-quoteless : (s : Bytes) → simple s ≡ true → quoteless s ≡ true
unfolding simple
simple-quoteless [] h = refl
simple-quoteless (x ∷ s) h = ground (arith, simple-quoteless s)

pub word-simple : (capital : Bool) (m : Modifier) → simple (word capital m) ≡ true
unfolding simple word
word-simple true shift = refl
word-simple false shift = refl
word-simple true ctrl = refl
word-simple false ctrl = refl
word-simple true alt = refl
word-simple false alt = refl
word-simple true super_ = refl
word-simple false super_ = refl

pub written-all_items : (ns : List Named) → simple_named ns ≡ true → all_items (written ns) ≡ true
unfolding simple_named written all_items word
written-all_items [] h = refl
written-all_items (n ∷ ns) h = ground (
  arith,
  written-all_items ns,
  simple-quoteless (word n.capital n.modifier) (word-simple n.capital n.modifier),
)

pub parse_modifier_token-word :
    (capital : Bool) (m : Modifier) → parse_modifier_token (word capital m) ≡ bit_of m
unfolding parse_modifier_token is_word word
parse_modifier_token-word true shift = refl
parse_modifier_token-word false shift = refl
parse_modifier_token-word true ctrl = refl
parse_modifier_token-word false ctrl = refl
parse_modifier_token-word true alt = refl
parse_modifier_token-word false alt = refl
parse_modifier_token-word true super_ = refl
parse_modifier_token-word false super_ = refl

-- What is read of the array is the union of the bits.
pub modifiers_of-written :
    (mods : ℕ) (ns : List Named) → modifiers_of mods (written ns) ≡ mask_of mods ns
unfolding modifiers_of written mask_of
modifiers_of-written mods [] = refl
modifiers_of-written mods (n ∷ ns) =
    ap (λ b. modifiers_of (bit_or mods b) (written ns))
      (parse_modifier_token-word n.capital n.modifier)
    ∙ modifiers_of-written (bit_or mods (bit_of n.modifier)) ns

pub name_of-simple : (a : Action) → simple (name_of a) ≡ true
unfolding simple name_of
name_of-simple launch_terminal = refl
name_of-simple toggle_launcher = refl
name_of-simple lock_screen = refl
name_of-simple switch_window = refl
name_of-simple close_window = refl
name_of-simple custom = refl
