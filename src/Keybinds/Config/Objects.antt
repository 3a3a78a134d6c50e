-- ===== src/Keybinds/Config/Objects.antt =====
-- src/compositor/src/keybinds.c: what is read of a binding object that is written out.
use zen_os.Base.{
  ℕ, true, false, Option, none, some, List, [], ◌∷◌, ◌++◌, Bytes, ◌≡◌, refl, ap, ◌∙◌, arith, ◌==◌,
  length, subst, sym, append_assoc,
}
use zen_os.Base.Int.{ℤ}
use zen_os.Base.Scan.{done, again, after_match, strip_prefix}
use zen_os.Base.Texts.{quoteless}
use zen_os.Compositor.{
  Keybinding, Action, launch_terminal, toggle_launcher, lock_screen, switch_window, close_window,
  custom,
}
use zen_os.Keybinds.Fields.{Memory, quoted, parse_modifiers_array, extract_modifiers_field}
use zen_os.Keybinds.Fields.Array.{items, all_items, parse_modifiers_array-items}
use zen_os.Keybinds.Fields.Passed.{
  Finds-items, Finds-string_behind, extract_modifiers_field-array, separators-quoteless,
  blank-separators, inside_strings,
}
use zen_os.Keybinds.Fields.Found.{
  Finds, Finds-nil, Finds-over, Finds-quoteless, Finds-value, ordinary, extract_string_field-Finds,
}
use zen_os.Keybinds.Config.{
  key_key, key_action, key_command, parse_action_string, register_binding, add_binding, read_fields,
}
use zen_os.Keybinds.Config.Followed.{items-append}
use zen_os.Keybinds.Config.Printed.{
  simple, simple_option, Around, simple_around, Entry, simple_entry, written, mask_of, name_of,
  modifiers_label, key_label, action_label, in_quotes, command_end, action_end, key_end, object,
  binding_of, simple-quoteless, written-all_items, modifiers_of-written, name_of-simple,
}

-- There is always memory.
pub record Unlimited (m : Memory) : Type 0 where
  pub copies : (s : Bytes) → m.copy s ≡ some s
  pub binds : (n : ℕ) → m.binding n ≡ true
  pub buffers : (n : ℤ) → m.buffer n ≡ true

simple-ordinary : (s : Bytes) → simple s ≡ true → ordinary s ≡ true
unfolding simple
simple-ordinary [] h = refl
simple-ordinary (x ∷ s) h = ground (arith, simple-ordinary s)

parse_action_string-name_of : (a : Action) → parse_action_string (name_of a) ≡ some a
unfolding parse_action_string name_of
parse_action_string-name_of launch_terminal = refl
parse_action_string-name_of toggle_launcher = refl
parse_action_string-name_of lock_screen = refl
parse_action_string-name_of switch_window = refl
parse_action_string-name_of close_window = refl
parse_action_string-name_of custom = refl

module _ (m : Memory) (key : Bytes) where
  Finds-before :
      (a : Around) {text : Bytes} {r : Option Bytes}
      → simple_around a ≡ true
      → Finds m key text r
      → Finds m key (a.before ++ text) r
  Finds-before a h f =
      Finds-quoteless m key a.before (separators-quoteless a.before (ground arith)) f

  -- The key's own field, behind what stands before it.
  Finds-own :
      (a : Around) (v rest : Bytes)
      → ((s : Bytes) → m.copy s ≡ some s)
      → simple_around a ≡ true
      → simple v ≡ true
      → Finds m key ((quoted key ++ b':' ∷ []) ++ (a.behind ++ in_quotes v rest)) (some v)
  Finds-own a v rest copies h k =
      subst (λ t. Finds m key t (some v))
        (sym (append_assoc (quoted key) (b':' ∷ []) (a.behind ++ in_quotes v rest)))
        (Finds-value m key a.behind v rest copies (ground arith) (simple-ordinary v k))

  -- The field of another name.
  Finds-other :
      (label : Bytes) (a : Around) {text : Bytes} {r : Option Bytes}
      → ((t : Bytes) → after_match (quoted key) (label ++ t) ≡ after_match (quoted key) t)
      → simple_around a ≡ true
      → Finds m key text r
      → Finds m key (label ++ (a.behind ++ text)) r
  Finds-other label a {text} other h f = Finds-over m key label (other (a.behind ++ text)) (
      Finds-quoteless m key a.behind
        (separators-quoteless a.behind (blank-separators a.behind (ground arith))) f)

module _ (m : Memory) (unlimited : Unlimited m) (e : Entry) (h : simple_entry e ≡ true) where
  array_simple : all_items (written e.modifiers) ≡ true
  array_simple = written-all_items e.modifiers (ground arith)

  -- A string with a further field behind it, in the search for a key.
  behind_string :
      (x : ℕ) (name tok : Bytes) (a : Around) {more : Bytes} {r : Option Bytes}
      → quoteless tok ≡ true
      → simple_around a ≡ true
      → inside_strings x ≡ true
      → quoteless (x ∷ name) ≡ true
      → Finds m (x ∷ name) (b'"' ∷ more) r
      → Finds m (x ∷ name) (in_quotes tok (a.before ++ b'"' ∷ more)) r
  behind_string x name tok a q g l k f =
      Finds-string_behind m x name l b'"' refl refl tok a.before k q (ground arith) (ground arith) f

  key_found : Finds m key_key (object e []) (some e.key)
  unfolding after_match strip_prefix
  key_found = Finds-over m key_key (b'{' ∷ []) refl (
      Finds-before m key_key e.at_modifiers (ground arith) (
        Finds-other m key_key modifiers_label e.at_modifiers (λ t. refl) (ground arith)
          (Finds-over m key_key (b'[' ∷ []) refl (
            Finds-items m b'k' (b'e' ∷ b'y' ∷ []) refl (written e.modifiers) refl array_simple (
              Finds-before m key_key e.at_key (ground arith) (
                Finds-own m key_key e.at_key e.key (action_end e []) unlimited.copies (ground arith)
                  (ground arith)))))))

  abbrev action_field : Bytes
  action_field =
      action_label
      ++ (e.at_action.behind
          ++ in_quotes (name_of e.action) (command_end e.at_command e.at_end e.command []))

  -- What is found behind the array and the key.
  behind_key :
      (x : ℕ) (name : Bytes) {r : Option Bytes}
      → inside_strings x ≡ true
      → quoteless (x ∷ name) ≡ true
      → ((t : Bytes)
          → after_match (quoted (x ∷ name)) (modifiers_label ++ t)
            ≡ after_match (quoted (x ∷ name)) t)
      → ((t : Bytes)
          → after_match (quoted (x ∷ name)) (key_label ++ t) ≡ after_match (quoted (x ∷ name)) t)
      → Finds m (x ∷ name) action_field r
      → Finds m (x ∷ name) (object e []) r
  unfolding after_match strip_prefix
  behind_key x name l k no_modifiers no_key f = Finds-over m (x ∷ name) (b'{' ∷ []) refl (
      Finds-before m (x ∷ name) e.at_modifiers (ground arith) (
        Finds-other m (x ∷ name) modifiers_label e.at_modifiers no_modifiers (ground arith) (
          Finds-over m (x ∷ name) (b'[' ∷ []) refl (
            Finds-items m x name l (written e.modifiers) k array_simple (
              Finds-before m (x ∷ name) e.at_key (ground arith) (
                Finds-other m (x ∷ name) key_label e.at_key no_key (ground arith) (
                  behind_string x name e.key e.at_action (simple-quoteless e.key (ground arith))
                    (ground arith) l k f)))))))

  action_found : Finds m key_action (object e []) (some (name_of e.action))
  unfolding after_match strip_prefix
  action_found =
      behind_key b'a' (b'c' ∷ b't' ∷ b'i' ∷ b'o' ∷ b'n' ∷ []) refl refl (λ t. refl) (λ t. refl)
        (Finds-own m key_action e.at_action (name_of e.action)
          (command_end e.at_command e.at_end e.command []) unlimited.copies (ground arith)
          (name_of-simple e.action))

  brace_found : Finds m key_command (b'}' ∷ []) none
  unfolding after_match strip_prefix
  brace_found = Finds-over m key_command (b'}' ∷ []) refl (Finds-nil m key_command)

  behind_action :
      (c : Option Bytes)
      → simple_option c ≡ true
      → Finds m key_command
          (in_quotes (name_of e.action) (command_end e.at_command e.at_end c []))
          c
  behind_action none k =
      Finds-string_behind m b'c' (b'o' ∷ b'm' ∷ b'm' ∷ b'a' ∷ b'n' ∷ b'd' ∷ []) refl b'}' refl refl
        (name_of e.action) e.at_end refl
        (simple-quoteless (name_of e.action) (name_of-simple e.action)) (ground arith) refl
        brace_found
  behind_action (some s) k =
      behind_string b'c' (b'o' ∷ b'm' ∷ b'm' ∷ b'a' ∷ b'n' ∷ b'd' ∷ []) (name_of e.action)
        e.at_command (simple-quoteless (name_of e.action) (name_of-simple e.action)) (ground arith)
        refl refl
        (Finds-own m key_command e.at_command s (e.at_end ++ b'}' ∷ []) unlimited.copies
          (ground arith) k)

  command_found : Finds m key_command (object e []) e.command
  unfolding after_match strip_prefix
  command_found =
      behind_key b'c' (b'o' ∷ b'm' ∷ b'm' ∷ b'a' ∷ b'n' ∷ b'd' ∷ []) refl refl (λ t. refl)
        (λ t. refl)
        (Finds-other m key_command action_label e.at_action (λ t. refl) (ground arith)
          (behind_action e.command (ground arith)))

  modifiers_found :
      (beyond : Bytes) → extract_modifiers_field (object e []) beyond ≡ done (mask_of 0 e.modifiers)
  modifiers_found beyond =
      let array = written e.modifiers in
      extract_modifiers_field-array e.at_modifiers.before e.at_modifiers.behind
        (items array (key_end e [])) beyond (ground arith) (ground arith)
        (ap (λ t. parse_modifiers_array (b'[' ∷ t)) (items-append array (key_end e []) beyond)
          ∙ parse_modifiers_array-items array (key_end e [] ++ beyond) array_simple
          ∙ ap done (modifiers_of-written 0 e.modifiers))

  module _ (keysym_of : Bytes → ℕ) (known : (keysym_of e.key == 0) ≡ false) where
    registers :
        (bs : List Keybinding)
        → register_binding m (mask_of 0 e.modifiers) (keysym_of e.key) e.action e.command bs
          ≡ some (bs ++ binding_of keysym_of e ∷ [])
    unfolding register_binding
    registers bs = copied e.command
      where
        copied :
            (c : Option Bytes)
            → register_binding m (mask_of 0 e.modifiers) (keysym_of e.key) e.action c bs
              ≡ some (bs ++ record (binding_of keysym_of e) { custom_cmd = c } ∷ [])
        copied none = rw (unlimited.binds (length bs)) refl
        copied (some s) = rw (unlimited.binds (length bs), unlimited.copies s) refl

    adds :
        (beyond : Bytes) (bs : List Keybinding)
        → add_binding m keysym_of beyond bs
            (mask_of 0 e.modifiers)
            (some e.key)
            (some (name_of e.action))
            e.command
          ≡ again (beyond, bs ++ binding_of keysym_of e ∷ [])
    unfolding add_binding
    adds beyond bs = rw (known, parse_action_string-name_of e.action, registers bs) refl

    pub fields_found :
        (beyond : Bytes) (bs : List Keybinding)
        → read_fields m keysym_of bs (object e []) beyond
          ≡ done (again (beyond, bs ++ binding_of keysym_of e ∷ []))
    unfolding read_fields
    fields_found beyond bs =
        rw
          (
            modifiers_found beyond,
            extract_string_field-Finds m (object e []) key_key key_found,
            extract_string_field-Finds m (object e []) key_action action_found,
            extract_string_field-Finds m (object e []) key_command command_found,
            adds beyond bs,
          )
          refl
