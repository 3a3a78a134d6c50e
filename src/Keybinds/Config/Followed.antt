-- ===== src/Keybinds/Config/Followed.antt =====
-- src/compositor/src/keybinds.c: how long the texts of a configuration that is written out are, and
-- what follows them.
use zen_os.Base.{
  Option, none, some, List, [], ◌∷◌, ◌++◌, Bytes, ◌≡◌, refl, ap, ◌∙◌, arith, ◌≤◌, length,
  length-append, ◌<◌, append_assoc,
}
use zen_os.Keybinds.Fields.Array.{Item, items}
use zen_os.Keybinds.Config.Printed.{
  Around, Entry, written, name_of, field, in_quotes, modifiers_label, key_label, action_label,
  command_label, command_end, action_end, key_end, object, objects, config_text,
}

pub items-append :
    (ts : List Item) (rest more : Bytes) → items ts rest ++ more ≡ items ts (rest ++ more)
unfolding items
items-append [] rest more = refl
items-append ((seps, tok) ∷ ts) rest more = simp (append_assoc, items-append ts rest more)

length-items-rest : (ts : List Item) (rest : Bytes) → length rest < length (items ts rest)
unfolding items
length-items-rest [] rest = omega arith
length-items-rest ((seps, tok) ∷ ts) rest = omega (
  arith,
  length-items-rest ts rest,
  length-append seps (b'"' ∷ (tok ++ b'"' ∷ items ts rest)),
  length-append tok (b'"' ∷ items ts rest),
)

length-in_quotes : (s rest : Bytes) → length rest < length (in_quotes s rest)
length-in_quotes s rest = omega (arith, length-append s (b'"' ∷ rest))

length-field :
    (label : Bytes) (a : Around) (rest : Bytes) → length rest ≤ length (field label a rest)
length-field label a rest = omega (
  arith,
  length-append a.before (label ++ (a.behind ++ rest)),
  length-append label (a.behind ++ rest),
  length-append a.behind rest,
)

length-command_end :
    (a : Around) (end : Bytes) (c : Option Bytes) (rest : Bytes)
    → length rest < length (command_end a end c rest)
length-command_end a end none rest = omega (arith, length-append end (b'}' ∷ rest))
length-command_end a end (some s) rest = omega (
  arith,
  length-field command_label a (in_quotes s (end ++ b'}' ∷ rest)),
  length-in_quotes s (end ++ b'}' ∷ rest),
  length-append end (b'}' ∷ rest),
)

-- An object has a character at least.
pub length-object : (e : Entry) (rest : Bytes) → length rest < length (object e rest)
length-object e rest =
    let command = command_end e.at_command e.at_end e.command rest in
    let array = items (written e.modifiers) (key_end e rest) in
    omega (
      arith,
      length-field modifiers_label e.at_modifiers (b'[' ∷ array),
      length-items-rest (written e.modifiers) (key_end e rest),
      length-field key_label e.at_key (in_quotes e.key (action_end e rest)),
      length-in_quotes e.key (action_end e rest),
      length-field action_label e.at_action (in_quotes (name_of e.action) command),
      length-in_quotes (name_of e.action) command,
      length-command_end e.at_command e.at_end e.command rest,
    )

command_end-append :
    (a : Around) (end : Bytes) (c : Option Bytes) (rest more : Bytes)
    → command_end a end c rest ++ more ≡ command_end a end c (rest ++ more)
command_end-append a end none rest more = simp append_assoc
command_end-append a end (some s) rest more = simp append_assoc

object-append : (e : Entry) (rest more : Bytes) → object e rest ++ more ≡ object e (rest ++ more)
object-append e rest more = simp (append_assoc, items-append, command_end-append)

objects-append :
    (es : List (Bytes × Entry)) (rest more : Bytes)
    → objects es rest ++ more ≡ objects es (rest ++ more)
unfolding objects
objects-append [] rest more = refl
objects-append ((seps, e) ∷ es) rest more =
    append_assoc seps (object e (objects es rest)) more
    ∙ ap (λ t. seps ++ t)
        (object-append e (objects es rest) more ∙ ap (object e) (objects-append es rest more))

pub config_text-append :
    (pre between : Bytes) (es : List (Bytes × Entry)) (rest more : Bytes)
    → config_text pre between es rest ++ more ≡ config_text pre between es (rest ++ more)
config_text-append pre between es rest more = simp (append_assoc, objects-append)
