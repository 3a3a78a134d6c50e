-- ===== src/Keybinds/Config/Split.antt =====
-- src/compositor/src/keybinds.c: the search for the end of a binding object that is written out.
use zen_os.Base.{
  ℕ, Bool, true, not, ◌&&◌, ◌||◌, Option, none, some, List, [], ◌∷◌, ◌++◌, Bytes, ◌≡◌, refl, ap,
  ◌∙◌, arith, ◌==◌, false,
}
use zen_os.Base.Scan.{done}
use zen_os.Base.Texts.{all_separators}
use zen_os.Keybinds.Fields.Array.{items}
use zen_os.Keybinds.Fields.Passed.{blank-separators}
use zen_os.Keybinds.Config.{split_object, cons_left}
use zen_os.Keybinds.Config.Printed.{
  simple, simple_option, Named, simple_named, written, word, Around, simple_around, Entry,
  simple_entry, name_of, modifiers_label, key_label, action_label, command_label, field, in_quotes,
  command_end, object, name_of-simple, word-simple,
}

-- No NUL and no brace.
unfoldable braceless : Bytes → Bool
braceless [] = true
braceless (x ∷ xs) = not (x == 0 || x == b'{' || x == b'}') && braceless xs

simple-braceless : (s : Bytes) → simple s ≡ true → braceless s ≡ true
unfolding simple braceless
simple-braceless [] h = refl
simple-braceless (x ∷ s) h = ground (arith, simple-braceless s)

separators-braceless : (s : Bytes) → all_separators s ≡ true → braceless s ≡ true
unfolding all_separators braceless
separators-braceless [] h = refl
separators-braceless (x ∷ s) h = ground (arith, separators-braceless s)

-- At a depth of one, the object ends behind `o`, and `rest` follows.
record Splits (text o rest : Bytes) : Type 0 where
  ends_at : split_object 1 text ≡ done (o, rest)

split_object_plain :
    (x : ℕ) (xs : Bytes)
    → (x == 0 || x == b'{' || x == b'}') ≡ false
    → split_object 1 (x ∷ xs) ≡ cons_left x (split_object 1 xs)
unfolding split_object
split_object_plain x xs h = ground arith

split_object-append :
    (s : Bytes) {t o rest : Bytes}
    → braceless s ≡ true
    → Splits t o rest
    → Splits (s ++ t) (s ++ o) rest
unfolding split_object braceless
split_object-append [] h e = e
split_object-append (x ∷ s) {t} h e =
    let deeper = split_object-append s (ground arith) e in
    record {
      ends_at = split_object_plain x (s ++ t) (ground arith) ∙ ap (cons_left x) deeper.ends_at;
    }

split_object-in_quotes :
    (s : Bytes) {t o rest : Bytes}
    → simple s ≡ true
    → Splits t o rest
    → Splits (in_quotes s t) (in_quotes s o) rest
unfolding braceless
split_object-in_quotes s h e =
    split_object-append (b'"' ∷ []) refl
      (split_object-append s (simple-braceless s h) (split_object-append (b'"' ∷ []) refl e))

split_object-items :
    (ns : List Named) {t o rest : Bytes}
    → simple_named ns ≡ true
    → Splits t o rest
    → Splits (items (written ns) t) (items (written ns) o) rest
unfolding simple_named written items braceless word
split_object-items [] h e = split_object-append (b']' ∷ []) refl e
split_object-items (n ∷ ns) h e =
    split_object-append n.before (separators-braceless n.before (ground arith)) (
      split_object-in_quotes (word n.capital n.modifier) (word-simple n.capital n.modifier)
        (split_object-items ns (ground arith) e))

split_object-field :
    (label : Bytes) (a : Around) {t o rest : Bytes}
    → braceless label ≡ true
    → simple_around a ≡ true
    → Splits t o rest
    → Splits (field label a t) (field label a o) rest
split_object-field label a l h e =
    split_object-append a.before (separators-braceless a.before (ground arith)) (
      split_object-append label l (
        split_object-append a.behind
          (separators-braceless a.behind (blank-separators a.behind (ground arith))) e))

split_object-brace :
    (end rest : Bytes)
    → all_separators end ≡ true
    → Splits (end ++ b'}' ∷ rest) (end ++ b'}' ∷ []) rest
unfolding split_object
split_object-brace end rest h =
    split_object-append end (separators-braceless end h) (record { ends_at = refl })

split_object-command_end :
    (a : Around) (end : Bytes) (c : Option Bytes) (rest : Bytes)
    → simple_around a ≡ true
    → all_separators end ≡ true
    → simple_option c ≡ true
    → Splits (command_end a end c rest) (command_end a end c []) rest
unfolding braceless
split_object-command_end a end none rest g k h = split_object-brace end rest k
split_object-command_end a end (some s) rest g k h =
    split_object-field command_label a refl g
      (split_object-in_quotes s h (split_object-brace end rest k))

-- A brace opens a binding object, and its end is found.
pub split_object-object :
    (e : Entry) (rest : Bytes)
    → simple_entry e ≡ true
    → split_object 0 (object e rest) ≡ done (object e [], rest)
unfolding split_object braceless
split_object-object e rest h =
    let inside = split_object-field modifiers_label e.at_modifiers refl (ground arith) (
      split_object-append (b'[' ∷ []) refl (
        split_object-items e.modifiers (ground arith) (
          split_object-field key_label e.at_key refl (ground arith) (
            split_object-in_quotes e.key (ground arith) (
              split_object-field action_label e.at_action refl (ground arith) (
                split_object-in_quotes (name_of e.action) (name_of-simple e.action) (
                  split_object-command_end e.at_command e.at_end e.command rest (ground arith)
                    (ground arith) (ground arith)))))))) in
    ap (cons_left b'{') inside.ends_at
