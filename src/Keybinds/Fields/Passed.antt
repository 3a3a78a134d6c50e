-- ===== src/Keybinds/Fields/Passed.antt =====
-- src/compositor/src/keybinds.c: the array of modifiers, which the loop of extract_string_field passes over
-- and extract_modifiers_field reads.
use zen_os.Base.{
  ℕ, Bool, true, false, not, ◌||◌, Option, none, some, List, [], ◌∷◌, ◌++◌, Bytes, ◌≡◌, refl, arith,
  ◌==◌, inl, inr, Bool-cases, append_assoc, ◌∙◌,
}
use zen_os.Base.Scan.{
  done, again, stop, loop, is_blank, is_separator, skip_blanks, skip_to, strip_prefix, after_match,
}
use zen_os.Base.Texts.{
  quoteless, all_separators, blank, bracketless, skip_to-append, strip_prefix-append,
}
use zen_os.Keybinds.Fields.{
  Memory, quoted, field_colon, modifiers_colon, modifiers_field_round, parse_modifiers_array,
  extract_modifiers_field, key_modifiers,
}
use zen_os.Keybinds.Fields.Array.{Item, items, all_items}
use zen_os.Keybinds.Fields.Found.{Finds, Finds-quoteless, Finds-string}

-- Characters that an array of modifiers has only inside its strings.
abbrev pub inside_strings : ℕ → Bool
inside_strings x = not (is_separator x || x == b']' || x == b'"')

pub separators-quoteless : (s : Bytes) → all_separators s ≡ true → quoteless s ≡ true
unfolding all_separators
separators-quoteless [] h = refl
separators-quoteless (x ∷ s) h = ground (arith, separators-quoteless s)

no_colon : (y : ℕ) → is_separator y ≡ true → (y == b':') ≡ false
no_colon y h = ground arith

module _ (m : Memory) (x : ℕ) (name : Bytes) (letter : inside_strings x ≡ true) where
  no_match_behind_string :
      (ts : List Item) (text : Bytes)
      → all_items ts ≡ true
      → strip_prefix (x ∷ (name ++ b'"' ∷ [])) (items ts text) ≡ none
  unfolding strip_prefix items all_items all_separators
  no_match_behind_string [] text h = ground arith
  no_match_behind_string (([], tok) ∷ ts) text h = ground arith
  no_match_behind_string ((y ∷ seps, tok) ∷ ts) text h = ground arith

  module _ (c : ℕ) (full : is_blank c ≡ false) (not_colon : (c == b':') ≡ false) where
    -- Blanks and a colon do not follow such a string.
    again_behind_separators :
        (seps t : Bytes)
        → all_separators seps ≡ true
        → field_colon m (skip_blanks (seps ++ c ∷ t)) ≡ again (skip_blanks (seps ++ c ∷ t))
    unfolding field_colon skip_blanks all_separators
    again_behind_separators [] t h = rw (full, skip_blanks) (rw (not_colon, field_colon) refl)
    again_behind_separators (y ∷ seps) t h = elim (Bool-cases (is_blank y)) [
      | inl e ↦ rw (e, skip_blanks) (again_behind_separators seps t (ground arith))
      | inr e ↦ rw (e, skip_blanks) (rw (no_colon y (ground arith), field_colon) refl)
    ]

    Finds-separators :
        (seps : Bytes) {t : Bytes} {r : Option Bytes}
        → all_separators seps ≡ true
        → Finds m (x ∷ name) (c ∷ t) r
        → Finds m (x ∷ name) (skip_blanks (seps ++ c ∷ t)) r
    unfolding skip_blanks all_separators
    Finds-separators [] h f = rw (full, skip_blanks) f
    Finds-separators (y ∷ seps) {t} h f = elim (Bool-cases (is_blank y)) [
      | inl e ↦ rw (e, skip_blanks) (Finds-separators seps (ground arith) f)
      | inr e ↦
          rw (e, skip_blanks)
            (Finds-quoteless m (x ∷ name) (y ∷ seps) (separators-quoteless (y ∷ seps) h) f)
    ]

    no_match_behind_separators :
        (seps t : Bytes)
        → (x == c) ≡ false
        → all_separators seps ≡ true
        → strip_prefix (x ∷ (name ++ b'"' ∷ [])) (seps ++ c ∷ t) ≡ none
    unfolding strip_prefix all_separators
    no_match_behind_separators [] t d h = ground arith
    no_match_behind_separators (y ∷ seps) t d h = ground arith

    -- A string with separators behind it.
    pub Finds-string_behind :
        (tok seps : Bytes) {t : Bytes} {r : Option Bytes}
        → quoteless (x ∷ name) ≡ true
        → quoteless tok ≡ true
        → all_separators seps ≡ true
        → (x == c) ≡ false
        → Finds m (x ∷ name) (c ∷ t) r
        → Finds m (x ∷ name) (b'"' ∷ (tok ++ b'"' ∷ (seps ++ c ∷ t))) r
    Finds-string_behind tok seps {t} k q h d f =
        Finds-string m (x ∷ name) tok k q (no_match_behind_separators seps t d h)
          (again_behind_separators seps t h)
          (Finds-quoteless m (x ∷ name) seps (separators-quoteless seps h) f)
          (Finds-separators seps h f)

  again_behind_string :
      (ts : List Item) (text : Bytes)
      → all_items ts ≡ true
      → field_colon m (skip_blanks (items ts text)) ≡ again (skip_blanks (items ts text))
  unfolding items all_items field_colon skip_blanks
  again_behind_string [] text h = refl
  again_behind_string ((seps, tok) ∷ ts) text h =
      again_behind_separators b'"' refl refl seps (tok ++ b'"' ∷ items ts text) (ground arith)

  -- The strings of an array of modifiers are passed over.
  Finds-items_and_skip :
      (ts : List Item) {text : Bytes} {r : Option Bytes}
      → quoteless (x ∷ name) ≡ true
      → all_items ts ≡ true
      → Finds m (x ∷ name) text r
      → Finds m (x ∷ name) (items ts text) r × Finds m (x ∷ name) (skip_blanks (items ts text)) r
  unfolding items all_items skip_blanks strip_prefix
  Finds-items_and_skip [] k h f = let g = Finds-quoteless m (x ∷ name) (b']' ∷ []) refl f in (g, g)
  Finds-items_and_skip ((seps, tok) ∷ ts) {text} {r} k h f =
      let rest = Finds-items_and_skip ts k (ground arith) f in
      let here =
        Finds-string m (x ∷ name) tok k (ground arith)
          (no_match_behind_string ts text (ground arith))
          (again_behind_string ts text (ground arith)) rest.0 rest.1 in
      (
        Finds-quoteless m (x ∷ name) seps (separators-quoteless seps (ground arith)) here,
        Finds-separators b'"' refl refl seps (ground arith) here,
      )

  pub Finds-items :
      (ts : List Item) {text : Bytes} {r : Option Bytes}
      → quoteless (x ∷ name) ≡ true
      → all_items ts ≡ true
      → Finds m (x ∷ name) text r
      → Finds m (x ∷ name) (items ts text) r
  Finds-items ts k h f = (Finds-items_and_skip ts k h f).0

after_match-append :
    (pre ks r : Bytes)
    → quoteless pre ≡ true
    → after_match (b'"' ∷ ks) (pre ++ (b'"' ∷ (ks ++ r))) ≡ some r
unfolding after_match strip_prefix
after_match-append [] ks r h = rw (strip_prefix-append ks r) refl
after_match-append (x ∷ pre) ks r h = ground (arith, after_match-append pre ks r)

pub blank-separators : (s : Bytes) → blank s ≡ true → all_separators s ≡ true
unfolding all_separators
blank-separators [] h = refl
blank-separators (x ∷ s) h = ground (arith, blank-separators s)

separators-bracketless : (s : Bytes) → all_separators s ≡ true → bracketless s ≡ true
unfolding all_separators
separators-bracketless [] h = refl
separators-bracketless (x ∷ s) h = ground (arith, separators-bracketless s)

parse_modifiers_array-blank :
    (behind t : Bytes)
    → blank behind ≡ true
    → parse_modifiers_array (behind ++ b'[' ∷ t) ≡ parse_modifiers_array (b'[' ∷ t)
unfolding parse_modifiers_array skip_to
parse_modifiers_array-blank behind t h =
    rw (skip_to-append behind t (separators-bracketless behind (blank-separators behind h))) refl

modifiers_colon-array :
    (behind rest beyond : Bytes) {mods : ℕ}
    → blank behind ≡ true
    → parse_modifiers_array ((b'[' ∷ rest) ++ beyond) ≡ done mods
    → modifiers_colon beyond (b':' ∷ (behind ++ b'[' ∷ rest)) ≡ done (stop mods)
unfolding modifiers_colon
modifiers_colon-array behind rest beyond k h =
    rw
      (
        append_assoc behind (b'[' ∷ rest) beyond,
        parse_modifiers_array-blank behind (rest ++ beyond) k,
        h,
      )
      refl

modifiers_field_round_found :
    (beyond text : Bytes) (x : ℕ) {rest : Bytes}
    → after_match (quoted key_modifiers) (x ∷ text) ≡ some rest
    → modifiers_field_round beyond (x ∷ text) ≡ modifiers_colon beyond (skip_blanks rest)
unfolding modifiers_field_round
modifiers_field_round_found beyond text x e = rw (e, modifiers_field_round) refl

-- An array of modifiers behind its key, at the start of the object.
pub extract_modifiers_field-array :
    (before behind rest beyond : Bytes) {mods : ℕ}
    → all_separators before ≡ true
    → blank behind ≡ true
    → parse_modifiers_array ((b'[' ∷ rest) ++ beyond) ≡ done mods
    → extract_modifiers_field
        (b'{' ∷ (before ++ (quoted key_modifiers ++ (b':' ∷ (behind ++ b'[' ∷ rest)))))
        beyond
      ≡ done mods
unfolding extract_modifiers_field skip_blanks loop
extract_modifiers_field-array before behind rest beyond b k h =
    let text = before ++ (quoted key_modifiers ++ (b':' ∷ (behind ++ b'[' ∷ rest))) in
    let found =
      modifiers_field_round_found beyond text b'{' (
        after_match-append (b'{' ∷ before) (key_modifiers ++ b'"' ∷ [])
          (b':' ∷ (behind ++ b'[' ∷ rest)) (separators-quoteless before b))
      ∙ modifiers_colon-array behind rest beyond k h in
    rw (found) refl
