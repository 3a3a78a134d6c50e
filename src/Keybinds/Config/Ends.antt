-- ===== src/Keybinds/Config/Ends.antt =====
-- src/compositor/src/keybinds.c: the fuel of the loop that reads the bindings, and the list that it
-- adds to.
use zen_os.Base.{
  ℕ, suc, ◌+◌, ◌-◌, ◌≤◌, ◌<◌, ◌||◌, Bool, Option, none, some, List, [], ◌∷◌, ◌++◌, Bytes, ◌≡◌, refl,
  ap, ◌∙◌, arith, ◌==◌, length, inl, inr, Bool-cases, Option-cases, append_assoc, append-nil,
  ==_iff,
}
use zen_os.Base.Scan.{
  Scan, Ensures, bind-Ensures, Descends, loop-Descends, NoLonger, skip_to, skip_separators,
  skip_to-NoLonger, skip_separators-NoLonger, string_after_match,
}
use zen_os.Compositor.{Keybinding, Action}
use zen_os.Keybinds.Fields.{Memory, quoted, extract_string_field, extract_modifiers_field}
use zen_os.Keybinds.Fields.Ends.{Any, extract_string_field-Ensures, extract_modifiers_field-Ensures}
use zen_os.Keybinds.Config.{
  register_binding, parse_action_string, split_object, key_key, key_action, key_command, Round,
  add_binding, read_object, read_fields, at_element, at_bracket, cons_left, read_element,
  binding_round, read_bindings, read_buffer, key_bindings, ConfigFile, load_config, copy_command,
  registered,
}

-- The bindings are there still, in front of the new ones.
abbrev pub Extends : List Keybinding → List Keybinding → Type 0
Extends bs cs = (new : List Keybinding) × (cs ≡ bs ++ new)

Extends-refl : (bs : List Keybinding) → Extends bs bs
Extends-refl bs = ([], simp (append-nil bs))

Extends-trans : (xs bs cs : List Keybinding) → Extends xs bs → Extends bs cs → Extends xs cs
Extends-trans xs bs cs (new, e) (newer, f) =
    (new ++ newer, f ∙ ap (λ l. l ++ newer) e ∙ append_assoc xs new newer)

-- One binding more, or nothing.
abbrev pub Registers : ℕ → ℕ → Action → List Keybinding → Option (List Keybinding) → Type 0
Registers modifiers keysym a bs none = Unit
Registers modifiers keysym a bs (some cs) =
    (cmd : Option Bytes) × (cs
      ≡ bs ++ record { modifiers = modifiers; keysym = keysym; action = a; custom_cmd = cmd } ∷ [])

pub register_binding-Registers :
    (m : Memory) (modifiers keysym : ℕ) (a : Action) (cmd : Option Bytes) (bs : List Keybinding)
    → Registers modifiers keysym a bs (register_binding m modifiers keysym a cmd bs)
unfolding register_binding
register_binding-Registers m modifiers keysym a cmd bs = elim (Bool-cases (m.binding (length bs))) [
  | inl e ↦ elim (Option-cases (copy_command m cmd)) [
    | inl f ↦ rw (e, f, register_binding) tt
    | inr (cmd', f) ↦ rw (e, f, register_binding) (cmd', refl)
  ]
  | inr e ↦ rw (e, register_binding) tt
]

abbrev text_length : Bytes × List Keybinding → ℕ
text_length s = length s.0

abbrev Grown : List Keybinding → Bytes × List Keybinding → Type 0
Grown bs0 s = Extends bs0 s.1

abbrev Result : List Keybinding → Bool × List Keybinding → Type 0
Result bs0 r = Extends bs0 r.1

abbrev Reads : List Keybinding → ℕ → Round → Type 0
Reads bs0 n = Descends (Grown bs0) text_length (Result bs0) n

add_binding-Reads :
    (m : Memory) (keysym_of : Bytes → ℕ) (bs0 : List Keybinding) (n : ℕ) (beyond : Bytes)
    (bs : List Keybinding) (mods : ℕ) (key action cmd : Option Bytes)
    → length beyond < n
    → Extends bs0 bs
    → Reads bs0 n (add_binding m keysym_of beyond bs mods key action cmd)
unfolding add_binding
add_binding-Reads m keysym_of bs0 n beyond bs mods none action cmd h g = g
add_binding-Reads m keysym_of bs0 n beyond bs mods (some key) none cmd h g = g
add_binding-Reads m keysym_of bs0 n beyond bs mods (some key) (some action) cmd h g =
    elim (Bool-cases (keysym_of key == 0)) [
      | inl e ↦ rw (e, add_binding) g
      | inr e ↦ elim (Option-cases (parse_action_string action)) [
        | inl f ↦ rw (e, f, add_binding) g
        | inr (a, f) ↦
            rw (e, f, add_binding)
              (ends a (keysym_of key) (register_binding m mods (keysym_of key) a cmd bs)
                (register_binding-Registers m mods (keysym_of key) a cmd bs))
      ]
    ]
  where
    ends :
        (a : Action) (k : ℕ) (r : Option (List Keybinding))
        → Registers mods k a bs r
        → Reads bs0 n (registered beyond bs r)
    ends a k none t = g
    ends a k (some cs) (c, e) = (h, Extends-trans bs0 bs cs g (_, e))

abbrev Beyond : ℕ → Bytes × Bytes → Type 0
Beyond n r = length r.1 ≤ n

cons_left-Ensures :
    (x n : ℕ) (s : Scan (Bytes × Bytes)) → Ensures (Beyond n) s → Ensures (Beyond n) (cons_left x s)
cons_left-Ensures x n s h = bind-Ensures (Beyond n) (Beyond n) s _ h (λ r k. k)

split_object-Ensures :
    (depth : ℕ) (p : Bytes) (n : ℕ) → length p ≤ n → Ensures (Beyond n) (split_object depth p)
unfolding split_object
split_object-Ensures depth [] n h = tt
split_object-Ensures depth (x ∷ xs) n h = ground (
  arith,
  cons_left-Ensures x n (split_object (depth + 1) xs)
      (split_object-Ensures (depth + 1) xs n (omega arith)),
  cons_left-Ensures x n (split_object (depth - 1) xs)
      (split_object-Ensures (depth - 1) xs n (omega arith)),
  cons_left-Ensures x n (split_object depth xs) (split_object-Ensures depth xs n (omega arith)),
)

-- The search goes past the opening brace.
split_object-Falls : (xs : Bytes) → Ensures (Beyond (length xs)) (split_object 0 (b'{' ∷ xs))
unfolding split_object
split_object-Falls xs =
    cons_left-Ensures b'{' (length xs) (split_object 1 xs)
      (split_object-Ensures 1 xs (length xs) (omega arith))

read_fields-Reads :
    (m : Memory) (keysym_of : Bytes → ℕ) (bs0 bs : List Keybinding) (n : ℕ) (object beyond : Bytes)
    → length beyond < n
    → Extends bs0 bs
    → Ensures (Reads bs0 n) (read_fields m keysym_of bs object beyond)
unfolding read_fields
read_fields-Reads m keysym_of bs0 bs n object beyond h g =
    bind-Ensures Any _ (extract_modifiers_field object beyond) _
      (extract_modifiers_field-Ensures object beyond)
      (λ mods t.
        bind-Ensures Any _ (extract_string_field m object key_key) _
          (extract_string_field-Ensures m object key_key)
          (λ key t.
            bind-Ensures Any _ (extract_string_field m object key_action) _
              (extract_string_field-Ensures m object key_action)
              (λ action t.
                bind-Ensures Any _ (extract_string_field m object key_command) _
                  (extract_string_field-Ensures m object key_command)
                  (λ cmd t.
                    add_binding-Reads m keysym_of bs0 n beyond bs mods key action cmd h g))))

read_object-Reads :
    (m : Memory) (keysym_of : Bytes → ℕ) (bs0 bs : List Keybinding) (n x : ℕ) (xs : Bytes)
    → x ≡ b'{'
    → length (x ∷ xs) ≤ n
    → Extends bs0 bs
    → Ensures (Reads bs0 n) (read_object m keysym_of (x ∷ xs) bs)
unfolding read_object
read_object-Reads m keysym_of bs0 bs n x xs e h g = rw (e) (
    bind-Ensures (Beyond (length xs)) _ (split_object 0 (b'{' ∷ xs)) _ (split_object-Falls xs)
      (λ r k. read_fields-Reads m keysym_of bs0 bs n r.0 r.1 (omega arith) g))

at_element-Reads :
    (m : Memory) (keysym_of : Bytes → ℕ) (bs0 bs : List Keybinding) (n : ℕ) (q : Bytes)
    → length q ≤ n
    → Extends bs0 bs
    → Ensures (Reads bs0 n) (at_element m keysym_of bs q)
unfolding at_element
at_element-Reads m keysym_of bs0 bs n [] h g = tt
at_element-Reads m keysym_of bs0 bs n (x ∷ xs) h g = elim (Bool-cases (x == b']' || x == 0)) [
  | inl e ↦ rw (e, at_element) g
  | inr e ↦ elim (Bool-cases (x == b'{')) [
    | inl f ↦
        rw (e, f, at_element)
          (read_object-Reads m keysym_of bs0 bs n x xs ((==_iff x b'{').0 f) h g)
    | inr f ↦ rw (e, f, at_element) g
  ]
]

binding_round-Reads :
    (m : Memory) (keysym_of : Bytes → ℕ) (bs0 : List Keybinding) (s : Bytes × List Keybinding)
    → Grown bs0 s
    → Ensures (Reads bs0 (text_length s)) (binding_round m keysym_of s)
unfolding binding_round read_element
binding_round-Reads m keysym_of bs0 ([], bs) g = tt
binding_round-Reads m keysym_of bs0 (x ∷ xs, bs) g = elim (Bool-cases (x == 0)) [
  | inl e ↦ rw (e, binding_round) g
  | inr e ↦
      rw (e, binding_round)
        (bind-Ensures (NoLonger (x ∷ xs)) _ (skip_separators (x ∷ xs)) _
          (skip_separators-NoLonger (x ∷ xs))
          (λ q k. at_element-Reads m keysym_of bs0 bs (length (x ∷ xs)) q k g))
]

at_bracket-Ensures :
    (m : Memory) (keysym_of : Bytes → ℕ) (bs : List Keybinding) (p : Bytes)
    → Ensures (Result bs) (at_bracket m keysym_of bs p)
unfolding read_bindings
at_bracket-Ensures m keysym_of bs [] = tt
at_bracket-Ensures m keysym_of bs (x ∷ xs) = elim (Bool-cases (x == 0)) [
  | inl e ↦ rw (e) (Extends-refl bs)
  | inr e ↦ rw (e) (
      loop-Descends (Grown bs) text_length (Result bs) (binding_round m keysym_of)
        (binding_round-Reads m keysym_of bs) (suc (length xs)) (xs, bs) (omega arith)
        (Extends-refl bs))
]

read_buffer-Ensures :
    (m : Memory) (keysym_of : Bytes → ℕ) (buf : Bytes) (bs : List Keybinding)
    → Ensures (Result bs) (read_buffer m keysym_of buf bs)
unfolding read_buffer
read_buffer-Ensures m keysym_of buf bs =
    elim (Option-cases (string_after_match (quoted key_bindings) buf)) [
      | inl e ↦ rw (e, read_buffer) (Extends-refl bs)
      | inr (rest, e) ↦
          rw (e, read_buffer)
            (bind-Ensures (NoLonger rest) _ (skip_to b'[' rest) _ (skip_to-NoLonger b'[' rest)
              (λ p k. at_bracket-Ensures m keysym_of bs p))
    ]

-- Whatever the file holds and whatever memory there is, zen_keybinds_load_config does not run out
-- of the fuel of its loops, and when it returns, with success or not, the earlier bindings are
-- there still and in front.
pub load_config-Ensures :
    (m : Memory) (keysym_of : Bytes → ℕ) (file : Option ConfigFile) (bs : List Keybinding)
    → Ensures (λ r. Extends bs r.1) (load_config m keysym_of file bs)
unfolding load_config
load_config-Ensures m keysym_of none bs = Extends-refl bs
load_config-Ensures m keysym_of (some f) bs =
    ground (arith, read_buffer-Ensures m keysym_of (f.contents ++ 0 ∷ []) bs, Extends-refl bs)
