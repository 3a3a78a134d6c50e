-- ===== src/Keybinds/Fields/Ends.antt =====
-- src/compositor/src/keybinds.c: the fuel of the loops that read the fields of a binding object.
use zen_os.Base.{
  ℕ, suc, ◌≤◌, ◌<◌, ◌||◌, [], ◌∷◌, Bytes, arith, ◌==◌, length, inl, inr, Bool-cases, Option-cases,
  ◌++◌,
}
use zen_os.Base.Scan.{
  Ensures, bind-Ensures, Falls, loop_ends, NoLonger, skip_to, skip_separators, skip_to-NoLonger,
  skip_separators-NoLonger, length-skip_blanks, after_match, length-after_match, skip_blanks,
}
use zen_os.Keybinds.Fields.{
  Memory, token, modifier_token_end, read_token, parse_behind_bracket, modifier_token,
  skip_and_read, modifier_round, parse_modifiers_array, field_value, field_colon, field_round,
  extract_string_field, modifiers_colon, modifiers_field_round, extract_modifiers_field, quoted,
  key_modifiers,
}

-- Any result.
abbrev pub Any {ℓ} : {A : Type ℓ} → A → Type 0
Any a = Unit {0}

token-NoLonger : (p : Bytes) → Ensures (λ r. length r.1 ≤ length p) (token p)
unfolding token
token-NoLonger [] = tt
token-NoLonger (x ∷ xs) = elim (Bool-cases (x == 0 || x == b'"')) [
  | inl e ↦ rw (e, token) (omega arith)
  | inr e ↦
      rw (e, token)
        (bind-Ensures (λ r. length r.1 ≤ length xs) _ (token xs) _ (token-NoLonger xs)
          (λ r h. omega arith))
]

abbrev rest_length : ℕ × Bytes → ℕ
rest_length s = length s.1

modifier_token-Falls :
    (mods : ℕ) (p : Bytes) (n : ℕ)
    → length p < n
    → Ensures (Falls rest_length Any n) (modifier_token mods p)
unfolding modifier_token
modifier_token-Falls mods p n h =
    bind-Ensures (λ r. length r.1 ≤ length p) _ (token p) _ (token-NoLonger p) ends
  where
    ends :
        (r : Bytes × Bytes)
        → length r.1 ≤ length p
        → Ensures (Falls rest_length Any n) (modifier_token_end mods r.0 r.1)
    ends (t, []) k = tt
    ends (t, x ∷ q) k = ground arith

skip_and_read-Falls :
    (mods x : ℕ) (xs : Bytes)
    → Ensures (Falls rest_length Any (length (x ∷ xs))) (skip_and_read mods (x ∷ xs))
unfolding skip_and_read
skip_and_read-Falls mods x xs =
    bind-Ensures (NoLonger (x ∷ xs)) _ (skip_separators (x ∷ xs)) _
      (skip_separators-NoLonger (x ∷ xs)) ends
  where
    ends :
        (q : Bytes)
        → NoLonger (x ∷ xs) q
        → Ensures (Falls rest_length Any (length (x ∷ xs))) (read_token mods q)
    ends [] k = tt
    ends (y ∷ q) k = ground (arith, modifier_token-Falls mods q (length (x ∷ xs)))

modifier_round-Falls :
    (s : ℕ × Bytes) → Ensures (Falls rest_length Any (rest_length s)) (modifier_round s)
unfolding modifier_round
modifier_round-Falls (mods, []) = tt
modifier_round-Falls (mods, x ∷ xs) = ground (arith, skip_and_read-Falls mods x xs)

pub parse_modifiers_array-Ensures : (p : Bytes) → Ensures Any (parse_modifiers_array p)
unfolding parse_modifiers_array
parse_modifiers_array-Ensures p =
    bind-Ensures (NoLonger p) _ (skip_to b'[' p) _ (skip_to-NoLonger b'[' p) ends
  where
    ends : (q : Bytes) → NoLonger p q → Ensures Any (parse_behind_bracket q)
    ends [] k = tt
    ends (x ∷ q) k = ground (
      arith,
      loop_ends rest_length Any modifier_round modifier_round-Falls (suc (length q)) (0, q),
    )

field_value-Falls :
    (m : Memory) (p : Bytes) (n : ℕ) → length p < n → Falls length Any n (field_value m p)
unfolding field_value
field_value-Falls m [] n h = h
field_value-Falls m (x ∷ xs) n h = ground (arith)

field_colon-Falls :
    (m : Memory) (p : Bytes) (n : ℕ) → length p < n → Falls length Any n (field_colon m p)
unfolding field_colon
field_colon-Falls m [] n h = h
field_colon-Falls m (x ∷ xs) n h =
    ground (arith, field_value-Falls m (skip_blanks xs) n, length-skip_blanks xs)

field_round-Falls :
    (m : Memory) (k : ℕ) (key p : Bytes)
    → Ensures (Falls length Any (length p)) (field_round m (k ∷ key) p)
unfolding field_round
field_round-Falls m k key [] = tt
field_round-Falls m k key (x ∷ xs) = elim (Option-cases (after_match (k ∷ key) (x ∷ xs))) [
  | inl e ↦ rw (e, field_round) tt
  | inr (r, e) ↦
      rw (e, field_round)
        (field_colon-Falls m (skip_blanks r) (length (x ∷ xs))
          (ground (arith, length-after_match (k ∷ key) (x ∷ xs) {r = r}, length-skip_blanks r)))
]

pub extract_string_field-Ensures :
    (m : Memory) (object key : Bytes) → Ensures Any (extract_string_field m object key)
unfolding extract_string_field
extract_string_field-Ensures m object key =
    loop_ends length Any (field_round m (quoted key)) (field_round-Falls m b'"' (key ++ b'"' ∷ []))
      (suc (length object)) object (omega arith)

modifiers_colon-Falls :
    (beyond p : Bytes) (n : ℕ)
    → length p < n
    → Ensures (Falls length Any n) (modifiers_colon beyond p)
unfolding modifiers_colon
modifiers_colon-Falls beyond [] n h = h
modifiers_colon-Falls beyond (x ∷ xs) n h = elim (Bool-cases (x == b':')) [
  | inl e ↦
      rw (e, modifiers_colon)
        (bind-Ensures Any _ (parse_modifiers_array (xs ++ beyond)) _
          (parse_modifiers_array-Ensures (xs ++ beyond)) (λ r k. tt))
  | inr e ↦ rw (e, modifiers_colon) h
]

modifiers_field_round-Falls :
    (beyond p : Bytes) → Ensures (Falls length Any (length p)) (modifiers_field_round beyond p)
unfolding modifiers_field_round
modifiers_field_round-Falls beyond [] = tt
modifiers_field_round-Falls beyond (x ∷ xs) =
    elim (Option-cases (after_match (quoted key_modifiers) (x ∷ xs))) [
      | inl e ↦ rw (e, modifiers_field_round) tt
      | inr (r, e) ↦
          rw (e, modifiers_field_round)
            (modifiers_colon-Falls beyond (skip_blanks r) (length (x ∷ xs)) (
              ground (
                arith,
                length-after_match (quoted key_modifiers) (x ∷ xs) {r = r},
                length-skip_blanks r,
              )))
    ]

pub extract_modifiers_field-Ensures :
    (object beyond : Bytes) → Ensures Any (extract_modifiers_field object beyond)
unfolding extract_modifiers_field
extract_modifiers_field-Ensures object beyond =
    loop_ends length Any (modifiers_field_round beyond) (modifiers_field_round-Falls beyond)
      (suc (length object)) object (omega arith)
