-- ===== src/Keybinds/Fields/Array.antt =====
-- src/compositor/src/keybinds.c: parse_modifiers_array, and the texts it is to read.
use zen_os.Base.{
  ℕ, zero, suc, ◌<◌, Bool, true, false, ◌&&◌, ◌||◌, List, [], ◌∷◌, ◌++◌, Bytes, ◌≡◌, refl, arith,
  ◌==◌, length, bit_or, length-append, inl, inr, Bool-cases,
}
use zen_os.Base.Scan.{done, fault, again, loop, is_separator}
use zen_os.Base.Texts.{all_separators, quoteless, skip_separators-append}
use zen_os.Keybinds.Fields.{
  parse_modifier_token, token, modifier_token, skip_and_read, modifier_round, parse_modifiers_array,
}

-- A modifier in an array: what stands before it, and its name.
abbrev pub Item : Type 0
Item = Bytes × Bytes

unfoldable pub all_items : List Item → Bool
all_items [] = true
all_items ((seps, tok) ∷ ts) = all_separators seps && quoteless tok && all_items ts

-- The text of an array behind its bracket, and what follows.
unfoldable pub items : List Item → Bytes → Bytes
items [] rest = b']' ∷ rest
items ((seps, tok) ∷ ts) rest = seps ++ b'"' ∷ (tok ++ b'"' ∷ items ts rest)

unfoldable pub modifiers_of : ℕ → List Item → ℕ
modifiers_of mods [] = mods
modifiers_of mods ((seps, tok) ∷ ts) = modifiers_of (bit_or mods (parse_modifier_token tok)) ts

token-append :
    (tok : Bytes) (r : Bytes)
    → quoteless tok ≡ true
    → token (tok ++ b'"' ∷ r) ≡ done (tok, b'"' ∷ r)
unfolding token
token-append [] r h = refl
token-append (x ∷ tok) r h = elim (Bool-cases (x == 0 || x == b'"')) [
  | inl e ↦ absurd (ground arith)
  | inr e ↦ rw (e, token) (rw (token-append tok r (ground arith)) refl)
]

skip_and_read_item :
    (mods : ℕ) (seps tok more : Bytes)
    → all_separators seps ≡ true
    → quoteless tok ≡ true
    → skip_and_read mods (seps ++ b'"' ∷ (tok ++ b'"' ∷ more))
      ≡ done (again (bit_or mods (parse_modifier_token tok), more))
unfolding skip_and_read modifier_token
skip_and_read_item mods seps tok more h p =
    rw (skip_separators-append seps b'"' (tok ++ b'"' ∷ more) h refl, token-append tok more p) refl

separator_goes_on : (x : ℕ) → is_separator x ≡ true → (x == 0 || x == b']') ≡ false
separator_goes_on x h = ground arith

modifier_round_item :
    (mods : ℕ) (seps tok more : Bytes)
    → all_separators seps ≡ true
    → quoteless tok ≡ true
    → modifier_round (mods, seps ++ b'"' ∷ (tok ++ b'"' ∷ more))
      ≡ done (again (bit_or mods (parse_modifier_token tok), more))
unfolding modifier_round all_separators
modifier_round_item mods [] tok more h p = skip_and_read_item mods [] tok more h p
modifier_round_item mods (x ∷ seps) tok more h p =
    rw (separator_goes_on x (ground arith), modifier_round)
      (skip_and_read_item mods (x ∷ seps) tok more h p)

-- Each item takes one round.
read_items :
    (n mods : ℕ) (ts : List Item) (rest : Bytes)
    → all_items ts ≡ true
    → length ts < n
    → loop n modifier_round (mods, items ts rest) ≡ done (modifiers_of mods ts)
unfolding loop items modifiers_of all_items modifier_round
read_items zero mods ts rest h l = absurd (omega arith)
read_items (suc n) mods [] rest h l = refl
read_items (suc n) mods ((seps, tok) ∷ ts) rest h l =
    rw (modifier_round_item mods seps tok (items ts rest) (ground arith) (ground arith))
      (read_items n (bit_or mods (parse_modifier_token tok)) ts rest (ground arith) (omega arith))

length-items : (ts : List Item) (rest : Bytes) → length ts < length (items ts rest)
unfolding items
length-items [] rest = omega arith
length-items ((seps, tok) ∷ ts) rest = ground (
  arith,
  length-items ts rest,
  length-append seps (b'"' ∷ (tok ++ b'"' ∷ items ts rest)),
  length-append tok (b'"' ∷ items ts rest),
)

-- An array of names, each without NUL and quote and with any blanks and commas in front of it, is
-- read as the union of the bits of the names, whatever follows the array.
pub parse_modifiers_array-items :
    (ts : List Item) (rest : Bytes)
    → all_items ts ≡ true
    → parse_modifiers_array (b'[' ∷ items ts rest) ≡ done (modifiers_of 0 ts)
unfolding parse_modifiers_array
parse_modifiers_array-items ts rest h =
    read_items (suc (length (items ts rest))) 0 ts rest h (ground (arith, length-items ts rest))

-- A buffer that ends in the bracket of a modifiers array and at least one blank or comma is read
-- past its NUL.
pub parse_modifiers_array_past_end :
    (x : ℕ) (seps : Bytes)
    → all_separators (x ∷ seps) ≡ true
    → parse_modifiers_array (b'[' ∷ ((x ∷ seps) ++ 0 ∷ [])) ≡ fault
unfolding parse_modifiers_array modifier_round skip_and_read all_separators loop
parse_modifiers_array_past_end x seps h =
    rw (separator_goes_on x (ground arith), skip_separators-append (x ∷ seps) 0 [] h refl) refl
