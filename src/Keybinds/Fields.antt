-- ===== src/Keybinds/Fields.antt =====
-- The part of src/compositor/src/keybinds.c that reads the fields of a binding object. Pointers into
-- the buffer are what is left of it from there on; `object` is what lies between obj_start and
-- obj_end, and `beyond` is what follows it.
pub mod Array
pub mod Ends
pub mod Found
pub mod Passed
use zen_os.Base.{
  ℕ, suc, ◌+◌, Bool, true, false, not, ◌&&◌, ◌||◌, Option, none, some, [], ◌∷◌, ◌++◌, Bytes, leb,
  ◌==◌, if◌then◌else◌, length, bit_or, List,
}
use zen_os.Base.Int.{ℤ}
use zen_os.Base.Scan.{
  Scan, done, fault, ◌>>=◌, Next, again, stop, loop, peek, advance, skip_to, skip_separators,
  skip_blanks, after_match,
}

-- WLR_MODIFIER_*
abbrev pub modifier_shift : ℕ
modifier_shift = 1

abbrev pub modifier_ctrl : ℕ
modifier_ctrl = 4

abbrev pub modifier_alt : ℕ
modifier_alt = 8

abbrev pub modifier_logo : ℕ
modifier_logo = 64

-- The allocator: a copy of a string, a binding (by how many there are), the file's buffer.
pub record Memory : Type 0 where
  pub copy : Bytes → Option Bytes
  pub binding : ℕ → Bool
  pub buffer : ℤ → Bool

abbrev lower : ℕ → ℕ
lower c = if leb b'A' c && leb c b'Z' then c + 32 else c

-- `len == n && strncasecmp(tok, name, n) == 0`
unfoldable pub is_word : Bytes → Bytes → Bool
is_word [] [] = true
is_word (x ∷ xs) (y ∷ ys) = lower x == lower y && is_word xs ys
is_word _ _ = false

abbrev word_ctrl : Bytes
word_ctrl = b'c' ∷ b't' ∷ b'r' ∷ b'l' ∷ []

abbrev word_alt : Bytes
word_alt = b'a' ∷ b'l' ∷ b't' ∷ []

abbrev word_super : Bytes
word_super = b's' ∷ b'u' ∷ b'p' ∷ b'e' ∷ b'r' ∷ []

abbrev word_shift : Bytes
word_shift = b's' ∷ b'h' ∷ b'i' ∷ b'f' ∷ b't' ∷ []

unfoldable pub parse_modifier_token : Bytes → ℕ
unfolding is_word
parse_modifier_token tok =
    if is_word tok word_ctrl
    then modifier_ctrl
    else if is_word tok word_alt
    then modifier_alt
    else if is_word tok word_super
    then modifier_logo
    else if is_word tok word_shift
    then modifier_shift
    else 0

-- `while (*p && *p != '"') p++`, with what it walks over.
unfoldable pub token : Bytes → Scan (Bytes × Bytes)
token [] = fault
token (x ∷ xs) =
    let rest = token xs in
    if x == 0 || x == b'"' then done ([], x ∷ xs) else (rest >>= λ (t, p). done (x ∷ t, p))

-- Behind a token: its modifier, and the closing quote if there is one.
abbrev modifier_token_end : ℕ → Bytes → Bytes → Scan (Next (ℕ × Bytes) ℕ)
modifier_token_end mods tok q = do
  c ← peek q
  done (again (bit_or mods (parse_modifier_token tok), if c == b'"' then advance q else q))

-- Behind the opening quote of a token.
modifier_token : ℕ → Bytes → Scan (Next (ℕ × Bytes) ℕ)
unfolding token
modifier_token mods p = do (tok, q) ← token p; modifier_token_end mods tok q

-- The rest of a round, behind the separators. (`p++` goes on at a NUL, too.)
abbrev read_token : ℕ → Bytes → Scan (Next (ℕ × Bytes) ℕ)
read_token mods q = do
  d ← peek q
  if d == b']'
      then done (stop mods)
      else if not (d == b'"')
      then done (again (mods, advance q))
      else modifier_token mods (advance q)

-- The rest of a round, behind the test of the loop.
skip_and_read : ℕ → Bytes → Scan (Next (ℕ × Bytes) ℕ)
unfolding modifier_token skip_separators
skip_and_read mods p = do q ← skip_separators p; read_token mods q

-- A round of the loop of parse_modifiers_array.
modifier_round : ℕ × Bytes → Scan (Next (ℕ × Bytes) ℕ)
unfolding skip_and_read
modifier_round (mods, p) = do
  c ← peek p
  if c == 0 || c == b']' then done (stop mods) else skip_and_read mods p

abbrev parse_behind_bracket : Bytes → Scan ℕ
parse_behind_bracket q = do
  c ← peek q
  if not (c == b'[') then done 0 else loop (suc (length (advance q))) modifier_round (0, advance q)

-- parse_modifiers_array
unfoldable pub parse_modifiers_array : Bytes → Scan ℕ
unfolding modifier_round loop skip_to
parse_modifiers_array p = do q ← skip_to b'[' p; parse_behind_bracket q

-- The value of a JSON string behind its opening quote, and what follows from its closing quote on.
-- A backslash takes the next character with it.
unfoldable pub string_value : Bytes → Bytes × Bytes
string_value [] = ([], [])
string_value (x ∷ []) = if x == b'"' then ([], x ∷ []) else (x ∷ [], [])
string_value (x ∷ y ∷ r) =
    let next = string_value (y ∷ r) in
    let after_escape = string_value r in
    if x == b'"'
    then ([], x ∷ y ∷ r)
    else if x == b'\\'
    then (x ∷ y ∷ after_escape.0, after_escape.1)
    else (x ∷ next.0, next.1)

-- What malloc and memcpy make of a value, if its closing quote was found.
abbrev closed : Memory → Bytes × Bytes → Option Bytes
closed m (value, []) = none
closed m (value, x ∷ rest) = m.copy value

-- Behind the colon of a field.
field_value : Memory → Bytes → Next Bytes (Option Bytes)
unfolding string_value
field_value m [] = again []
field_value m (x ∷ xs) =
    if not (x == b'"') then again (x ∷ xs) else stop (closed m (string_value xs))

-- Behind a match of the key.
unfoldable pub field_colon : Memory → Bytes → Next Bytes (Option Bytes)
unfolding field_value skip_blanks
field_colon m [] = again []
field_colon m (x ∷ xs) = if not (x == b':') then again (x ∷ xs) else field_value m (skip_blanks xs)

-- A round of the loop of extract_string_field.
pub field_round : Memory → Bytes → Bytes → Scan (Next Bytes (Option Bytes))
unfolding field_colon after_match
field_round m key [] = done (stop none)
field_round m key (x ∷ xs) = elim (after_match key (x ∷ xs)) [
  | none ↦ done (stop none)
  | some rest ↦ done (field_colon m (skip_blanks rest))
]

abbrev pub quoted : Bytes → Bytes
quoted key = b'"' ∷ (key ++ b'"' ∷ [])

-- extract_string_field. (The keys that it is called with fit into the pattern's 64 bytes.)
unfoldable pub extract_string_field : Memory → Bytes → Bytes → Scan (Option Bytes)
unfolding field_round loop
extract_string_field m object key = loop (suc (length object)) (field_round m (quoted key)) object

abbrev key_modifiers : Bytes
key_modifiers = b'm' ∷ b'o' ∷ b'd' ∷ b'i' ∷ b'f' ∷ b'i' ∷ b'e' ∷ b'r' ∷ b's' ∷ []

-- Behind a match of "modifiers". The array is looked for in the whole buffer.
modifiers_colon : Bytes → Bytes → Scan (Next Bytes ℕ)
unfolding parse_modifiers_array
modifiers_colon beyond [] = done (again [])
modifiers_colon beyond (x ∷ xs) =
    if not (x == b':')
    then done (again (x ∷ xs))
    else (parse_modifiers_array (xs ++ beyond) >>= λ mods. done (stop mods))

-- A round of the loop of extract_modifiers_field.
modifiers_field_round : Bytes → Bytes → Scan (Next Bytes ℕ)
unfolding modifiers_colon after_match skip_blanks
modifiers_field_round beyond [] = done (stop 0)
modifiers_field_round beyond (x ∷ xs) = elim (after_match (quoted key_modifiers) (x ∷ xs)) [
  | none ↦ done (stop 0)
  | some rest ↦ modifiers_colon beyond (skip_blanks rest)
]

-- extract_modifiers_field
unfoldable pub extract_modifiers_field : Bytes → Bytes → Scan ℕ
unfolding modifiers_field_round loop
extract_modifiers_field object beyond =
    loop (suc (length object)) (modifiers_field_round beyond) object
