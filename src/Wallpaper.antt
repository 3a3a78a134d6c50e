-- ===== src/Wallpaper.antt =====
-- src/compositor/src/wallpaper.c: the path of the wallpaper in ~/.config/zenos/theme.json.
pub mod Path
pub mod Theme
pub mod Outputs
use zen_os.Base.{
  ℕ, Bool, true, false, not, ◌||◌, Option, none, some, [], ◌∷◌, ◌++◌, Bytes, ltb, ◌==◌,
  if◌then◌else◌, length,
}
use zen_os.Base.Int.{ℤ, pos_part, is_pos}
use zen_os.Keybinds.Fields.{Memory}
use zen_os.Keybinds.Config.{ConfigFile}
use zen_os.Base.Scan.{Scan, done, fault, ◌>>=◌, skip_blanks, string_after_match}

-- The value behind an opening quote, up to the closing one; none, if the text ends before it. A
-- backslash takes the next character with it.
abbrev cons : ℕ → Scan (Option Bytes) → Scan (Option Bytes)
cons x s = s >>= λ o. done (elim o [ none ↦ none | some v ↦ some (x ∷ v) ])

unfoldable pub value : Bytes → Scan (Option Bytes)
value [] = fault
value (x ∷ []) = if x == 0 then done none else if x == b'"' then done (some []) else fault
value (x ∷ y ∷ r) =
    let next = value (y ∷ r) in
    let after_escape = value r in
    if x == 0
    then done none
    else if x == b'"'
    then done (some [])
    else if x == b'\\'
    then if y == 0 then done none else cons x (cons y after_escape)
    else cons x next

-- The quote in front of the value. A blank is not a NUL, so the skips before it stay in the buffer.
quoted_value : Bytes → Scan (Option Bytes)
unfolding value
quoted_value [] = fault
quoted_value (x ∷ p) = if not (x == b'"') then done none else value p

-- The colon behind the key.
colon_value : Bytes → Scan (Option Bytes)
unfolding quoted_value skip_blanks
colon_value [] = fault
colon_value (x ∷ p) = if not (x == b':') then done none else quoted_value (skip_blanks p)

-- The key, behind its opening quote.
abbrev pub path_key_tail : Bytes
path_key_tail =
    b'w' ∷ b'a' ∷ b'l' ∷ b'l' ∷ b'p' ∷ b'a' ∷ b'p' ∷ b'e' ∷ b'r' ∷ b'_' ∷ b'p' ∷ b'a' ∷ b't' ∷ b'h'
    ∷ b'"' ∷ []

abbrev pub path_key : Bytes
path_key = b'"' ∷ path_key_tail

-- The search in the buffer.
unfoldable pub find_path : Bytes → Scan (Option Bytes)
unfolding colon_value skip_blanks string_after_match
find_path buf = elim (string_after_match path_key buf) [
  | none ↦ done none
  | some rest ↦ colon_value (skip_blanks rest)
]

abbrev copied : Memory → Option Bytes → Option Bytes
copied m none = none
copied m (some v) = m.copy v

-- parse_wallpaper_path_from_theme. There is no file if HOME is not set, the memory for its path runs
-- out, or it cannot be opened.
unfoldable pub parse_wallpaper_path : Memory → Option ConfigFile → Scan (Option Bytes)
parse_wallpaper_path m none = done none
parse_wallpaper_path m (some f) =
    if not (is_pos f.size) || ltb 65536 (pos_part f.size)
    then done none
    else if not (m.buffer f.size) || not (length f.contents == pos_part f.size)
    then done none
    else (find_path (f.contents ++ 0 ∷ []) >>= λ o. done (copied m o))
