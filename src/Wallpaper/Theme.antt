-- ===== src/Wallpaper/Theme.antt =====
-- src/compositor/src/wallpaper.c: the search for the wallpaper's path in a buffer that ends in a NUL.
use zen_os.Base.{
  ℕ, Bool, true, false, not, ◌&&◌, ◌||◌, Option, none, some, [], ◌∷◌, ◌++◌, Bytes, ◌≡◌, refl, arith,
  ltb, ◌==◌, if◌then◌else◌, length, inl, inr, Bool-cases, Option-cases,
}
use zen_os.Base.Scan.{
  Scan, done, fault, no_fuel, ◌>>=◌, is_blank, skip_blanks, strip_prefix, string_after_match,
  or_later,
}
use zen_os.Wallpaper.{
  value, quoted_value, colon_value, path_key, find_path, cons, copied, parse_wallpaper_path,
}
use zen_os.Keybinds.Fields.{Memory}
use zen_os.Keybinds.Config.{ConfigFile}
use zen_os.Base.Int.{pos_part, is_pos}

abbrev pub ends_in_nul : Bytes → Bool
ends_in_nul [] = false
ends_in_nul (x ∷ []) = x == 0
ends_in_nul (x ∷ y ∷ r) = ends_in_nul (y ∷ r)

abbrev pub Returns : Scan (Option Bytes) → Type 0
Returns (done o) = Unit {0}
Returns fault = ⊥
Returns no_fuel = ⊥

cons-Returns : (x : ℕ) (s : Scan (Option Bytes)) → Returns s → Returns (cons x s)
cons-Returns x (done o) h = tt
cons-Returns x fault h = absurd h
cons-Returns x no_fuel h = absurd h

ends_behind :
    (y : ℕ) (r : Bytes) → ends_in_nul (y ∷ r) ≡ true → (y == 0) ≡ false → ends_in_nul r ≡ true
ends_behind y [] h n = absurd (cc)
ends_behind y (x ∷ r) h n = h

either :
    (b : Bool) (s t : Scan (Option Bytes))
    → (b ≡ true → Returns s)
    → (b ≡ false → Returns t)
    → Returns (if b then s else t)
either true s t h k = h refl
either false s t h k = k refl

value-Returns : (p : Bytes) → ends_in_nul p ≡ true → Returns (value p)
unfolding value
value-Returns [] h = absurd (cc)
value-Returns (x ∷ []) h = rw (h, value) tt
value-Returns (x ∷ y ∷ r) h =
    either (x == 0) _ _ (λ e. tt)
      (λ e.
        either (x == b'"') _ _ (λ f. tt)
          (λ f.
            either (x == b'\\') _ _
              (λ g.
                either (y == 0) _ _ (λ i. tt)
                  (λ i.
                    cons-Returns x _ (cons-Returns y _ (value-Returns r (ends_behind y r h i)))))
              (λ g. cons-Returns x _ (value-Returns (y ∷ r) h))))

-- A blank, a colon and a quote are no NUL, so what stands behind them ends in one, too.
skip_blanks-ends : (p : Bytes) → ends_in_nul p ≡ true → ends_in_nul (skip_blanks p) ≡ true
unfolding skip_blanks
skip_blanks-ends [] h = h
skip_blanks-ends (x ∷ p) h = elim (Bool-cases (is_blank x)) [
  | inl e ↦ rw (e, skip_blanks) (skip_blanks-ends p (ends_behind x p h (ground (arith, e))))
  | inr e ↦ rw (e, skip_blanks) h
]

quoted_value-Returns : (p : Bytes) → ends_in_nul p ≡ true → Returns (quoted_value p)
unfolding quoted_value
quoted_value-Returns [] h = absurd (cc)
quoted_value-Returns (x ∷ p) h =
    either (not (x == b'"')) _ _ (λ e. tt)
      (λ e. value-Returns p (ends_behind x p h (ground (arith, e))))

colon_value-Returns : (p : Bytes) → ends_in_nul p ≡ true → Returns (colon_value p)
unfolding colon_value
colon_value-Returns [] h = absurd (cc)
colon_value-Returns (x ∷ p) h =
    either (not (x == b':')) _ _ (λ e. tt)
      (λ e.
        quoted_value-Returns (skip_blanks p)
          (skip_blanks-ends p (ends_behind x p h (ground (arith, e)))))

no_nul : Bytes → Bool
no_nul [] = true
no_nul (x ∷ xs) = not (x == 0) && no_nul xs

-- A rest of the text, if there is one, ends in a NUL.
abbrev RestEnds : Option Bytes → Type 0
RestEnds none = Unit {0}
RestEnds (some r) = ends_in_nul r ≡ true

strip_prefix-RestEnds :
    (xs ys : Bytes) → no_nul xs ≡ true → ends_in_nul ys ≡ true → RestEnds (strip_prefix xs ys)
unfolding strip_prefix no_nul
strip_prefix-RestEnds [] ys n h = h
strip_prefix-RestEnds (x ∷ xs) [] n h = tt
strip_prefix-RestEnds (x ∷ xs) (y ∷ ys) n h = elim (Bool-cases (x == y)) [
  | inl e ↦
      rw (e, strip_prefix)
        (strip_prefix-RestEnds xs ys (ground (arith, n))
          (ends_behind y ys h (ground (arith, n, e))))
  | inr e ↦ rw (e, strip_prefix) tt
]

string_after_match-RestEnds :
    (xs ys : Bytes) → no_nul xs ≡ true → ends_in_nul ys ≡ true → RestEnds (string_after_match xs ys)
unfolding string_after_match
string_after_match-RestEnds xs [] n h = tt
string_after_match-RestEnds xs (y ∷ ys) n h = elim (Bool-cases (y == 0)) [
  | inl e ↦ rw (e, string_after_match) tt
  | inr e ↦
      rw (e, string_after_match)
        (later (strip_prefix xs (y ∷ ys)) (string_after_match xs ys)
          (strip_prefix-RestEnds xs (y ∷ ys) n h)
          (string_after_match-RestEnds xs ys n (ends_behind y ys h e)))
]
  where
    later : (a b : Option Bytes) → RestEnds a → RestEnds b → RestEnds (or_later a b)
    later none b h k = k
    later (some r) b h k = h

find_path-Returns : (buf : Bytes) → ends_in_nul buf ≡ true → Returns (find_path buf)
unfolding find_path no_nul
find_path-Returns buf h = elim (Option-cases (string_after_match path_key buf)) [
  | inl e ↦ rw (e, find_path) tt
  | inr (rest, e) ↦
      rw (e, find_path)
        (colon_value-Returns (skip_blanks rest)
          (skip_blanks-ends rest (rw (e) at (string_after_match-RestEnds path_key buf refl h))))
]

ends_in_nul-append : (xs : Bytes) → ends_in_nul (xs ++ 0 ∷ []) ≡ true
ends_in_nul-append [] = refl
ends_in_nul-append (x ∷ []) = refl
ends_in_nul-append (x ∷ y ∷ xs) = ends_in_nul-append (y ∷ xs)

copied-Returns :
    (m : Memory) (s : Scan (Option Bytes)) → Returns s → Returns (s >>= λ o. done (copied m o))
copied-Returns m (done o) h = tt
copied-Returns m fault h = absurd h
copied-Returns m no_fuel h = absurd h

-- Whatever the file holds, and whatever memory there is, parse_wallpaper_path_from_theme returns,
-- and never reads behind its buffer.
pub parse_wallpaper_path-Returns :
    (m : Memory) (file : Option ConfigFile) → Returns (parse_wallpaper_path m file)
unfolding parse_wallpaper_path
parse_wallpaper_path-Returns m none = tt
parse_wallpaper_path-Returns m (some f) =
    either (not (is_pos f.size) || ltb 65536 (pos_part f.size)) _ _ (λ e. tt)
      (λ e.
        either (not (m.buffer f.size) || not (length f.contents == pos_part f.size)) _ _ (λ g. tt)
          (λ g.
            copied-Returns m _
              (find_path-Returns (f.contents ++ 0 ∷ []) (ends_in_nul-append f.contents))))
