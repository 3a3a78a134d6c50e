-- ===== src/Base/Texts.antt =====
-- What the loops of Base.Scan find in a text that is put together from known parts.
use Prim.Native.Nat.{ℕ}
use mathlib.Core.Path.{◌≡◌, refl}
use mathlib.Core.Logic.{◌⊎◌, inl, inr}
use mathlib.Core.Bool.{Bool, true, false, not, ◌&&◌, ◌||◌}
use mathlib.Core.List.{List, [], ◌∷◌, ◌++◌}
use mathlib.Core.Option.{none, some}
use native.Mathlib.Omega.{arith}
use zen_os.Base.Tests.{◌==◌, Bool-cases}
use zen_os.Base.Scan.{
  done, is_blank, is_separator, skip_to, skip_blanks, skip_separators, strip_prefix,
  string_after_match,
}

-- No quote and no NUL.
abbrev pub quoteless : List ℕ → Bool
quoteless [] = true
quoteless (x ∷ xs) = not (x == 0 || x == b'"') && quoteless xs

abbrev pub blank : List ℕ → Bool
blank [] = true
blank (x ∷ xs) = is_blank x && blank xs

-- Blanks and commas only.
unfoldable pub all_separators : List ℕ → Bool
all_separators [] = true
all_separators (x ∷ xs) = is_separator x && all_separators xs

pub strip_prefix-append : (xs r : List ℕ) → strip_prefix xs (xs ++ r) ≡ some r
unfolding strip_prefix
strip_prefix-append [] r = refl
strip_prefix-append (x ∷ xs) r = ground (arith, strip_prefix-append xs r)

pub skip_blanks-append :
    (b : List ℕ) (x : ℕ) (r : List ℕ)
    → blank b ≡ true
    → is_blank x ≡ false
    → skip_blanks (b ++ x ∷ r) ≡ x ∷ r
unfolding skip_blanks
skip_blanks-append [] x r h n = rw (n, skip_blanks)
skip_blanks-append (y ∷ b) x r h n = ground (arith, skip_blanks-append b x r)

pub skip_separators-append :
    (seps : List ℕ) (x : ℕ) (r : List ℕ)
    → all_separators seps ≡ true
    → is_separator x ≡ false
    → skip_separators (seps ++ x ∷ r) ≡ done (x ∷ r)
unfolding skip_separators all_separators
skip_separators-append [] x r h n = rw (n, skip_separators)
skip_separators-append (y ∷ seps) x r h n = ground (arith, skip_separators-append seps x r)

-- No NUL and no opening bracket.
abbrev pub bracketless : List ℕ → Bool
bracketless [] = true
bracketless (x ∷ xs) = not (x == 0 || x == b'[') && bracketless xs

pub skip_to-append :
    (s r : List ℕ) → bracketless s ≡ true → skip_to b'[' (s ++ b'[' ∷ r) ≡ done (b'[' ∷ r)
unfolding skip_to
skip_to-append [] r h = refl
skip_to-append (x ∷ s) r h = ground (arith, skip_to-append s r)

pub string_after_match-append :
    (pre ks r : List ℕ)
    → quoteless pre ≡ true
    → string_after_match (b'"' ∷ ks) (pre ++ (b'"' ∷ (ks ++ r))) ≡ some r
unfolding string_after_match strip_prefix
string_after_match-append [] ks r h = rw (strip_prefix-append ks r) refl
string_after_match-append (x ∷ pre) ks r h = ground (arith, string_after_match-append pre ks r)

-- A name and its closing quote match a token and its closing quote as a whole or not at all.
pub strip_prefix_quoted :
    (name tok r : List ℕ)
    → quoteless name ≡ true
    → quoteless tok ≡ true
    → (strip_prefix (name ++ b'"' ∷ []) (tok ++ b'"' ∷ r) ≡ none)
      ⊎ (strip_prefix (name ++ b'"' ∷ []) (tok ++ b'"' ∷ r) ≡ some r)
unfolding strip_prefix
strip_prefix_quoted [] [] r h k = inr refl
strip_prefix_quoted [] (y ∷ tok) r h k = inl (ground arith)
strip_prefix_quoted (x ∷ name) [] r h k = inl (ground arith)
strip_prefix_quoted (x ∷ name) (y ∷ tok) r h k = elim (Bool-cases (x == y)) [
  | inl e ↦ rw (e, strip_prefix) (strip_prefix_quoted name tok r (ground arith) (ground arith))
  | inr e ↦ inl (rw (e, strip_prefix))
]
