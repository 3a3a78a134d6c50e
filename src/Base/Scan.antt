-- ===== src/Base/Scan.antt =====
-- Loops over a text with a pointer. A pointer is what is left of the buffer from there on; a scan
-- can read behind the end of the buffer, which is a fault.
use Prim.Native.Nat.{ℕ, zero, suc, ◌+◌, ◌<◌, ◌≤◌}
use mathlib.Core.Path.{◌≡◌}
use mathlib.Core.Logic.{◌≢◌}
use mathlib.Core.Bool.{Bool, ◌||◌}
use mathlib.Core.List.{List, [], ◌∷◌}
use mathlib.Core.Option.{Option, none, some}
use native.Mathlib.Omega.{arith}
use zen_os.Base.Tests.{◌==◌, if◌then◌else◌}
use zen_os.Base.Lists.{length}

pub data Scan {ℓ} (A : Type ℓ) : Type ℓ where
  done : A → Scan A
  fault : Scan A
  no_fuel : Scan A

infixl 5 ◌>>=◌
abbrev pub ◌>>=◌ {ℓ κ} : {A : Type ℓ} {B : Type κ} → Scan A → (A → Scan B) → Scan B
done a >>= f = f a
fault >>= f = fault
no_fuel >>= f = no_fuel

-- What a round of a loop decides.
pub data Next {ℓ κ} (S : Type ℓ) (A : Type κ) : Type (ℓ ⊔ κ) where
  again : S → Next S A
  stop : A → Next S A

-- A scan ends within its fuel, and what it returns has a property.
abbrev pub Ensures {ℓ} : {A : Type ℓ} → (A → Type 0) → Scan A → Type 0
Ensures P (done a) = P a
Ensures P fault = Unit
Ensures P no_fuel = ⊥

pub bind-Ensures {ℓ κ} :
    {A : Type ℓ} {B : Type κ} (P : A → Type 0) (Q : B → Type 0) (s : Scan A) (k : A → Scan B)
    → Ensures P s
    → ((a : A) → P a → Ensures Q (k a))
    → Ensures Q (s >>= k)
bind-Ensures P Q (done a) k h f = f a h
bind-Ensures P Q fault k h f = tt
bind-Ensures P Q no_fuel k h f = absurd h

pub Ensures-ends {ℓ} : {A : Type ℓ} (P : A → Type 0) (s : Scan A) → Ensures P s → s ≢ no_fuel
Ensures-ends P (done a) h e = cc
Ensures-ends P fault h e = cc
Ensures-ends P no_fuel h e = absurd h

module _ {S A : Type 0} where
  abbrev follow : (S → Scan A) → Scan (Next S A) → Scan A
  follow rest (done (again t)) = rest t
  follow rest (done (stop a)) = done a
  follow rest fault = fault
  follow rest no_fuel = no_fuel

  -- At most that many rounds.
  unfoldable pub loop : ℕ → (S → Scan (Next S A)) → S → Scan A
  loop zero round s = no_fuel
  loop (suc n) round s = follow (loop n round) (round s)

  -- What a round may decide, if a measure is to fall and the result is to have a property.
  abbrev pub Falls : (S → ℕ) → (A → Type 0) → ℕ → Next S A → Type 0
  Falls measure P m (again t) = measure t < m
  Falls measure P m (stop a) = P a

  follow_ends :
      (measure : S → ℕ) (P : A → Type 0) (rest : S → Scan A) (r : Scan (Next S A)) (m : ℕ)
      → ((t : S) → measure t < m → Ensures P (rest t))
      → Ensures (Falls measure P m) r
      → Ensures P (follow rest r)
  follow_ends measure P rest (done (again t)) m ends f = ends t f
  follow_ends measure P rest (done (stop a)) m ends f = f
  follow_ends measure P rest fault m ends f = tt
  follow_ends measure P rest no_fuel m ends f = f

  -- A loop whose measure falls ends within its fuel.
  pub loop_ends :
      (measure : S → ℕ) (P : A → Type 0) (round : S → Scan (Next S A))
      → ((s : S) → Ensures (Falls measure P (measure s)) (round s))
      → (n : ℕ) (s : S) → measure s < n
      → Ensures P (loop n round s)
  unfolding loop
  loop_ends measure P round falls zero s h = absurd (omega arith)
  loop_ends measure P round falls (suc n) s h =
      follow_ends measure P (loop n round) (round s) (measure s)
        (λ t f. loop_ends measure P round falls n t (omega arith)) (falls s)

  -- The same, if an invariant of the state holds, too.
  abbrev pub Descends : (S → Type 0) → (S → ℕ) → (A → Type 0) → ℕ → Next S A → Type 0
  Descends inv measure P m (again t) = (measure t < m) × inv t
  Descends inv measure P m (stop a) = P a

  follow-Descends :
      (inv : S → Type 0) (measure : S → ℕ) (P : A → Type 0) (rest : S → Scan A)
      (r : Scan (Next S A)) (m : ℕ)
      → ((t : S) → measure t < m → inv t → Ensures P (rest t))
      → Ensures (Descends inv measure P m) r
      → Ensures P (follow rest r)
  follow-Descends inv measure P rest (done (again t)) m ends (f, i) = ends t f i
  follow-Descends inv measure P rest (done (stop a)) m ends f = f
  follow-Descends inv measure P rest fault m ends f = tt
  follow-Descends inv measure P rest no_fuel m ends f = f

  -- A loop whose measure falls while an invariant holds ends within its fuel.
  pub loop-Descends :
      (inv : S → Type 0) (measure : S → ℕ) (P : A → Type 0) (round : S → Scan (Next S A))
      → ((s : S) → inv s → Ensures (Descends inv measure P (measure s)) (round s))
      → (n : ℕ) (s : S) → measure s < n
      → inv s
      → Ensures P (loop n round s)
  unfolding loop
  loop-Descends inv measure P round falls zero s h i = absurd (omega arith)
  loop-Descends inv measure P round falls (suc n) s h i =
      follow-Descends inv measure P (loop n round) (round s) (measure s)
        (λ t f j. loop-Descends inv measure P round falls n t (omega arith) j) (falls s i)

-- The character at the pointer.
abbrev pub peek : List ℕ → Scan ℕ
peek [] = fault
peek (c ∷ cs) = done c

-- The pointer, one further. (It is used behind a `peek`.)
abbrev pub advance : List ℕ → List ℕ
advance [] = []
advance (c ∷ cs) = cs

abbrev pub is_blank : ℕ → Bool
is_blank c = c == b' ' || c == b'\t' || c == b'\n' || c == b'\r'

-- `while (*p && *p != c) p++`
unfoldable pub skip_to : ℕ → List ℕ → Scan (List ℕ)
skip_to c [] = fault
skip_to c (x ∷ xs) = if x == 0 || x == c then done (x ∷ xs) else skip_to c xs

abbrev pub is_separator : ℕ → Bool
is_separator c = is_blank c || c == b','

-- `while (*p is a blank or a comma) p++`
unfoldable pub skip_separators : List ℕ → Scan (List ℕ)
skip_separators [] = fault
skip_separators (x ∷ xs) = if is_separator x then skip_separators xs else done (x ∷ xs)

-- `while (pos < end && *pos is a blank) pos++`, in a text that ends at `end`.
unfoldable pub skip_blanks : List ℕ → List ℕ
skip_blanks [] = []
skip_blanks (x ∷ xs) = if is_blank x then skip_blanks xs else x ∷ xs

-- What follows a prefix.
unfoldable pub strip_prefix : List ℕ → List ℕ → Option (List ℕ)
strip_prefix [] ys = some ys
strip_prefix (x ∷ xs) [] = none
strip_prefix (x ∷ xs) (y ∷ ys) = if x == y then strip_prefix xs ys else none

abbrev pub or_later : Option (List ℕ) → Option (List ℕ) → Option (List ℕ)
or_later none b = b
or_later (some a) b = some a

-- memmem: what follows the first place where the pattern stands in the text.
unfoldable pub after_match : List ℕ → List ℕ → Option (List ℕ)
unfolding strip_prefix
after_match pattern_ [] = none
after_match pattern_ (x ∷ xs) = or_later (strip_prefix pattern_ (x ∷ xs)) (after_match pattern_ xs)

-- strstr: the same in a C string, which ends at its NUL.
unfoldable pub string_after_match : List ℕ → List ℕ → Option (List ℕ)
unfolding strip_prefix
string_after_match pattern_ [] = none
string_after_match pattern_ (x ∷ xs) =
    let later = string_after_match pattern_ xs in
    if x == 0 then none else or_later (strip_prefix pattern_ (x ∷ xs)) later

-- What is left of a text after a step is no longer than it.
abbrev pub NoLonger : List ℕ → List ℕ → Type 0
NoLonger p q = length q ≤ length p

pub skip_to-NoLonger : (c : ℕ) (p : List ℕ) → Ensures (NoLonger p) (skip_to c p)
unfolding skip_to
skip_to-NoLonger c [] = tt
skip_to-NoLonger c (x ∷ xs) = ground (arith, skip_to-NoLonger c xs)

pub skip_separators-NoLonger : (p : List ℕ) → Ensures (NoLonger p) (skip_separators p)
unfolding skip_separators
skip_separators-NoLonger [] = tt
skip_separators-NoLonger (x ∷ xs) = ground (arith, skip_separators-NoLonger xs)

pub length-skip_blanks : (p : List ℕ) → length (skip_blanks p) ≤ length p
unfolding skip_blanks
length-skip_blanks [] = omega arith
length-skip_blanks (x ∷ xs) = ground (arith, length-skip_blanks xs)

pub length-strip_prefix :
    (xs ys : List ℕ) {r : List ℕ} → strip_prefix xs ys ≡ some r → length xs + length r ≡ length ys
unfolding strip_prefix
length-strip_prefix [] ys {r} h = ground arith
length-strip_prefix (x ∷ xs) [] {r} h = absurd (cc)
length-strip_prefix (x ∷ xs) (y ∷ ys) {r} h = ground (arith, length-strip_prefix xs ys {r = r})

pub length-after_match :
    (pattern_ xs : List ℕ) {r : List ℕ}
    → after_match pattern_ xs ≡ some r
    → length pattern_ + length r ≤ length xs
unfolding after_match
length-after_match pattern_ [] {r} h = absurd (cc)
length-after_match pattern_ (x ∷ xs) {r} h =
    ground
      (arith, length-strip_prefix pattern_ (x ∷ xs) {r = r}, length-after_match pattern_ xs {r = r})
