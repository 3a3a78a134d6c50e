-- ===== src/Session/Lines.antt =====
-- What src/session/src/session.c uses of the C library: lines of stdin as strings.
use zen_os.Base.{
  ℕ, zero, suc, ◌+◌, ◌-◌, ◌<◌, Bool, true, false, Option, none, some, [], ◌∷◌, ◌++◌, Bytes, ◌≡◌,
  refl, ap, ◌==◌, if◌then◌else◌, length, arith, inl, inr, Bool-cases,
}

-- Up to n bytes, the last of them a newline if there is one.
unfoldable pub read_line : ℕ → Bytes → Bytes × Bytes
read_line zero xs = ([], xs)
read_line (suc n) [] = ([], [])
read_line (suc n) (x ∷ xs) =
    let r = read_line n xs in if x == b'\n' then (x ∷ [], xs) else (x ∷ r.0, r.1)

-- fgets into an array of that size: NULL at the end of the input.
unfoldable pub fgets : ℕ → Bytes → Option Bytes × Bytes
unfolding read_line
fgets size [] = (none, [])
fgets size (x ∷ xs) = let r = read_line (size - 1) (x ∷ xs) in (some r.0, r.1)

-- The bytes in front of the first NUL.
abbrev pub c_string : Bytes → Bytes
c_string [] = []
c_string (zero ∷ xs) = []
c_string (suc x ∷ xs) = suc x ∷ c_string xs

-- `if (len > 0 && buf[len - 1] == '\n') buf[len - 1] = '\0';`
abbrev pub strip_newline : Bytes → Bytes
strip_newline [] = []
strip_newline (x ∷ []) = if x == b'\n' then [] else x ∷ []
strip_newline (x ∷ y ∷ ys) = x ∷ strip_newline (y ∷ ys)

abbrev pub field : Bytes → Bytes
field line = strip_newline (c_string line)

abbrev pub has_newline : Bytes → Bool
has_newline [] = false
has_newline (x ∷ xs) = if x == b'\n' then true else has_newline xs

-- A line that the user types.
abbrev pub typed : Bytes → Bytes → Bytes
typed text rest = text ++ b'\n' ∷ rest

read_line-typed :
    (n : ℕ) (text rest : Bytes)
    → has_newline text ≡ false
    → length text < n
    → read_line n (typed text rest) ≡ (text ++ b'\n' ∷ [], rest)
unfolding read_line
read_line-typed zero text rest h b = ground arith
read_line-typed (suc n) [] rest h b = refl
read_line-typed (suc n) (x ∷ xs) rest h b = elim (Bool-cases (x == b'\n')) [
  | inl e ↦ ground arith
  | inr e ↦ rw (e, read_line-typed n xs rest (ground arith) (omega (arith, b))) refl
]

-- A line that fits is read as a whole, with its newline, and no more.
pub fgets-typed :
    (size : ℕ) (text rest : Bytes)
    → has_newline text ≡ false
    → length text + 1 < size
    → fgets size (typed text rest) ≡ (some (text ++ b'\n' ∷ []), rest)
unfolding fgets
fgets-typed size [] rest h b =
    ap (λ r. (some r.0, r.1)) (read_line-typed (size - 1) [] rest h (omega (arith, b)))
fgets-typed size (x ∷ xs) rest h b =
    ap (λ r. (some r.0, r.1)) (read_line-typed (size - 1) (x ∷ xs) rest h (omega (arith, b)))
