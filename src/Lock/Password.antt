-- ===== src/Lock/Password.antt =====
-- src/compositor/src/lock.c: the password's buffer and length, and the text that they stand for.
use zen_os.Base.{
  ℕ, zero, suc, ◌+◌, ◌-◌, ◌%◌, ◌≤◌, ◌<◌, Bool, ◌&&◌, [], ◌∷◌, ◌++◌, Bytes, ◌≡◌, ◌⊎◌, inl, inr, refl,
  sym, ap, ◌∙◌, arith, ltb, leb, ◌==◌, if◌then◌else◌, Bool-cases, length, set, replicate,
  length-append, append_assoc,
}
use zen_os.Compositor.{Compositor, LockState, no_password, pass_max}
use zen_os.Lock.{
  c_string, render_lock_ui, backspace, escape, edit_key, erase_last, type_char, show_error,
}

abbrev pub drop_last : Bytes → Bytes
drop_last [] = []
drop_last (x ∷ []) = []
drop_last (x ∷ y ∷ r) = x ∷ drop_last (y ∷ r)

-- What a key does to the text: the specification.
abbrev pub edit : ℕ → Bytes → Bytes
edit k text =
    if k == backspace
    then drop_last text
    else if k == escape
    then []
    else if leb 0x20 k && leb k 0x7e && ltb (length text) pass_max
    then text ++ k ∷ []
    else text

abbrev NonZero : Bytes → Type 0
NonZero [] = Unit {0}
NonZero (x ∷ xs) = (0 < x) × NonZero xs

-- The buffer holds the text, with zeros from its end on.
pub record Holds (text : Bytes) (l : LockState) : Type 0 where
  pub buffer : l.password ≡ text ++ replicate (256 - length text) 0
  pub len : l.password_len ≡ length text
  pub fits : length text ≤ pass_max
  pub no_nul : NonZero text

set-append :
    (xs : Bytes) (y v : ℕ) (ys : Bytes) (i : ℕ)
    → i ≡ length xs
    → set (xs ++ y ∷ ys) i v ≡ xs ++ v ∷ ys
set-append [] y v ys zero e = refl
set-append [] y v ys (suc i) e = absurd (omega arith)
set-append (x ∷ xs) y v ys zero e = absurd (omega arith)
set-append (x ∷ xs) y v ys (suc i) e = ap (◌∷◌ x) (set-append xs y v ys i (omega arith))

NonZero-append : (xs ys : Bytes) → NonZero xs → NonZero ys → NonZero (xs ++ ys)
NonZero-append [] ys h k = k
NonZero-append (x ∷ xs) ys h k = (h.0, NonZero-append xs ys h.1 k)

c_string-append : (text rest : Bytes) → NonZero text → c_string (text ++ 0 ∷ rest) ≡ text
unfolding c_string
c_string-append [] rest h = refl
c_string-append (x ∷ xs) rest h = ground (arith, c_string-append xs rest h.1)

-- What is left of a text, and its last character.
last-cases : (text : Bytes) → (text ≡ []) ⊎ ((x : ℕ) × (text ≡ drop_last text ++ x ∷ []))
last-cases [] = inl refl
last-cases (x ∷ []) = inr (x, refl)
last-cases (x ∷ y ∷ r) = elim (last-cases (y ∷ r)) [
  | inl e ↦ absurd (cc)
  | inr (z, e) ↦ inr (z, ap (◌∷◌ x) e)
]

-- The C string that PAM is given is the text.
pub c_string-Holds : {text : Bytes} {l : LockState} → Holds text l → c_string l.password ≡ text
c_string-Holds {text} {l} h =
    let room : 256 - length text ≡ suc (255 - length text) = grind (arith, h.fits) in
    rw (h.buffer, room) (c_string-append text _ h.no_nul)

pub empty-Holds : {l : LockState} → l.password ≡ no_password → l.password_len ≡ 0 → Holds [] l
unfolding no_password
empty-Holds p n = record { buffer = p; len = n; fits = omega arith; no_nul = tt }

drop_last-append : (text : Bytes) (x : ℕ) → drop_last (text ++ x ∷ []) ≡ text
drop_last-append [] x = refl
drop_last-append (y ∷ []) x = refl
drop_last-append (y ∷ z ∷ r) x = ap (◌∷◌ y) (drop_last-append (z ∷ r) x)

NonZero-prefix : (xs ys : Bytes) → NonZero (xs ++ ys) → NonZero xs
NonZero-prefix [] ys h = tt
NonZero-prefix (x ∷ xs) ys h = (h.0, NonZero-prefix xs ys h.1)

erase_last-Holds :
    (text : Bytes) (x : ℕ) (l : LockState) → Holds (text ++ x ∷ []) l → Holds text (erase_last l)
erase_last-Holds text x l h =
    let n = length-append text (x ∷ []) in
    let room : 256 - length text ≡ suc (256 - length (text ++ x ∷ [])) = grind (arith, h.fits, n) in
    record {
      buffer =
          rw (h.buffer, append_assoc, room) (set-append text x 0 _ _ (omega (arith, h.len, n)));
      len = omega (arith, h.len, n);
      fits = omega (arith, h.fits, n);
      no_nul = NonZero-prefix text (x ∷ []) h.no_nul;
    }

type_char-Holds :
    (text : Bytes) (k : ℕ) (l : LockState)
    → Holds text l
    → 0 < k
    → k < 256
    → length text < pass_max
    → Holds (text ++ k ∷ []) (type_char k l)
type_char-Holds text k l h k0 k1 f =
    let n = length-append text (k ∷ []) in
    let room : 256 - length text ≡ suc (suc (254 - length text)) = grind arith in
    let left : 256 - length (text ++ k ∷ []) ≡ suc (254 - length text) = grind (arith, n) in
    let byte : k % 256 ≡ k = omega arith in
    record {
      buffer =
          rw (h.buffer, h.len, room, byte, left)
            (ap (λ b. set b (length text + 1) 0) (set-append text 0 k _ (length text) refl)
              ∙ ap (λ b. set b (length text + 1) 0) (sym (append_assoc text (k ∷ []) _))
              ∙ set-append (text ++ k ∷ []) 0 0 _ (length text + 1) (omega (arith, n)));
      len = omega (arith, h.len, n);
      fits = omega (arith, n);
      no_nul = NonZero-append text (k ∷ []) h.no_nul (k0, tt);
    }

pub lock-render_lock_ui : (c : Compositor) → (render_lock_ui c).lock ≡ c.lock
unfolding render_lock_ui
lock-render_lock_ui c = ground arith

pub shown : {text : Bytes} {l : LockState} {b : Bool} → Holds text l → Holds text (show_error b l)
shown h = record { buffer = h.buffer; len = h.len; fits = h.fits; no_nul = h.no_nul }

-- If the buffer holds a text of at most 255 characters with zeros behind it, then after any key it
-- holds what the specification makes of the text, with zeros behind it and at most 255 characters
-- again.
pub edit_key-Holds :
    (k : ℕ) (text : Bytes) (c : Compositor)
    → Holds text c.lock
    → Holds (edit k text) (edit_key k c).lock
unfolding edit_key
edit_key-Holds k text c h = elim (Bool-cases (k == backspace)) [
  | inl e ↦ elim (Bool-cases (ltb 0 c.lock.password_len)) [
    | inl some_text ↦ elim (last-cases text) [
      | inl n ↦ absurd (ground (arith, h.len, ap length n))
      | inr (x, n) ↦
          rw (e, some_text, edit_key, lock-render_lock_ui)
            (shown (erase_last-Holds (drop_last text) x c.lock (rw n at h)))
    ]
    | inr no_text ↦ elim (last-cases text) [
      | inl n ↦ rw (e, no_text, edit_key, n) (rw n at h)
      | inr (x, n) ↦
          absurd (ground (arith, h.len, ap length n, length-append (drop_last text) (x ∷ [])))
    ]
  ]
  | inr e ↦ elim (Bool-cases (k == escape)) [
    | inl esc ↦ rw (e, esc, edit_key, lock-render_lock_ui) (empty-Holds refl refl)
    | inr not_esc ↦
        elim (Bool-cases (leb 0x20 k && leb k 0x7e && ltb c.lock.password_len pass_max)) [
          | inl fits ↦
              let spec = rw h.len at fits in
              rw (e, not_esc, edit_key, fits, spec, lock-render_lock_ui)
                (shown
                  (type_char-Holds text k c.lock h (ground arith) (ground arith) (ground arith)))
          | inr not_fits ↦
              let spec = rw h.len at not_fits in rw (e, not_esc, edit_key, not_fits, spec) h
        ]
  ]
]
