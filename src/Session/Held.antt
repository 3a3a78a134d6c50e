-- ===== src/Session/Held.antt =====
-- src/session/src/session.c: the heap of the PAM conversation.
use zen_os.Base.{
  ℕ, suc, ◌+◌, ◌-◌, Bool, true, false, Option, none, some, List, [], ◌∷◌, Bytes, ◌≡◌, refl,
  if◌then◌else◌, length, arith, ◌∙◌, subst, Bool-cases, inl, inr,
}
use zen_os.Session.{
  Style, echo_off, echo_on, text_info, Session, allocate, allocate_from, read_plain, read_secret,
  set_echo, answer, free_replies, fill_replies, pam_conv_fn,
}

-- The strings among the replies.
abbrev pub strings : List (Option Bytes) → ℕ
strings [] = 0
strings (none ∷ rs) = strings rs
strings (some r ∷ rs) = suc (strings rs)

-- From a heap of so many blocks and so many replies: a failure gives all of them back, and a success
-- holds the array and the strings, with one reply for each of so many messages.
abbrev pub Holds : ℕ → ℕ → Session × Option (List (Option Bytes)) → Type 0
Holds before messages (s, none) = s.held ≡ before
Holds before messages (s, some rs) = (s.held ≡ before + 1 + strings rs) × (length rs ≡ messages)

free_replies-held :
    (rs : List (Option Bytes)) (s : Session) (before : ℕ)
    → s.held ≡ before + 1 + strings rs
    → (free_replies rs s).held ≡ before
unfolding free_replies
free_replies-held [] s before h = omega (arith, h)
free_replies-held (none ∷ rs) s before h = free_replies-held rs s before h
free_replies-held (some r ∷ rs) s before h =
    free_replies-held rs (record s { held = s.held - 1 }) before (omega (arith, h))

-- An allocation that succeeds holds a block more.
abbrev Allocates : ℕ → Session × Bool → Type 0
Allocates h (s, true) = s.held ≡ suc h
Allocates h (s, false) = s.held ≡ h

allocate_from-Allocates :
    (ms : List Bool) (s : Session) (h : ℕ) → s.held ≡ h → Allocates h (allocate_from ms s)
unfolding allocate_from
allocate_from-Allocates [] s h e = omega (arith, e)
allocate_from-Allocates (true ∷ ms) s h e = omega (arith, e)
allocate_from-Allocates (false ∷ ms) s h e = e

allocate-Allocates : (s : Session) (h : ℕ) → s.held ≡ h → Allocates h (allocate s)
unfolding allocate
allocate-Allocates s h e = allocate_from-Allocates s.memory s h e

-- What an allocation decides: to go on with a block more, or to give back.
prompt-Holds :
    (before messages : ℕ) (rs : List (Option Bytes))
    (rest : Session → Session × Option (List (Option Bytes)))
    → ((s : Session) → s.held ≡ before + 2 + strings rs → Holds before messages (rest s))
    → (a : Session × Bool) → Allocates (before + 1 + strings rs) a
    → Holds before messages (if a.1 then rest a.0 else (free_replies rs a.0, none))
prompt-Holds before messages rs rest go (s, true) e = go s (omega (arith, e))
prompt-Holds before messages rs rest go (s, false) e = free_replies-held rs s before e

read_plain-held : (size : ℕ) (s : Session) → (read_plain size s).0.held ≡ s.held
unfolding read_plain
read_plain-held size s = refl

set_echo-held : (b : Bool) (s : Session) → (set_echo b s).held ≡ s.held
set_echo-held b s = elim (Bool-cases s.tty) [ inl e ↦ rw (e) refl | inr e ↦ rw (e) refl ]

read_secret-held : (size : ℕ) (s : Session) → (read_secret size s).0.held ≡ s.held
unfolding read_secret
read_secret-held size s = set_echo-held s.echo _ ∙ set_echo-held false s

fill_replies-Holds :
    (ms : List Style) (rs : List (Option Bytes)) (s : Session) (before : ℕ)
    → s.held ≡ before + 1 + strings rs
    → Holds before (length ms + length rs) (fill_replies ms rs s)
unfolding fill_replies
fill_replies-Holds [] rs s before h = (h, omega arith)
fill_replies-Holds (text_info ∷ ms) rs s before h =
    subst (λ n. Holds before n (fill_replies ms (none ∷ rs) s)) (omega arith)
      (fill_replies-Holds ms (none ∷ rs) s before h)
fill_replies-Holds (echo_off ∷ ms) rs s before h =
    let r = read_secret 512 s in
    prompt-Holds before (suc (length ms) + length rs) rs (fill_replies ms (some (answer r.1) ∷ rs))
      (λ t e.
        subst (λ n. Holds before n (fill_replies ms (some (answer r.1) ∷ rs) t)) (omega arith)
          (fill_replies-Holds ms (some (answer r.1) ∷ rs) t before (omega (arith, e))))
      (allocate r.0) (allocate-Allocates r.0 (before + 1 + strings rs) (read_secret-held 512 s ∙ h))
fill_replies-Holds (echo_on ∷ ms) rs s before h =
    let r = read_plain 512 s in
    prompt-Holds before (suc (length ms) + length rs) rs (fill_replies ms (some (answer r.1) ∷ rs))
      (λ t e.
        subst (λ n. Holds before n (fill_replies ms (some (answer r.1) ∷ rs) t)) (omega arith)
          (fill_replies-Holds ms (some (answer r.1) ∷ rs) t before (omega (arith, e))))
      (allocate r.0) (allocate-Allocates r.0 (before + 1 + strings rs) (read_plain-held 512 s ∙ h))

filled-Holds :
    (ms : List Style) (before : ℕ) (a : Session × Bool)
    → Allocates before a
    → Holds before (length ms) (if a.1 then fill_replies ms [] a.0 else (a.0, none))
filled-Holds ms before (s, true) e =
    subst (λ n. Holds before n (fill_replies ms [] s)) (omega arith)
      (fill_replies-Holds ms [] s before (omega (arith, e)))
filled-Holds ms before (s, false) e = e

-- Whatever the messages, the input and the memory, pam_conv_fn either fails and holds no block that
-- it did not hold before, or succeeds with one reply for each message, and holds the array and the
-- replies' strings.
pub pam_conv_fn-Holds :
    (ms : List Style) (s : Session) → Holds s.held (length ms) (pam_conv_fn ms s)
unfolding pam_conv_fn
pam_conv_fn-Holds ms s = filled-Holds ms s.held (allocate s) (allocate-Allocates s s.held refl)
