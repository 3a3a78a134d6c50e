-- ===== src/Session/Password.antt =====
-- src/session/src/session.c: what becomes of the line that zen_session_init reads as the password.
use zen_os.Base.{
  ℕ, ◌+◌, ◌<◌, false, some, [], ◌∷◌, ◌++◌, Bytes, ◌≡◌, refl, ap, sym, ◌∙◌, length, Bool-cases, inl,
  inr,
}
use zen_os.Session.{
  Session, set_echo, call, reads, reads_secret, Pam, read_plain, read_secret, login_as, attempt,
  attempts, session_init, transaction,
}
use zen_os.Session.Lines.{field, has_newline, typed, fgets-typed}

abbrev pub typing : Bytes → Session → Session
typing text s = record s { input = text }

read_plain-typed :
    (name rest : Bytes) (s : Session)
    → has_newline name ≡ false
    → length name + 1 < 256
    → read_plain 256 (typing (typed name rest) s)
      ≡ (call reads (typing rest s), some (name ++ b'\n' ∷ []))
unfolding read_plain
read_plain-typed name rest s h b = rw (fgets-typed 256 name rest h b) refl

read_secret-typed :
    (p rest : Bytes) (s : Session)
    → has_newline p ≡ false
    → length p + 1 < 512
    → (read_secret 512 (typing (typed p rest) s)).0
      ≡ set_echo s.echo
          (call (reads_secret (set_echo false s).echo) (typing rest (set_echo false s)))
unfolding read_secret
read_secret-typed p rest s h b = elim (Bool-cases s.tty) [
  | inl e ↦ rw (e, fgets-typed 512 p rest h b) refl
  | inr e ↦ rw (e, fgets-typed 512 p rest h b) refl
]

-- A round, when the name and the password are typed.
attempt-typed :
    (pam : Pam) (n : ℕ) (name p rest : Bytes) (s : Session)
    → has_newline name ≡ false
    → has_newline p ≡ false
    → length name + 1 < 256
    → length p + 1 < 512
    → attempt pam n (typing (typed name (typed p rest)) s) ≡ (
        let line = name ++ b'\n' ∷ [] in
        transaction (pam n (field line)) (field line) (
          set_echo s.echo (
            call
              (reads_secret (set_echo false (call reads s)).echo)
              (typing rest (set_echo false (call reads s))))))
unfolding attempt login_as
attempt-typed pam n name p rest s hn hp bn bp =
    let line = name ++ b'\n' ∷ [] in
    ap (λ r. login_as pam n r.1 r.0) (read_plain-typed name (typed p rest) s hn bn)
    ∙ ap (transaction (pam n (field line)) (field line))
        (read_secret-typed p rest (call reads s) hp bp)

attempt-ignores :
    (pam : Pam) (n : ℕ) (name p q rest : Bytes) (s : Session)
    → has_newline name ≡ false
    → has_newline p ≡ false
    → has_newline q ≡ false
    → length name + 1 < 256
    → length p + 1 < 512
    → length q + 1 < 512
    → attempt pam n (typing (typed name (typed p rest)) s)
      ≡ attempt pam n (typing (typed name (typed q rest)) s)
attempt-ignores pam n name p q rest s hn hp hq bn bp bq =
    attempt-typed pam n name p rest s hn hp bn bp
    ∙ sym (attempt-typed pam n name q rest s hn hq bn bq)

-- When a name and a password are typed that fit their buffers, without a newline in them,
-- zen_session_init returns the same and leaves the same state whatever that password is.
pub session_init-ignores :
    (pam : Pam) (name p q rest : Bytes) (s : Session)
    → has_newline name ≡ false
    → has_newline p ≡ false
    → has_newline q ≡ false
    → length name + 1 < 256
    → length p + 1 < 512
    → length q + 1 < 512
    → session_init (some pam) (typing (typed name (typed p rest)) s)
      ≡ session_init (some pam) (typing (typed name (typed q rest)) s)
unfolding session_init attempts
session_init-ignores pam name p q rest s hn hp hq bn bp bq =
    rw (attempt-ignores pam 0 name p q rest s hn hp hq bn bp bq) refl
