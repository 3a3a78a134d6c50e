-- ===== src/Session/Terminal.antt =====
-- src/session/src/session.c: the terminal's echo.
use zen_os.Base.{
  ℕ, zero, suc, Bool, true, false, not, ◌&&◌, Option, none, some, List, [], ◌∷◌, Bytes, ◌≡◌, refl,
  if◌then◌else◌,
}
use zen_os.Session.{
  Call, reads_secret, Session, call, read_plain, read_secret, Start, refuses, starts, Pam,
  transaction, answers, ends_login, wipes_password, begins_login, login_as, attempt, attempts,
  session_init, run_dialog,
}
use zen_os.Session.Lines.{field}
use zen_os.Session.Conversation.{Stable, run_dialog-keeps}

-- No secret was read with the echo on.
abbrev pub secret_hidden : Call → Bool
secret_hidden (reads_secret echo) = not echo
secret_hidden _ = true

abbrev pub secrets_hidden : List Call → Bool
secrets_hidden [] = true
secrets_hidden (k ∷ ks) = secret_hidden k && secrets_hidden ks

-- A terminal whose attributes can be set, with its echo as it was.
pub record Discreet (echo : Bool) (s : Session) : Type 0 where
  pub tty_set : s.tty ≡ true
  pub echo_kept : s.echo ≡ echo
  pub hidden : secrets_hidden s.calls ≡ true

secret-Discreet :
    (echo : Bool) (size : ℕ) (s : Session) → Discreet echo s → Discreet echo (read_secret size s).0
unfolding read_secret
secret-Discreet echo size s d =
    rw (d.tty_set) (record { tty_set = refl; echo_kept = d.echo_kept; hidden = d.hidden })

stable : (echo : Bool) → Stable (Discreet echo)
unfolding read_plain read_secret
stable echo = record {
  block = λ s m h d. record { tty_set = d.tty_set; echo_kept = d.echo_kept; hidden = d.hidden };
  plain = λ size s d. record { tty_set = d.tty_set; echo_kept = d.echo_kept; hidden = d.hidden };
  secret = secret-Discreet echo;
}

-- Calls that read nothing.
call-Discreet :
    (echo : Bool) (k : Call) (s : Session)
    → secret_hidden k ≡ true
    → Discreet echo s
    → Discreet echo (call k s)
call-Discreet echo k s h d = record {
  tty_set = d.tty_set;
  echo_kept = d.echo_kept;
  hidden = rw (h) d.hidden;
}

verdict-Discreet :
    (echo : Bool) (r : Session × Bool)
    → Discreet echo r.0
    → Discreet echo
        (if◌then◌else◌ {A = Session × Bool} r.1
          (call wipes_password (call ends_login (call (answers r.1) r.0)), true)
          (call ends_login (call (answers r.1) r.0), false)).0
verdict-Discreet echo (t, true) e =
    call-Discreet echo wipes_password _ refl
      (call-Discreet echo ends_login _ refl (call-Discreet echo (answers true) t refl e))
verdict-Discreet echo (t, false) e =
    call-Discreet echo ends_login _ refl (call-Discreet echo (answers false) t refl e)

transaction-Discreet :
    (echo : Bool) (start : Start) (name : Bytes) (s : Session)
    → Discreet echo s
    → Discreet echo (transaction start name s).0
unfolding transaction
transaction-Discreet echo (refuses true) name s d = call-Discreet echo ends_login s refl d
transaction-Discreet echo (refuses false) name s d = d
transaction-Discreet echo (starts dialog) name s d =
    verdict-Discreet echo (run_dialog dialog (call (begins_login name) s)) (
      run_dialog-keeps (Discreet echo) (stable echo) dialog _
        (call-Discreet echo (begins_login name) s refl d))

login_as-Discreet :
    (echo : Bool) (pam : Pam) (n : ℕ) (line : Option Bytes) (s : Session)
    → Discreet echo s
    → Discreet echo (login_as pam n line s).0
unfolding login_as
login_as-Discreet echo pam n none s d = d
login_as-Discreet echo pam n (some line) s d =
    transaction-Discreet echo (pam n (field line)) (field line) (read_secret 512 s).0
      (secret-Discreet echo 512 s d)

round-Discreet :
    (echo : Bool) (rest : Session → Session × Bool)
    → ((s : Session) → Discreet echo s → Discreet echo (rest s).0)
    → (r : Session × Bool) → Discreet echo r.0
    → Discreet echo (if r.1 then (r.0, true) else rest r.0).0
round-Discreet echo rest keeps (t, true) e = e
round-Discreet echo rest keeps (t, false) e = keeps t e

attempts-Discreet :
    (echo : Bool) (pam : Pam) (left n : ℕ) (s : Session)
    → Discreet echo s
    → Discreet echo (attempts pam left n s).0
unfolding attempts attempt
attempts-Discreet echo pam zero n s d = d
attempts-Discreet echo pam (suc left) n s d =
    let p = read_plain 256 s in
    round-Discreet echo (attempts pam left (suc n)) (attempts-Discreet echo pam left (suc n))
      (login_as pam n p.1 p.0) (login_as-Discreet echo pam n p.1 p.0 ((stable echo).plain 256 s d))

-- On a terminal whose attributes can be read, and with no secret read with the echo on before,
-- zen_session_init reads no secret with the echo on and leaves the echo as it was, with PAM and
-- without, whatever the PAM stack asks and however the attempts end.
pub session_init-Discreet :
    (pam : Option Pam) (s : Session) → Discreet s.echo s → Discreet s.echo (session_init pam s).0
unfolding session_init
session_init-Discreet none s d = d
session_init-Discreet (some pam) s d = attempts-Discreet s.echo pam 3 0 s d
