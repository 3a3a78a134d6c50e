-- ===== src/Session/Login.antt =====
-- src/session/src/session.c: who gets past main's login.
use zen_os.Base.{
  ℕ, zero, suc, ◌+◌, ◌≤◌, Bool, true, false, Option, none, some, List, [], ◌∷◌, Bytes, ◌≡◌, refl,
  if◌then◌else◌, ◌⊎◌, inl, inr, Bool-cases, arith,
}
use zen_os.Session.{
  Call, reads, reads_secret, begins_login, answers, ends_login, wipes_password, opens_bus,
  drops_bus, creates_session, runs_compositor, terminates, Session, call, set_echo, read_plain,
  read_secret, Start, refuses, starts, Pam, transaction, login_as, attempt, attempts, session_init,
  Os, session_run, session_destroy, main, run_dialog, open_session, terminate_named,
}
use zen_os.Session.Conversation.{Stable, run_dialog-keeps}
use zen_os.Session.Lines.{field}

-- How far the login has come: PAM has refused so many; one more is under way, PAM has just refused it,
-- has just accepted it, it is ended; and the user is let in, and the password wiped.
pub data Stage : Type 0 where
  waiting inside failing passing passed : ℕ → Stage
  let_in : Stage

-- A login is begun, decided and ended. The bus, the logind session and the compositor come when the
-- user is let in.
abbrev pub next : Call → Stage → Option Stage
next reads (waiting n) = some (waiting n)
next reads (inside n) = some (inside n)
next (reads_secret echo) (waiting n) = some (waiting n)
next (reads_secret echo) (inside n) = some (inside n)
next (begins_login name) (waiting n) = some (inside n)
next (answers false) (inside n) = some (failing n)
next (answers true) (inside n) = some (passing n)
next ends_login (waiting n) = some (waiting n)
next ends_login (failing n) = some (waiting (suc n))
next ends_login (passing n) = some (passed n)
next wipes_password (passed n) = some let_in
next opens_bus let_in = some let_in
next drops_bus let_in = some let_in
next creates_session let_in = some let_in
next (runs_compositor id) let_in = some let_in
next (terminates command) let_in = some let_in
next _ _ = none

abbrev pub then_next : Call → Option Stage → Option Stage
then_next k none = none
then_next k (some stage) = next k stage

-- none, if a call came out of its order.
abbrev pub stage : List Call → Option Stage
stage [] = some (waiting 0)
stage (k ∷ ks) = then_next k (stage ks)

abbrev pub At : Stage → Session → Type 0
At g s = stage s.calls ≡ some g

set_echo-calls : (b : Bool) (s : Session) → (set_echo b s).calls ≡ s.calls
set_echo-calls b s = elim (Bool-cases s.tty) [ inl e ↦ rw (e) refl | inr e ↦ rw (e) refl ]

-- A call that the stage allows.
call-At : (k : Call) (g h : Stage) (s : Session) → next k g ≡ some h → At g s → At h (call k s)
call-At k g h s e a = rw (a) e

read_secret-At :
    (g : Stage)
    → ((b : Bool) → next (reads_secret b) g ≡ some g)
    → (size : ℕ) (s : Session) → At g s
    → At g (read_secret size s).0
unfolding read_secret
read_secret-At g e size s a =
    rw (set_echo-calls s.echo, set_echo-calls false s, a) (e (set_echo false s).echo)

inside_stable : (n : ℕ) → Stable (At (inside n))
unfolding read_plain
inside_stable n = record {
  block = λ s m h a. a;
  plain = λ size s a. call-At reads (inside n) (inside n) s refl a;
  secret = read_secret-At (inside n) (λ b. refl);
}

-- Let in, or at most so many failed logins.
pub record Waits (n : ℕ) (s : Session) : Type 0 where
  pub failed : ℕ
  pub few : failed ≤ n
  pub waits : At (waiting failed) s

abbrev pub Decided : ℕ → Session × Bool → Type 0
Decided n (s, true) = At let_in s
Decided n (s, false) = Waits n s

verdict-Decided :
    (n : ℕ) (r : Session × Bool)
    → At (inside n) r.0
    → Decided (suc n) (
        if r.1
        then (call wipes_password (call ends_login (call (answers r.1) r.0)), true)
        else (call ends_login (call (answers r.1) r.0), false))
verdict-Decided n (s, true) a = rw (a) refl
verdict-Decided n (s, false) a = record { failed = suc n; few = omega arith; waits = rw (a) refl }

transaction-Decided :
    (start : Start) (name : Bytes) (n : ℕ) (s : Session)
    → At (waiting n) s
    → Decided (suc n) (transaction start name s)
unfolding transaction
transaction-Decided (refuses true) name n s a = record {
  failed = n;
  few = omega arith;
  waits = rw (a) refl;
}
transaction-Decided (refuses false) name n s a = record { failed = n; few = omega arith; waits = a }
transaction-Decided (starts dialog) name n s a =
    verdict-Decided n (run_dialog dialog (call (begins_login name) s)) (
      run_dialog-keeps (At (inside n)) (inside_stable n) dialog (call (begins_login name) s)
        (rw (a) refl))

login_as-Decided :
    (pam : Pam) (i n : ℕ) (line : Option Bytes) (s : Session)
    → At (waiting n) s
    → Decided (suc n) (login_as pam i line s)
unfolding login_as
login_as-Decided pam i n none s a = record { failed = n; few = omega arith; waits = a }
login_as-Decided pam i n (some line) s a =
    transaction-Decided (pam i (field line)) (field line) n (read_secret 512 s).0
      (read_secret-At (waiting n) (λ b. refl) 512 s a)

more : (m k : ℕ) (r : Session × Bool) → m ≤ k → Decided m r → Decided k r
more m k (t, true) b d = d
more m k (t, false) b d = record {
  failed = d.failed;
  few = omega (arith, b, d.few);
  waits = d.waits;
}

round-Decided :
    (n left : ℕ) (rest : Session → Session × Bool)
    → ((m : ℕ) (s : Session) → At (waiting m) s → Decided (left + m) (rest s))
    → (r : Session × Bool) → Decided (suc n) r
    → Decided (suc left + n) (if r.1 then (r.0, true) else rest r.0)
round-Decided n left rest decides (t, true) d = d
round-Decided n left rest decides (t, false) d =
    more (left + d.failed) (suc left + n) (rest t) (omega (arith, d.few))
      (decides d.failed t d.waits)

attempts-Decided :
    (pam : Pam) (left i n : ℕ) (s : Session)
    → At (waiting n) s
    → Decided (left + n) (attempts pam left i s)
unfolding attempts attempt read_plain
attempts-Decided pam zero i n s a = record { failed = n; few = omega arith; waits = a }
attempts-Decided pam (suc left) i n s a =
    let p = read_plain 256 s in
    round-Decided n left (attempts pam left (suc i)) (λ m t. attempts-Decided pam left (suc i) m t)
      (login_as pam i p.1 p.0) (login_as-Decided pam i n p.1 p.0 (rw (a) refl))

-- What comes with a user that is let in.
session_bus-At : (os : Os) (s : Session) → At let_in s → At let_in (open_session os s)
unfolding open_session
session_bus-At os s a = elim (Bool-cases os.bus_opens) [
  | inl e ↦ rw (e, a) refl
  | inr e ↦ elim (Bool-cases s.bus) [ inl b ↦ rw (e, b, a) refl | inr b ↦ rw (e, b) a ]
]

terminate_named-At : (id : Bytes) (s : Session) → At let_in s → At let_in (terminate_named id s)
unfolding terminate_named
terminate_named-At [] s a = a
terminate_named-At (x ∷ xs) s a = rw (a) refl

session_run-At : (os : Os) (s : Session) → At let_in s → At let_in (session_run os s)
unfolding session_run
session_run-At os s a =
    let o = open_session os s in
    let b = session_bus-At os s a in
    elim (Bool-cases os.forks) [
      | inl e ↦ rw (e) (
          terminate_named-At o.session_id (call (runs_compositor o.session_id) o)
            (call-At (runs_compositor o.session_id) let_in let_in o refl b))
      | inr e ↦ rw (e) b
    ]

session_destroy-At : (s : Session) → At let_in s → At let_in (session_destroy s)
unfolding session_destroy
session_destroy-At s a = elim (Bool-cases s.bus) [ inl e ↦ rw (e, a) refl | inr e ↦ rw (e) a ]

-- main's two ends: with the user let in, and with at most three failed logins and nothing else.
abbrev pub Guarded : Session × ℕ → Type 0
Guarded (s, status) = ((status ≡ 0) × At let_in s) ⊎ ((status ≡ 1) × Waits 3 s)

main-decided :
    (os : Os) (r : Session × Bool)
    → Decided 3 r
    → Guarded (if r.1 then (session_destroy (session_run os r.0), 0) else (r.0, 1))
main-decided os (s, true) d =
    inl (refl, session_destroy-At (session_run os s) (session_run-At os s d))
main-decided os (s, false) d = inr (refl, d)

-- From a start with no calls, main with PAM ends in one of two ways: with status 0, after a login
-- that PAM accepted, was ended and whose password was wiped before the bus, the logind session and
-- the compositor; or with status 1, after at most three logins that all failed and were ended, and
-- without any of these.
pub main-Guarded :
    (pam : Pam) (os : Os) (s : Session) → s.calls ≡ [] → Guarded (main (some pam) os s)
unfolding main session_init
main-Guarded pam os s h =
    main-decided os (attempts pam 3 0 s) (attempts-Decided pam 3 0 0 s (rw (h) refl))
