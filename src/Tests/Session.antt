-- ===== src/Tests/Session.antt =====
-- session.c at a terminal where the user "a" logs in with the password "b".
use zen_os.Base.{true, false, some, Option, List, [], ◌∷◌, Bytes, ◌≡◌, refl, arith, ◌==◌}
use zen_os.Session.{
  echo_off, echo_on, text_info, Session, Dialog, verdict, converse, starts, Pam, pam_conv_fn,
  session_init, Os, named, open_session, session_run, main,
}
use zen_os.Session.Lines.{typed}
use zen_os.Session.Held.{Holds, pam_conv_fn-Holds}
use zen_os.Session.Password.{typing, session_init-ignores}
use zen_os.Session.Terminal.{Discreet, session_init-Discreet}
use zen_os.Session.Login.{Guarded, main-Guarded}
use zen_os.Session.Logind.{ended, IsSessionName, session_run-ended}

abbrev judge : Option (List (Option Bytes)) → Dialog
judge (some (some (x ∷ []) ∷ [])) = verdict (x == b'b')
judge _ = verdict false

abbrev small_pam : Pam
small_pam n name = starts (converse (echo_off ∷ []) judge)

abbrev terminal : Bytes → Session
terminal text = record {
  input = text;
  tty = true;
  echo = true;
  memory = [];
  held = 0;
  session_id = [];
  bus = false;
  calls = [];
}

abbrev works : Os
works = record { bus_opens = true; created = named (b'c' ∷ b'2' ∷ []); forks = true }

-- The name, a first password that nobody looks at, and the one that PAM asks for.
abbrev types_twice : Bytes
types_twice = typed (b'a' ∷ []) (typed (b'x' ∷ []) (typed (b'b' ∷ []) []))

-- A correct name and password alone do not log in, since PAM finds the input at its end.
once_is_not_enough :
    (main (some small_pam) works (terminal (typed (b'a' ∷ []) (typed (b'b' ∷ []) [])))).1 ≡ 1
unfolding main
once_is_not_enough = refl

twice_is : (main (some small_pam) works (terminal types_twice)).1 ≡ 0
unfolding main
twice_is = refl

main-Guarded_example : Guarded (main (some small_pam) works (terminal types_twice))
main-Guarded_example = main-Guarded small_pam works (terminal types_twice) refl

session_init-ignores_example :
    session_init
      (some small_pam)
      (typing (typed (b'a' ∷ []) (typed (b'b' ∷ []) (typed (b'b' ∷ []) []))) (terminal []))
    ≡ session_init
        (some small_pam)
        (typing (typed (b'a' ∷ []) (typed (b'x' ∷ []) (typed (b'b' ∷ []) []))) (terminal []))
session_init-ignores_example =
    session_init-ignores small_pam (b'a' ∷ []) (b'b' ∷ []) (b'x' ∷ []) (typed (b'b' ∷ []) [])
      (terminal []) refl refl refl (omega arith) (omega arith) (omega arith)

session_init-Discreet_example :
    Discreet true (session_init (some small_pam) (terminal types_twice)).0
session_init-Discreet_example =
    session_init-Discreet (some small_pam) (terminal types_twice)
      (record { tty_set = refl; echo_kept = refl; hidden = refl })

-- The array and a first answer are allocated, and the second answer fails.
abbrev short_of_memory : Session
short_of_memory = record (terminal types_twice) { memory = true ∷ true ∷ false ∷ [] }

pam_conv_fn-Holds_example :
    Holds 0 3 (pam_conv_fn (echo_on ∷ text_info ∷ echo_off ∷ []) short_of_memory)
pam_conv_fn-Holds_example = pam_conv_fn-Holds (echo_on ∷ text_info ∷ echo_off ∷ []) short_of_memory

session_run-ended_example :
    (id : Bytes) × IsSessionName works true id
    × ((session_run works (terminal [])).calls ≡ ended id (open_session works (terminal [])).calls)
session_run-ended_example = session_run-ended works (terminal []) refl
