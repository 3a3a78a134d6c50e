-- ===== src/Session.antt =====
-- src/session/src/session.c: the login, the logind session and the start of the compositor. A Session
-- is the terminal, the heap of the PAM conversation and the static variables, with what is asked of
-- the system in `calls`, newest first.
pub mod Lines
pub mod Conversation
pub mod Held
pub mod Password
pub mod Terminal
pub mod Login
pub mod Logind
use zen_os.Base.{
  ℕ, zero, suc, ◌+◌, ◌-◌, Bool, true, false, not, ◌&&◌, Option, none, some, List, [], ◌∷◌, ◌++◌,
  Bytes, ◌==◌, if◌then◌else◌, take,
}
use zen_os.Session.Lines.{fgets, field}

-- msg_style: without echo, with echo, and the messages that want no answer.
pub data Style : Type 0 where
  echo_off echo_on text_info : Style

-- A read of a line: for a name, for a secret (with the echo at that moment).
pub data Call : Type 0 where
  reads : Call
  reads_secret : Bool → Call
  begins_login : Bytes → Call
  -- PAM's answer to pam_authenticate
  answers : Bool → Call
  ends_login wipes_password : Call
  opens_bus drops_bus : Call
  creates_session : Call
  runs_compositor terminates : Bytes → Call

pub record Session : Type 0 where
  -- stdin: what is still to be read; whether its attributes can be read and set; whether it echoes
  pub input : Bytes
  pub tty : Bool
  pub echo : Bool
  -- whether the next allocations of the conversation succeed (all, when the list is used up)
  pub memory : List Bool
  -- the blocks that the conversation holds or has handed to PAM
  pub held : ℕ
  -- s_session_id and s_bus
  pub session_id : Bytes
  pub bus : Bool
  pub calls : List Call

abbrev pub call : Call → Session → Session
call k s = record s { calls = k ∷ s.calls }

-- calloc or strdup.
unfoldable pub allocate_from : List Bool → Session → Session × Bool
allocate_from [] s = (record s { held = suc s.held }, true)
allocate_from (true ∷ ms) s = (record s { memory = ms; held = suc s.held }, true)
allocate_from (false ∷ ms) s = (record s { memory = ms }, false)

unfoldable pub allocate : Session → Session × Bool
unfolding allocate_from
allocate s = allocate_from s.memory s

-- fgets with the echo as it is.
unfoldable pub read_plain : ℕ → Session → Session × Option Bytes
unfolding fgets
read_plain size s = let r = fgets size s.input in (call reads (record s { input = r.1 }), r.0)

abbrev pub set_echo : Bool → Session → Session
set_echo b s = if s.tty then record s { echo = b } else s

-- fgets between the two tcsetattr.
unfoldable pub read_secret : ℕ → Session → Session × Option Bytes
unfolding fgets
read_secret size s =
    let hidden = set_echo false s in
    let r = fgets size hidden.input in
    (set_echo s.echo (call (reads_secret hidden.echo) (record hidden { input = r.1 })), r.0)

-- The string that is duplicated for an answer.
abbrev pub answer : Option Bytes → Bytes
answer none = []
answer (some line) = field line

abbrev pub read_style : Style → Session → Session × Option Bytes
unfolding read_plain read_secret
read_style echo_off s = read_secret 512 s
read_style echo_on s = read_plain 512 s
read_style text_info s = (s, none)

-- `for (j < i) free(reply[j].resp); free(reply);` for the replies so far.
unfoldable pub free_replies : List (Option Bytes) → Session → Session
free_replies [] s = record s { held = s.held - 1 }
free_replies (none ∷ rs) s = free_replies rs s
free_replies (some r ∷ rs) s = free_replies rs (record s { held = s.held - 1 })

-- The loop of pam_conv_fn, with the replies so far, the newest first.
unfoldable pub fill_replies :
    List Style → List (Option Bytes) → Session → Session × Option (List (Option Bytes))
unfolding allocate free_replies read_plain read_secret
fill_replies [] rs s = (s, some rs)
fill_replies (text_info ∷ ms) rs s = fill_replies ms (none ∷ rs) s
fill_replies (m ∷ ms) rs s =
    let r = read_style m s in
    let a = allocate r.0 in
    let rest = fill_replies ms (some (answer r.1) ∷ rs) a.0 in
    if a.1 then rest else (free_replies rs a.0, none)

-- pam_conv_fn: none is PAM_BUF_ERR; the replies are in the opposite order of the messages.
unfoldable pub pam_conv_fn : List Style → Session → Session × Option (List (Option Bytes))
unfolding allocate fill_replies
pam_conv_fn ms s =
    let a = allocate s in let filled = fill_replies ms [] a.0 in if a.1 then filled else (a.0, none)

-- What a PAM stack does in pam_authenticate: it may converse, and goes on as the replies say.
pub data Dialog : Type 0 where
  verdict : Bool → Dialog
  converse : List Style → (Option (List (Option Bytes)) → Dialog) → Dialog

-- pam_start: it fails, with or without a handle, or it is PAM_SUCCESS.
pub data Start : Type 0 where
  refuses : Bool → Start
  starts : Dialog → Start

-- The PAM stack, for each attempt and name.
abbrev pub Pam : Type 0
Pam = ℕ → Bytes → Start

unfoldable pub run_dialog : Dialog → Session → Session × Bool
unfolding pam_conv_fn
run_dialog (verdict ok) s = (s, ok)
run_dialog (converse ms next) s = let r = pam_conv_fn ms s in run_dialog (next r.1) r.0

-- pam_authenticate, with PAM's answer among the calls.
unfoldable pub pam_authenticate : Dialog → Session → Session × Bool
unfolding run_dialog
pam_authenticate dialog s = let r = run_dialog dialog s in (call (answers r.1) r.0, r.1)

-- From pam_start on: whether the user is authenticated.
unfoldable pub transaction : Start → Bytes → Session → Session × Bool
unfolding pam_authenticate
transaction (refuses handle) name s = ((if handle then call ends_login s else s), false)
transaction (starts dialog) name s =
    let r = pam_authenticate dialog (call (begins_login name) s) in
    if r.1 then (call wipes_password (call ends_login r.0), true) else (call ends_login r.0, false)

-- A round of the loop, behind the name's read.
unfoldable pub login_as : Pam → ℕ → Option Bytes → Session → Session × Bool
unfolding read_secret transaction
login_as pam n none s = (s, false)
login_as pam n (some line) s = transaction (pam n (field line)) (field line) (read_secret 512 s).0

unfoldable pub attempt : Pam → ℕ → Session → Session × Bool
unfolding login_as read_plain
attempt pam n s = let r = read_plain 256 s in login_as pam n r.1 r.0

-- The loop, with the attempts that are left and the number of the next.
unfoldable pub attempts : Pam → ℕ → ℕ → Session → Session × Bool
unfolding attempt
attempts pam zero n s = (s, false)
attempts pam (suc left) n s =
    let r = attempt pam n s in
    let rest = attempts pam left (suc n) r.0 in if r.1 then (r.0, true) else rest

-- zen_session_init, without HAVE_PAM and with it: whether it returns 0.
unfoldable pub session_init : Option Pam → Session → Session × Bool
unfolding attempts
session_init none s = (s, true)
session_init (some pam) s = attempts pam 3 0 s

-- CreateSession: it fails, the reply has no string, or it has this one.
pub data Created : Type 0 where
  create_fails unreadable : Created
  named : Bytes → Created

-- What the system does in zen_session_run: sd_bus_open_system, CreateSession, fork.
pub record Os : Type 0 where
  pub bus_opens : Bool
  pub created : Created
  pub forks : Bool

-- "zen-dev-session"
abbrev pub stub_id : Bytes
stub_id =
    b'z' ∷ b'e' ∷ b'n' ∷ b'-' ∷ b'd' ∷ b'e' ∷ b'v' ∷ b'-' ∷ b's' ∷ b'e' ∷ b's' ∷ b's' ∷ b'i' ∷ b'o'
    ∷ b'n' ∷ []

-- "loginctl terminate-session "
abbrev pub terminate_command : Bytes
terminate_command =
    b'l' ∷ b'o' ∷ b'g' ∷ b'i' ∷ b'n' ∷ b'c' ∷ b't' ∷ b'l' ∷ b' ' ∷ b't' ∷ b'e' ∷ b'r' ∷ b'm' ∷ b'i'
    ∷ b'n' ∷ b'a' ∷ b't' ∷ b'e' ∷ b'-' ∷ b's' ∷ b'e' ∷ b's' ∷ b's' ∷ b'i' ∷ b'o' ∷ b'n' ∷ b' ' ∷ []

-- What is printed into s_session_id, of 256 bytes with the NUL.
abbrev pub id_of : Created → Bytes
id_of create_fails = stub_id
id_of unreadable = stub_id
id_of (named id) = take 255 id

-- The bus, and with it the session's name.
unfoldable pub open_session : Os → Session → Session
open_session os s =
    let opened = if os.bus_opens then call opens_bus (record s { bus = true }) else s in
    if opened.bus
    then call creates_session (record opened { session_id = id_of os.created })
    else record opened { session_id = stub_id }

-- `if (s_session_id[0] != '\0')`, with a command of 512 bytes.
unfoldable pub terminate_named : Bytes → Session → Session
terminate_named [] s = s
terminate_named (x ∷ xs) s = call (terminates (take 511 (terminate_command ++ (x ∷ xs)))) s

-- zen_session_run, in the parent. The child's XDG_SESSION_ID is in the call of the compositor.
unfoldable pub session_run : Os → Session → Session
unfolding open_session terminate_named
session_run os s =
    let o = open_session os s in
    if os.forks then terminate_named o.session_id (call (runs_compositor o.session_id) o) else o

-- zen_session_destroy
unfoldable pub session_destroy : Session → Session
session_destroy s =
    let d = if s.bus then call drops_bus (record s { bus = false }) else s in
    record d { session_id = [] }

-- main: the exit status.
unfoldable pub main : Option Pam → Os → Session → Session × ℕ
unfolding session_init session_run session_destroy
main pam os s =
    let r = session_init pam s in
    if r.1 then (session_destroy (session_run os r.0), 0) else (r.0, 1)
