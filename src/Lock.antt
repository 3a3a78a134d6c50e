-- ===== src/Lock.antt =====
-- src/compositor/src/lock.c: the lock screen, its password field and PAM.
pub mod Password
pub mod Picture
pub mod Session
pub mod Silence
pub mod Windows
use zen_os.Base.{
  ℕ, ◌+◌, ◌-◌, ◌%◌, Bool, true, false, not, ◌&&◌, ◌||◌, Option, none, some, List, [], ◌∷◌, Bytes,
  map, ltb, leb, ◌==◌, if◌then◌else◌, set,
}
use zen_os.Base.Int.{ℤ, pos, is_pos}
use zen_os.Compositor.{
  Compositor, LockState, LockScreen, no_lock_screen, no_password, pass_max, call,
}
use zen_os.Compositor.Calls.{draw_lock, send_locked, arm_idle_timer}
use zen_os.Compositor.World.{World}

-- The `msg_style` of a PAM message.
pub data Style : Type 0 where
  prompt_echo_off prompt_echo_on error_msg text_info : Style

-- A PAM conversation: the replies to a list of messages, or PAM_BUF_ERR. A reply may be NULL.
abbrev pub Conversation : Type 0
Conversation = List Style → Option (List (Option Bytes))

-- What pam_authenticate_password asks of its surroundings.
pub record Auth : Type 0 where
  -- HAVE_PAM is defined
  pub have_pam : Bool
  -- getenv("USER") and getlogin()
  pub user : Option Bytes
  pub login : Option Bytes
  -- pam_start succeeds for a user
  pub starts : Bytes → Bool
  -- pam_authenticate succeeds for a user, with a conversation
  pub authenticates : Bytes → Conversation → Bool
  -- calloc succeeds for that many replies
  pub has_memory : List Style → Bool
  pub strdup : Bytes → Option Bytes

-- The C string at the start of a buffer.
unfoldable pub c_string : Bytes → Bytes
c_string [] = []
c_string (c ∷ cs) = if c == 0 then [] else c ∷ c_string cs

unfoldable pub reply_to : Auth → Bytes → Style → Option Bytes
reply_to a password prompt_echo_off = a.strdup password
reply_to a password prompt_echo_on = a.strdup password
reply_to a password _ = none

-- pam_conv_fn
unfoldable pub pam_conv : Auth → Bytes → Conversation
unfolding reply_to
pam_conv a password messages =
    if a.has_memory messages then some (map (reply_to a password) messages) else none

abbrev root_user : Bytes
root_user = b'r' ∷ b'o' ∷ b'o' ∷ b't' ∷ []

-- A name that is missing or empty gives way to the next one.
abbrev or_name : Option Bytes → Bytes → Bytes
or_name none b = b
or_name (some []) b = b
or_name (some (x ∷ a)) b = x ∷ a

unfoldable pub username : Auth → Bytes
username a = or_name a.user (or_name a.login root_user)

-- pam_authenticate_password
unfoldable pub authenticate_password : Auth → Bytes → Bool
unfolding pam_conv username
authenticate_password a password =
    if a.have_pam
    then if a.starts (username a) then a.authenticates (username a) (pam_conv a password) else false
    else false

-- `memset(s_password, 0, …); s_password_len = 0`
abbrev pub clear_password : LockState → LockState
clear_password l = record l { password = no_password; password_len = 0 }

abbrev show_error : Bool → LockState → LockState
show_error b l = record l { screen = record l.screen { show_error = b } }

-- render_lock_ui: its guards. Lock.Picture has what it draws, which depends on the count of masked
-- characters and on the error flag.
unfoldable pub render_lock_ui : Compositor → Compositor
render_lock_ui c =
    let s = c.lock.screen in
    if not s.buffer || not (is_pos s.width) || not (is_pos s.height)
    then c
    else call (draw_lock c.lock.password_len s.show_error) c

-- ZEN_LOCK_IDLE_TIMEOUT_MS
abbrev idle_timeout_ms : ℕ
idle_timeout_ms = 300000

-- zen_lock_deactivate
unfoldable pub deactivate : Compositor → Compositor
deactivate c =
    if not c.locked
    then c
    else let unlocked = record c {
      locked = false;
      active_lock = false;
      lock = clear_password (record c.lock { screen = no_lock_screen });
    } in
      if c.lock.idle_timer then call (arm_idle_timer idle_timeout_ms) unlocked else unlocked

abbrev pub backspace : ℕ
backspace = 0xff08

abbrev pub return_key : ℕ
return_key = 0xff0d

abbrev pub kp_enter : ℕ
kp_enter = 0xff8d

abbrev pub escape : ℕ
escape = 0xff1b

-- `s_password[--s_password_len] = '\0'`
abbrev erase_last : LockState → LockState
erase_last l = record l {
  password = set l.password (l.password_len - 1) 0;
  password_len = l.password_len - 1;
}

-- `s_password[s_password_len++] = …; s_password[s_password_len] = '\0'`
abbrev type_char : ℕ → LockState → LockState
type_char k l = record l {
  password = set (set l.password l.password_len (k % 256)) (l.password_len + 1) 0;
  password_len = l.password_len + 1;
}

abbrev with_lock : LockState → Compositor → Compositor
with_lock l c = record c { lock = l }

-- Return or keypad Enter.
unfoldable pub submit : Auth → Compositor → Compositor
submit a c =
    if authenticate_password a (c_string c.lock.password)
    then deactivate c
    else render_lock_ui (with_lock (clear_password (show_error true c.lock)) c)

-- The keys that edit the password. (No two of the keysyms tested here and below are equal.)
unfoldable pub edit_key : ℕ → Compositor → Compositor
edit_key k c =
    if k == backspace
    then if ltb 0 c.lock.password_len
      then render_lock_ui (with_lock (show_error false (erase_last c.lock)) c)
      else c
    else if k == escape
    then render_lock_ui (with_lock (show_error false (clear_password c.lock)) c)
    else if leb 0x20 k && leb k 0x7e && ltb c.lock.password_len pass_max
    then render_lock_ui (with_lock (show_error false (type_char k c.lock)) c)
    else c

-- zen_lock_handle_key: the new state, and whether the event is consumed.
unfoldable pub handle_key : Auth → ℕ → Bool → Compositor → Compositor × Bool
handle_key a k pressed c =
    if not c.locked || not pressed
    then (c, c.locked)
    else if k == return_key || k == kp_enter
    then (submit a c, true)
    else (edit_key k c, true)

-- The size of the first output that has one.
pub primary_size : World → List ℕ → ℤ × ℤ
primary_size w [] = (pos 1920, pos 1080)
primary_size w (o ∷ os) =
    if is_pos (w.output_width o) then (w.output_width o, w.output_height o) else primary_size w os

abbrev lock_size : World → Compositor → ℤ × ℤ
lock_size w c = if c.output_layout then primary_size w w.layout_outputs else (pos 1920, pos 1080)

-- zen_lock_activate. The argument is whether the lock buffer was allocated and created.
unfoldable pub activate : World → Bool → Compositor → Compositor
unfolding primary_size
activate w created c =
    if c.locked
    then c
    else let size = lock_size w c in
      let screen = record no_lock_screen { buffer = created; width = size.0; height = size.1 } in
      let ready = with_lock (clear_password (record c.lock { screen = screen })) c in
      if created then render_lock_ui (record ready { locked = true }) else ready

-- idle_timeout_cb: the idle timer has run out.
unfoldable pub idle_timeout_cb : World → Bool → Compositor → Compositor
idle_timeout_cb w created c = activate w created c

-- lock_signal_cb: logind has sent Lock.
unfoldable pub lock_signal_cb : World → Bool → Compositor → Compositor
lock_signal_cb w created c = activate w created c

-- handle_new_lock: a client asks for the lock by the session lock protocol.
unfoldable pub handle_new_lock : ℕ → Compositor → Compositor
handle_new_lock wlr_lock c = call (send_locked wlr_lock) c

-- zen_lock_destroy
unfoldable pub lock_destroy : Compositor → Compositor
lock_destroy c = record c {
  locked = false;
  active_lock = false;
  lock_mgr = false;
  lock =
      clear_password
        (record c.lock { screen = no_lock_screen; idle_timer = false; signal_slot = false });
}

-- zen_lock_init. The arguments are whether the manager, the timer and the signal match were made.
unfoldable pub lock_init : Bool → Bool → Bool → Compositor → Compositor × Bool
unfolding lock_destroy
lock_init manager timer matched c =
    if not c.wl_display
    then (lock_destroy c, false)
    else let reset = record c {
      lock_mgr = manager;
      lock = clear_password (record c.lock { screen = no_lock_screen; idle_timer = false });
    } in
      if not manager
      then (lock_destroy reset, false)
      else let l = record reset.lock {
        idle_timer = timer;
        signal_slot = (c.bus && matched) || c.lock.signal_slot;
      } in
        let ready = with_lock l reset in
        (if timer then call (arm_idle_timer idle_timeout_ms) ready else ready, true)
