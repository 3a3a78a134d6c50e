-- ===== src/Session/Conversation.antt =====
-- src/session/src/session.c: what the PAM conversation leaves alone, and what it does with its heap.
use zen_os.Base.{
  ℕ, suc, ◌-◌, Bool, true, false, Option, none, some, List, [], ◌∷◌, Bytes, if◌then◌else◌,
}
use zen_os.Session.{
  Style, echo_off, echo_on, text_info, Session, allocate, allocate_from, read_plain, read_secret,
  answer, free_replies, fill_replies, pam_conv_fn, Dialog, verdict, converse, run_dialog,
}

-- A predicate that the steps of a conversation keep.
pub record Stable (P : Session → Type 0) : Type 0 where
  pub block : (s : Session) (m : List Bool) (h : ℕ) → P s → P (record s { memory = m; held = h })
  pub plain : (size : ℕ) (s : Session) → P s → P (read_plain size s).0
  pub secret : (size : ℕ) (s : Session) → P s → P (read_secret size s).0

module _ (P : Session → Type 0) (stable : Stable P) where
  allocate_from-keeps : (ms : List Bool) (s : Session) → P s → P (allocate_from ms s).0
  unfolding allocate_from
  allocate_from-keeps [] s p = stable.block s s.memory (suc s.held) p
  allocate_from-keeps (true ∷ ms) s p = stable.block s ms (suc s.held) p
  allocate_from-keeps (false ∷ ms) s p = stable.block s ms s.held p

  allocate-keeps : (s : Session) → P s → P (allocate s).0
  unfolding allocate
  allocate-keeps s p = allocate_from-keeps s.memory s p

  free_replies-keeps : (rs : List (Option Bytes)) (s : Session) → P s → P (free_replies rs s)
  unfolding free_replies
  free_replies-keeps [] s p = stable.block s s.memory (s.held - 1) p
  free_replies-keeps (none ∷ rs) s p = free_replies-keeps rs s p
  free_replies-keeps (some r ∷ rs) s p =
      free_replies-keeps rs (record s { held = s.held - 1 })
        (stable.block s s.memory (s.held - 1) p)

  -- A round for a prompt, when the line is read.
  prompt-keeps :
      (ms : List Style) (rs : List (Option Bytes)) (a : Session × Bool)
      → ((s : Session) → P s → P (fill_replies ms rs s).0)
      → (ss : List (Option Bytes)) → P a.0
      → P (if a.1 then fill_replies ms rs a.0 else (free_replies ss a.0, none)).0
  unfolding fill_replies
  prompt-keeps ms rs (s, true) rest ss p = rest s p
  prompt-keeps ms rs (s, false) rest ss p = free_replies-keeps ss s p

  fill_replies-keeps :
      (ms : List Style) (rs : List (Option Bytes)) (s : Session) → P s → P (fill_replies ms rs s).0
  unfolding fill_replies
  fill_replies-keeps [] rs s p = p
  fill_replies-keeps (text_info ∷ ms) rs s p = fill_replies-keeps ms (none ∷ rs) s p
  fill_replies-keeps (echo_off ∷ ms) rs s p =
      let r = read_secret 512 s in
      let rs' = some (answer r.1) ∷ rs in
      prompt-keeps ms rs' (allocate r.0) (fill_replies-keeps ms rs') rs
        (allocate-keeps r.0 (stable.secret 512 s p))
  fill_replies-keeps (echo_on ∷ ms) rs s p =
      let r = read_plain 512 s in
      let rs' = some (answer r.1) ∷ rs in
      prompt-keeps ms rs' (allocate r.0) (fill_replies-keeps ms rs') rs
        (allocate-keeps r.0 (stable.plain 512 s p))

  filled-keeps :
      (ms : List Style) (a : Session × Bool)
      → P a.0
      → P (if a.1 then fill_replies ms [] a.0 else (a.0, none)).0
  filled-keeps ms (s, true) p = fill_replies-keeps ms [] s p
  filled-keeps ms (s, false) p = p

  pub pam_conv_fn-keeps : (ms : List Style) (s : Session) → P s → P (pam_conv_fn ms s).0
  unfolding pam_conv_fn
  pam_conv_fn-keeps ms s p = filled-keeps ms (allocate s) (allocate-keeps s p)

  pub run_dialog-keeps : (d : Dialog) (s : Session) → P s → P (run_dialog d s).0
  unfolding run_dialog
  run_dialog-keeps (verdict ok) s p = p
  run_dialog-keeps (converse ms next) s p =
      run_dialog-keeps (next (pam_conv_fn ms s).1) (pam_conv_fn ms s).0 (pam_conv_fn-keeps ms s p)
