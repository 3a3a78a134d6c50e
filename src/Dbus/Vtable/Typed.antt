-- ===== src/Dbus/Vtable/Typed.antt =====
-- src/compositor/src/dbus.c: what the methods of the table read and reply has the types that the table
-- declares.
use zen_os.Base.{
  ℕ, zero, suc, Bool, true, false, Option, none, some, List, [], ◌∷◌, Bytes, ◌≡◌, refl, ap, subst,
  ◌∙◌, arith, get_elem?, not, ◌||◌, ltb, if◌then◌else◌,
}
use zen_os.Base.Int.{ℤ, pos_part, neg_part, is_pos}
use zen_os.Compositor.{Compositor}
use zen_os.Dbus.{
  read, Reply, yes_or_no, number, names, error, invalid_argument, fork_failed, is_empty, einval,
  handle_launch_app, handle_get_running_apps, handle_pin_to_shelf, handle_unpin_from_shelf,
  handle_set_shelf_config, handle_toggle_dark_mode, handle_show_notification, dispatch,
}
use zen_os.Dbus.Vtable.{
  launches, lists_running, pins, unpins, configures_shelf, toggles_dark_mode, shows_notification,
  VtableEntry, sig_s, sig_b, sig_i, sig_as, sig_sbi, sig_ssssii, vtable, Value, str, boolean, int32,
  signature_of, Reader, handled,
}

-- A reply has that signature, or says that an argument is bad, or what call failed.
abbrev pub Typed : Bytes → Option ℕ → Reply → Type 0
Typed sig fails (yes_or_no b) = sig ≡ sig_b
Typed sig fails (number n) = sig ≡ sig_i
Typed sig fails (names l) = sig ≡ sig_as
Typed sig fails (invalid_argument e) = Unit
Typed sig fails (fork_failed e) = fails ≡ some e
Typed sig fails (error e) = fails ≡ some e

-- A message of the declared types is answered with the declared types.
abbrev pub Answers : VtableEntry → Type 0
Answers e =
    (r : Reader) (fails : Option ℕ) (vs : List Value) (c : Compositor)
    → signature_of vs ≡ e.signature
    → Typed e.reply_signature fails (dispatch (handled r fails e.handler vs) c).1

-- The first argument, by its type.
str_first :
    (vs : List Value) {t : Bytes}
    → signature_of vs ≡ b's' ∷ t
    → (s : Bytes) × (ws : List Value) × (vs ≡ str s ∷ ws) × (signature_of ws ≡ t)
str_first [] h = absurd (cc)
str_first (str s ∷ ws) h = (s, ws, refl, ground arith)
str_first (boolean b ∷ ws) h = absurd (ground arith)
str_first (int32 n ∷ ws) h = absurd (ground arith)

boolean_first :
    (vs : List Value) {t : Bytes}
    → signature_of vs ≡ b'b' ∷ t
    → (b : Bool) × (ws : List Value) × (vs ≡ boolean b ∷ ws) × (signature_of ws ≡ t)
boolean_first [] h = absurd (cc)
boolean_first (boolean b ∷ ws) h = (b, ws, refl, ground arith)
boolean_first (str s ∷ ws) h = absurd (ground arith)
boolean_first (int32 n ∷ ws) h = absurd (ground arith)

int32_first :
    (vs : List Value) {t : Bytes}
    → signature_of vs ≡ b'i' ∷ t
    → (n : ℤ) × (ws : List Value) × (vs ≡ int32 n ∷ ws) × (signature_of ws ≡ t)
int32_first [] h = absurd (cc)
int32_first (int32 n ∷ ws) h = (n, ws, refl, ground arith)
int32_first (str s ∷ ws) h = absurd (ground arith)
int32_first (boolean b ∷ ws) h = absurd (ground arith)

no_more : (vs : List Value) → signature_of vs ≡ [] → vs ≡ []
no_more [] h = refl
no_more (v ∷ vs) h = absurd (cc)

-- What follows a string that is the only argument.
one_str : (vs : List Value) → signature_of vs ≡ sig_s → (s : Bytes) × (vs ≡ str s ∷ [])
one_str vs h = let (s, ws, e, f) = str_first vs h in (s, e ∙ ap (λ ws. str s ∷ ws) (no_more ws f))

-- A handler that refuses on a test, and otherwise replies.
refuses_or :
    (b : Bool) (sig : Bytes) (fails : Option ℕ) (c : Compositor) (r : Reply)
    → Typed sig fails r
    → Typed sig fails
        ((if◌then◌else◌ {A = Compositor × Reply} b (c, invalid_argument einval) (c, r)).1)
refuses_or true sig fails c r t = tt
refuses_or false sig fails c r t = t

-- The replies to arguments that were read.
launch_app-Typed :
    (fails : Option ℕ) (s : Bytes) (c : Compositor)
    → Typed sig_b fails (handle_launch_app fails (read (some s)) c).1
unfolding handle_launch_app
launch_app-Typed fails [] c = tt
launch_app-Typed none (x ∷ s) c = refl
launch_app-Typed (some e) (x ∷ s) c = refl

get_running_apps-Typed :
    (fails : Option ℕ) (c : Compositor) → Typed sig_as fails (handle_get_running_apps fails c).1
unfolding handle_get_running_apps
get_running_apps-Typed none c = refl
get_running_apps-Typed (some e) c = refl

-- What is read of a message of the types that a handler asks for.
message_read_typed :
    (r : Reader) (f : Bytes) (vs ws : List Value)
    → signature_of vs ≡ f
    → vs ≡ ws
    → r.message_read f vs ≡ read ws
message_read_typed r f vs ws h e =
    subst (λ g. r.message_read g vs ≡ read ws) h (r.reads_types vs ∙ ap read e)

module _ (r : Reader) (fails : Option ℕ) (c : Compositor) (vs : List Value) where
  launches-Typed :
      signature_of vs ≡ sig_s → Typed sig_b fails (dispatch (handled r fails launches vs) c).1
  unfolding dispatch handled
  launches-Typed h =
      let (s, e) = one_str vs h in
      rw (message_read_typed r sig_s vs (str s ∷ []) h e) (launch_app-Typed fails s c)

  lists_running-Typed :
      signature_of vs ≡ [] → Typed sig_as fails (dispatch (handled r fails lists_running vs) c).1
  unfolding dispatch handled
  lists_running-Typed h = get_running_apps-Typed fails c

  pins-Typed : signature_of vs ≡ sig_s → Typed sig_b fails (dispatch (handled r fails pins vs) c).1
  unfolding dispatch handled handle_pin_to_shelf
  pins-Typed h =
      let (s, e) = one_str vs h in
      rw (message_read_typed r sig_s vs (str s ∷ []) h e)
        (refuses_or (is_empty (some s)) sig_b fails c (yes_or_no true) refl)

  unpins-Typed :
      signature_of vs ≡ sig_s → Typed sig_b fails (dispatch (handled r fails unpins vs) c).1
  unfolding dispatch handled handle_unpin_from_shelf
  unpins-Typed h =
      let (s, e) = one_str vs h in
      rw (message_read_typed r sig_s vs (str s ∷ []) h e)
        (refuses_or (is_empty (some s)) sig_b fails c (yes_or_no true) refl)

  configures_shelf-Typed :
      signature_of vs ≡ sig_sbi
      → Typed sig_b fails (dispatch (handled r fails configures_shelf vs) c).1
  unfolding dispatch handled handle_set_shelf_config
  configures_shelf-Typed h =
      let (s, vs1, e1, h1) = str_first vs h in
      let (b, vs2, e2, h2) = boolean_first vs1 h1 in
      let (n, vs3, e3, h3) = int32_first vs2 h2 in
      let e : vs ≡ str s ∷ boolean b ∷ int32 n ∷ [] =
        e1
        ∙ ap (λ l. str s ∷ l)
            (e2 ∙ ap (λ l. boolean b ∷ l) (e3 ∙ ap (λ l. int32 n ∷ l) (no_more vs3 h3))) in
      rw (message_read_typed r sig_sbi vs (str s ∷ boolean b ∷ int32 n ∷ []) h e)
        (refuses_or (not (is_pos n)) sig_b fails c (yes_or_no true) refl)

  toggles_dark_mode-Typed :
      signature_of vs ≡ sig_b
      → Typed sig_b fails (dispatch (handled r fails toggles_dark_mode vs) c).1
  unfolding dispatch handled handle_toggle_dark_mode
  toggles_dark_mode-Typed h =
      let (b, vs1, e1, h1) = boolean_first vs h in
      let e : vs ≡ boolean b ∷ [] = e1 ∙ ap (λ l. boolean b ∷ l) (no_more vs1 h1) in
      rw (message_read_typed r sig_b vs (boolean b ∷ []) h e) refl

  shows_notification-Typed :
      signature_of vs ≡ sig_ssssii
      → Typed sig_i fails (dispatch (handled r fails shows_notification vs) c).1
  unfolding dispatch handled handle_show_notification
  shows_notification-Typed h =
      let (s1, vs1, e1, h1) = str_first vs h in
      let (s2, vs2, e2, h2) = str_first vs1 h1 in
      let (s3, vs3, e3, h3) = str_first vs2 h2 in
      let (s4, vs4, e4, h4) = str_first vs3 h3 in
      let (u, vs5, e5, h5) = int32_first vs4 h4 in
      let (t, vs6, e6, h6) = int32_first vs5 h5 in
      let ws = str s1 ∷ str s2 ∷ str s3 ∷ str s4 ∷ int32 u ∷ int32 t ∷ [] in
      let integers = e5 ∙ ap (λ l. int32 u ∷ l) (e6 ∙ ap (λ l. int32 t ∷ l) (no_more vs6 h6)) in
      let strings = e3 ∙ ap (λ l. str s3 ∷ l) (e4 ∙ ap (λ l. str s4 ∷ l) integers) in
      let e : vs ≡ ws = e1 ∙ ap (λ l. str s1 ∷ l) (e2 ∙ ap (λ l. str s2 ∷ l) strings) in
      rw (message_read_typed r sig_ssssii vs ws h e)
        (refuses_or (ltb 0 (neg_part u) || ltb 2 (pos_part u)) sig_i fails c (number 1) refl)

abbrev AllAnswer : List VtableEntry → Type 0
AllAnswer [] = Unit {0}
AllAnswer (e ∷ es) = Answers e × AllAnswer es

get_elem?-AllAnswer :
    (es : List VtableEntry) (n : ℕ) (e : VtableEntry)
    → AllAnswer es
    → get_elem? es n ≡ some e
    → Answers e
get_elem?-AllAnswer [] n e all h = absurd (cc)
get_elem?-AllAnswer (x ∷ es) zero e all h = let same : x ≡ e = cc in subst Answers same all.0
get_elem?-AllAnswer (x ∷ es) (suc n) e all h = get_elem?-AllAnswer es n e all.1 h

vtable-AllAnswer : AllAnswer vtable
unfolding vtable
vtable-AllAnswer = (
  λ r fails vs c h. launches-Typed r fails c vs h,
  (
    λ r fails vs c h. lists_running-Typed r fails c vs h,
    (
      λ r fails vs c h. pins-Typed r fails c vs h,
      (
        λ r fails vs c h. unpins-Typed r fails c vs h,
        (
          λ r fails vs c h. configures_shelf-Typed r fails c vs h,
          (
            λ r fails vs c h. toggles_dark_mode-Typed r fails c vs h,
            (λ r fails vs c h. shows_notification-Typed r fails c vs h, tt),
          ),
        ),
      ),
    ),
  ),
)

-- For each entry of the table, when sd_bus_message_read reads a message of the types that it is
-- given: a message whose arguments have the entry's signature is read, and what its handler replies
-- has the entry's reply signature, or says that an argument is bad, or is the error of fork or of
-- building a reply.
pub vtable-Typed :
    (n : ℕ) (e : VtableEntry) (r : Reader) (fails : Option ℕ) (vs : List Value) (c : Compositor)
    → get_elem? vtable n ≡ some e
    → signature_of vs ≡ e.signature
    → Typed e.reply_signature fails (dispatch (handled r fails e.handler vs) c).1
vtable-Typed n e r fails vs c h k = get_elem?-AllAnswer vtable n e vtable-AllAnswer h r fails vs c k
