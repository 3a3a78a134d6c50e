-- ===== src/Session/Logind.antt =====
-- src/session/src/session.c: the logind session of zen_session_run.
use zen_os.Base.{
  ℕ, zero, suc, ◌≤◌, Bool, true, false, ◌||◌, ◌⊎◌, List, [], ◌∷◌, ◌++◌, Bytes, ◌≡◌, refl, inl, inr,
  Bool-cases, length, take, arith, ap, length-append,
}
use zen_os.Session.{
  Call, runs_compositor, terminates, Session, call, Os, Created, create_fails, unreadable, named,
  stub_id, id_of, open_session, terminate_named, terminate_command, session_run,
}

take-all : (n : ℕ) (xs : Bytes) → length xs ≤ n → take n xs ≡ xs
take-all zero [] h = refl
take-all zero (x ∷ xs) h = ground arith
take-all (suc n) [] h = refl
take-all (suc n) (x ∷ xs) h = ap (λ ys. x ∷ ys) (take-all n xs (omega (arith, h)))

-- A text of at most 255 bytes that is `long`, or its first 255.
abbrev pub IsPrinted : Bytes → Bytes → Type 0
IsPrinted long id =
    (rest : Bytes) × (long ≡ id ++ rest) × ((length id ≡ 255) ⊎ ((length id ≤ 255) × (rest ≡ [])))

-- The name that a session has after CreateSession.
abbrev pub IsGranted : Created → Bytes → Type 0
IsGranted create_fails id = id ≡ stub_id
IsGranted unreadable id = id ≡ stub_id
IsGranted (named long) id = IsPrinted long id

-- With a bus and without one.
abbrev pub IsSessionName : Os → Bool → Bytes → Type 0
IsSessionName os true id = IsGranted os.created id
IsSessionName os false id = id ≡ stub_id

take-cuts :
    (n : ℕ) (xs : Bytes)
    → (rest : Bytes) × (xs ≡ take n xs ++ rest)
      × ((length (take n xs) ≡ n) ⊎ ((length (take n xs) ≤ n) × (rest ≡ [])))
take-cuts zero xs = (xs, refl, inl refl)
take-cuts (suc n) [] = ([], refl, inr (omega arith, refl))
take-cuts (suc n) (x ∷ xs) =
    let (rest, e, h) = take-cuts n xs in
    (
      rest,
      ap (λ ys. x ∷ ys) e,
      elim h [ inl k ↦ inl (ap suc k) | inr k ↦ inr (omega (arith, k.0), k.1) ],
    )

id_of-IsGranted : (c : Created) → IsGranted c (id_of c)
id_of-IsGranted create_fails = refl
id_of-IsGranted unreadable = refl
id_of-IsGranted (named long) = take-cuts 255 long

open_session-IsSessionName :
    (os : Os) (s : Session)
    → IsSessionName os (os.bus_opens || s.bus) (open_session os s).session_id
unfolding open_session
open_session-IsSessionName os s = elim (Bool-cases os.bus_opens) [
  | inl e ↦ rw (e) (id_of-IsGranted os.created)
  | inr e ↦ elim (Bool-cases s.bus) [
    | inl b ↦ rw (e, b) (id_of-IsGranted os.created)
    | inr b ↦ rw (e, b) refl
  ]
]

IsGranted-short : (c : Created) (id : Bytes) → IsGranted c id → length id ≤ 255
IsGranted-short create_fails id h = rw h (omega arith)
IsGranted-short unreadable id h = rw h (omega arith)
IsGranted-short (named long) id (rest, e, inl h) = omega (arith, h)
IsGranted-short (named long) id (rest, e, inr h) = h.0

IsSessionName-short :
    (os : Os) (bus : Bool) (id : Bytes) → IsSessionName os bus id → length id ≤ 255
IsSessionName-short os true id h = IsGranted-short os.created id h
IsSessionName-short os false id h = rw h (omega arith)

-- The calls that end a session of that name: the compositor, and the command with the whole name.
abbrev pub ended : Bytes → List Call → List Call
ended [] ks = runs_compositor [] ∷ ks
ended (x ∷ xs) ks = terminates (terminate_command ++ (x ∷ xs)) ∷ runs_compositor (x ∷ xs) ∷ ks

terminate_named-ended :
    (id : Bytes) (s : Session)
    → length id ≤ 255
    → (terminate_named id (call (runs_compositor id) s)).calls ≡ ended id s.calls
unfolding terminate_named
terminate_named-ended [] s h = refl
terminate_named-ended (x ∷ xs) s h =
    ap (λ c. terminates c ∷ runs_compositor (x ∷ xs) ∷ s.calls)
      (take-all 511 (terminate_command ++ (x ∷ xs))
        (omega (arith, h, length-append terminate_command (x ∷ xs))))

-- When fork succeeds, zen_session_run ends with the compositor, run with the session's name, and
-- then, unless the name is empty, with the command that terminates the session of that name, which
-- no buffer has cut. With a bus, the name is the one that logind gave, or the first 255 bytes of a
-- longer one; without a bus, or when logind gave none, it is zen-dev-session.
pub session_run-ended :
    (os : Os) (s : Session)
    → os.forks ≡ true
    → (id : Bytes) × IsSessionName os (os.bus_opens || s.bus) id
      × ((session_run os s).calls ≡ ended id (open_session os s).calls)
unfolding session_run
session_run-ended os s h =
    let o = open_session os s in
    let name = open_session-IsSessionName os s in
    (
      o.session_id,
      name,
      rw (h) (
          terminate_named-ended o.session_id o
            (IsSessionName-short os (os.bus_opens || s.bus) o.session_id name)),
    )
