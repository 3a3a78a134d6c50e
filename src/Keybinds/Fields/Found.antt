-- ===== src/Keybinds/Fields/Found.antt =====
-- src/compositor/src/keybinds.c: what the loop of extract_string_field finds in a text that is put
-- together from quoted strings.
use zen_os.Base.{
  ℕ, zero, suc, ◌<◌, Bool, true, not, ◌&&◌, ◌||◌, Option, none, some, [], ◌∷◌, ◌++◌, Bytes, ◌≡◌,
  refl, ◌∙◌, arith, ◌==◌, length, length-append, inl, inr, Option-cases, ap, sym,
}
use zen_os.Base.Scan.{
  Scan, done, Next, again, stop, loop, skip_blanks, length-skip_blanks, strip_prefix, after_match,
}
use zen_os.Base.Texts.{
  quoteless, blank, skip_blanks-append, strip_prefix_quoted, strip_prefix-append,
}
use zen_os.Keybinds.Fields.{
  Memory, quoted, string_value, field_value, field_colon, field_round, extract_string_field,
}

-- From a text on, the loop ends with a result, in one round more than there are characters at most.
pub record Finds (m : Memory) (key text : Bytes) (r : Option Bytes) : Type 0 where
  pub ends : (n : ℕ) → length text < n → loop n (field_round m (quoted key)) text ≡ done r

-- Characters that stand for themselves in a value.
abbrev pub ordinary : Bytes → Bool
ordinary [] = true
ordinary (x ∷ xs) = not (x == b'"' || x == b'\\') && ordinary xs

string_value-ordinary :
    (v rest : Bytes) → ordinary v ≡ true → string_value (v ++ b'"' ∷ rest) ≡ (v, b'"' ∷ rest)
unfolding string_value
string_value-ordinary [] [] h = refl
string_value-ordinary [] (y ∷ rest) h = refl
string_value-ordinary (x ∷ []) rest h = ground (arith, string_value-ordinary [] rest refl)
string_value-ordinary (x ∷ y ∷ v) rest h = ground (arith, string_value-ordinary (y ∷ v) rest)

module _ (m : Memory) (key : Bytes) where
  -- Nothing is left.
  pub Finds-nil : Finds m key [] none
  unfolding loop field_round
  Finds-nil = record { ends = ends }
    where
      ends : (n : ℕ) → length {A = ℕ} [] < n → loop n (field_round m (quoted key)) [] ≡ done none
      ends zero h = absurd (omega arith)
      ends (suc n) h = refl

  -- A round looks at a text only through the search for the key.
  follow_match : Option Bytes → Scan (Next Bytes (Option Bytes))
  follow_match none = done (stop none)
  follow_match (some rest) = done (field_colon m (skip_blanks rest))

  field_round-after_match :
      (text : Bytes)
      → field_round m (quoted key) text ≡ follow_match (after_match (quoted key) text)
  unfolding field_round follow_match after_match
  field_round-after_match [] = refl
  field_round-after_match (x ∷ text) = elim (Option-cases (after_match (quoted key) (x ∷ text))) [
    | inl e ↦ rw (e, field_round, follow_match) refl
    | inr (rest, e) ↦ rw (e, field_round, follow_match) refl
  ]

  -- A text in front in which no match begins.
  pub Finds-over :
      (pre : Bytes) {text : Bytes} {r : Option Bytes}
      → after_match (quoted key) (pre ++ text) ≡ after_match (quoted key) text
      → Finds m key text r
      → Finds m key (pre ++ text) r
  unfolding loop
  Finds-over pre {text} {r} e f = record { ends = ends }
    where
      same : field_round m (quoted key) (pre ++ text) ≡ field_round m (quoted key) text
      same =
          field_round-after_match (pre ++ text)
          ∙ ap follow_match e
          ∙ sym (field_round-after_match text)

      ends :
          (n : ℕ)
          → length (pre ++ text) < n
          → loop n (field_round m (quoted key)) (pre ++ text) ≡ done r
      ends zero h = absurd (omega arith)
      ends (suc n) h = rw same (f.ends (suc n) (omega (arith, length-append pre text)))

  Finds-step :
      (x : ℕ) {text : Bytes} {r : Option Bytes}
      → strip_prefix (quoted key) (x ∷ text) ≡ none
      → Finds m key text r
      → Finds m key (x ∷ text) r
  unfolding after_match
  Finds-step x e f = Finds-over (x ∷ []) (rw e refl) f

  -- Text without a quote.
  pub Finds-quoteless :
      (s : Bytes) {text : Bytes} {r : Option Bytes}
      → quoteless s ≡ true
      → Finds m key text r
      → Finds m key (s ++ text) r
  unfolding strip_prefix
  Finds-quoteless [] h f = f
  Finds-quoteless (x ∷ s) h f = Finds-step x (ground arith) (Finds-quoteless s (ground arith) f)

  -- The key is there.
  field_round_found :
      (t : Bytes) {rest : Bytes}
      → strip_prefix (key ++ b'"' ∷ []) t ≡ some rest
      → field_round m (quoted key) (b'"' ∷ t) ≡ done (field_colon m (skip_blanks rest))
  unfolding strip_prefix field_round after_match
  field_round_found t e = rw (e, field_round)

  -- A quoted string that no colon follows, whether it is the key or not.
  pub Finds-string :
      (tok : Bytes) {text : Bytes} {r : Option Bytes}
      → quoteless key ≡ true
      → quoteless tok ≡ true
      → strip_prefix (key ++ b'"' ∷ []) text ≡ none
      → field_colon m (skip_blanks text) ≡ again (skip_blanks text)
      → Finds m key text r
      → Finds m key (skip_blanks text) r
      → Finds m key (b'"' ∷ (tok ++ b'"' ∷ text)) r
  unfolding strip_prefix field_round after_match loop
  Finds-string tok {text} {r} hk ht closing colon f g =
      elim (strip_prefix_quoted key tok text hk ht) [
        | inl e ↦ Finds-step b'"' e (Finds-quoteless tok ht (Finds-step b'"' closing f))
        | inr e ↦ record { ends = ends e }
      ]
    where
      ends :
          strip_prefix (key ++ b'"' ∷ []) (tok ++ b'"' ∷ text) ≡ some text
          → (n : ℕ) → length (b'"' ∷ (tok ++ b'"' ∷ text)) < n
          → loop n (field_round m (quoted key)) (b'"' ∷ (tok ++ b'"' ∷ text)) ≡ done r
      ends e zero h = absurd (omega arith)
      ends e (suc n) h =
          rw (field_round_found (tok ++ b'"' ∷ text) e, colon, loop)
            (g.ends n (omega (arith, length-append tok (b'"' ∷ text), length-skip_blanks text)))

  -- The key, a colon, blanks and a quoted value.
  pub Finds-value :
      (behind v rest : Bytes)
      → ((s : Bytes) → m.copy s ≡ some s)
      → blank behind ≡ true
      → ordinary v ≡ true
      → Finds m key (quoted key ++ b':' ∷ (behind ++ b'"' ∷ (v ++ b'"' ∷ rest))) (some v)
  unfolding strip_prefix field_round after_match loop field_colon field_value skip_blanks
  Finds-value behind v rest copies b h = record { ends = ends }
    where
      found :
          field_round m (quoted key) (quoted key ++ b':' ∷ (behind ++ b'"' ∷ (v ++ b'"' ∷ rest)))
          ≡ done (stop (some v))
      found =
          field_round_found _
            (strip_prefix-append (key ++ b'"' ∷ []) (b':' ∷ (behind ++ b'"' ∷ (v ++ b'"' ∷ rest))))
          ∙ ap (λ t. done (field_value m t))
              (skip_blanks-append behind b'"' (v ++ b'"' ∷ rest) b refl)
          ∙ rw (string_value-ordinary v rest h, copies v) refl

      ends :
          (n : ℕ)
          → length (quoted key ++ b':' ∷ (behind ++ b'"' ∷ (v ++ b'"' ∷ rest))) < n
          → loop n
              (field_round m (quoted key))
              (quoted key ++ b':' ∷ (behind ++ b'"' ∷ (v ++ b'"' ∷ rest)))
            ≡ done (some v)
      ends zero h = absurd (omega arith)
      ends (suc n) l = rw (found, loop)

-- What extract_string_field returns.
pub extract_string_field-Finds :
    (m : Memory) (text key : Bytes) {r : Option Bytes}
    → Finds m key text r
    → extract_string_field m text key ≡ done r
unfolding extract_string_field
extract_string_field-Finds m text key f = f.ends (suc (length text)) (omega arith)
