-- ===== src/Keybinds/Overrides.antt =====
-- src/compositor/src/keybinds.c: zen_keybinds_init, with the defaults and the configuration.
use zen_os.Base.{
  ℕ, Bool, true, false, ◌&&◌, Option, none, some, List, [], ◌∷◌, ◌++◌, Bytes, ◌≡◌, refl, sym, ◌∙◌,
  ◌==◌, if◌then◌else◌, inl, inr, Bool-cases, Option-cases, append-nil,
}
use zen_os.Base.Scan.{Ensures, bind-Ensures}
use zen_os.Compositor.{Compositor, Keybinding, Action}
use zen_os.Compositor.World.{World}
use zen_os.Keybinds.{
  find_binding, handle_key, execute_action, defaults, register_all, keybinds_init, load_overrides,
  perform,
}
use zen_os.Keybinds.Fields.{Memory}
use zen_os.Keybinds.Config.{ConfigFile, register_binding, load_config}
use zen_os.Keybinds.Config.Ends.{Extends, register_binding-Registers, load_config-Ensures}

unfoldable pub or_binding : Option Keybinding → Option Keybinding → Option Keybinding
or_binding none b = b
or_binding (some a) b = some a

pub find_binding-append :
    (modifiers keysym : ℕ) (xs ys : List Keybinding)
    → find_binding modifiers keysym (xs ++ ys)
      ≡ or_binding (find_binding modifiers keysym xs) (find_binding modifiers keysym ys)
unfolding find_binding or_binding
find_binding-append modifiers keysym [] ys = refl
find_binding-append modifiers keysym (x ∷ xs) ys =
    elim (Bool-cases (x.modifiers == modifiers && x.keysym == keysym)) [
      | inl e ↦ rw (e, find_binding)
      | inr e ↦ rw (e, find_binding) (find_binding-append modifiers keysym xs ys)
    ]

-- The default action of a key combination.
unfoldable pub default_action : ℕ → ℕ → List (ℕ × ℕ × Action) → Option Action
default_action modifiers keysym [] = none
default_action modifiers keysym ((m, k, a) ∷ ds) =
    if m == modifiers && k == keysym then some a else default_action modifiers keysym ds

-- A list of bindings in which a combination has an action.
abbrev Finds : ℕ → ℕ → Action → List Keybinding → Type 0
Finds modifiers keysym a bs =
    (b : Keybinding) × (find_binding modifiers keysym bs ≡ some b) × (b.action ≡ a)

Finds-append :
    (modifiers keysym : ℕ) (a : Action) (xs ys : List Keybinding)
    → Finds modifiers keysym a xs
    → Finds modifiers keysym a (xs ++ ys)
unfolding or_binding
Finds-append modifiers keysym a xs ys (b, e, f) =
    (b, find_binding-append modifiers keysym xs ys ∙ rw (e, or_binding), f)

-- A list of bindings in which a combination has none.
Finds-last :
    (modifiers keysym : ℕ) (a : Action) (xs : List Keybinding) (b : Keybinding)
    → find_binding modifiers keysym xs ≡ none
    → (b.modifiers == modifiers && b.keysym == keysym) ≡ true
    → b.action ≡ a
    → Finds modifiers keysym a (xs ++ b ∷ [])
unfolding or_binding find_binding
Finds-last modifiers keysym a xs b n e f =
    (b, find_binding-append modifiers keysym xs (b ∷ []) ∙ rw (n, e, or_binding, find_binding), f)

AllFound : ℕ → ℕ → Action → Option (List Keybinding) → Type 0
AllFound modifiers keysym a none = Unit
AllFound modifiers keysym a (some bs) = Finds modifiers keysym a bs

register_all_keeps :
    (m : Memory) (modifiers keysym : ℕ) (a : Action) (ds : List (ℕ × ℕ × Action))
    (bs : List Keybinding)
    → Finds modifiers keysym a bs
    → AllFound modifiers keysym a (register_all m ds bs)
unfolding register_all AllFound
register_all_keeps m modifiers keysym a [] bs f = f
register_all_keeps m modifiers keysym a ((mods, k, act) ∷ ds) bs f =
    elim (Option-cases (register_binding m mods k act none bs)) [
      | inl e ↦ rw (e, register_all) tt
      | inr (cs, e) ↦
          rw (e, register_all)
            (register_all_keeps m modifiers keysym a ds cs (
              let (cmd, g) = rw e at (register_binding-Registers m mods k act none bs) in
              rw g (Finds-append modifiers keysym a bs _ f)))
    ]

some_equal : {a b : Action} → some a ≡ some b → a ≡ b
some_equal h = cc

register_all_finds :
    (m : Memory) (modifiers keysym : ℕ) (a : Action) (ds : List (ℕ × ℕ × Action))
    (bs : List Keybinding)
    → find_binding modifiers keysym bs ≡ none
    → default_action modifiers keysym ds ≡ some a
    → AllFound modifiers keysym a (register_all m ds bs)
unfolding register_all AllFound default_action or_binding find_binding
register_all_finds m modifiers keysym a [] bs n h = absurd (cc)
register_all_finds m modifiers keysym a ((mods, k, act) ∷ ds) bs n h =
    elim (Option-cases (register_binding m mods k act none bs)) [
      | inl e ↦ rw (e, register_all) tt
      | inr (cs, e) ↦
          let (cmd, g) = rw e at (register_binding-Registers m mods k act none bs) in
          elim (Bool-cases (mods == modifiers && k == keysym)) [
            | inl p ↦
                rw (e, g, register_all)
                  (register_all_keeps m modifiers keysym a ds _ (
                    Finds-last modifiers keysym a bs _ n p
                      (some_equal (rw (p, default_action) at h))))
            | inr p ↦
                rw (e, g, register_all)
                  (register_all_finds m modifiers keysym a ds _
                    (find_binding-append modifiers keysym bs _
                      ∙ rw (n, p, or_binding, find_binding))
                    (rw (p, default_action) at h))
          ]
    ]

-- What zen_keybinds_init leaves for a key that has a default action.
unfoldable pub Defaulted : World → Bool → ℕ → ℕ → Action → Compositor × Bool → Type 0
Defaulted w created modifiers keysym a (c, true) =
    (cmd : Option Bytes) × (handle_key w created modifiers keysym c
      ≡ (execute_action w created a cmd c, true))
Defaulted w created modifiers keysym a (c, false) = c.keybindings ≡ []

Finds-handle_key :
    (w : World) (created : Bool) (modifiers keysym : ℕ) (a : Action) (c : Compositor)
    → Finds modifiers keysym a c.keybindings
    → Defaulted w created modifiers keysym a (c, true)
unfolding Defaulted handle_key perform
Finds-handle_key w created modifiers keysym a c (b, e, f) =
    (b.custom_cmd, rw (e, handle_key, perform) (rw f refl))

load_overrides-Ensures :
    (m : Memory) (keysym_of : Bytes → ℕ) (file : Option (Option ConfigFile)) (bs : List Keybinding)
    → Ensures (Extends bs) (load_overrides m keysym_of file bs)
load_overrides-Ensures m keysym_of none bs = ([], sym (append-nil bs))
load_overrides-Ensures m keysym_of (some file) bs =
    bind-Ensures (λ r. Extends bs r.1) _ (load_config m keysym_of file bs) _
      (load_config-Ensures m keysym_of file bs) (λ r h. h)

-- For a key combination of the table of defaults, and whatever the configuration says,
-- zen_keybinds_init does not run out of the fuel of its loops; if it returns 0 the combination
-- does its default action, and if it fails no binding is left.
pub keybinds_init-Ensures :
    (w : World) (created : Bool) (m : Memory) (keysym_of : Bytes → ℕ)
    (file : Option (Option ConfigFile)) (c : Compositor) (modifiers keysym : ℕ) (a : Action)
    → default_action modifiers keysym defaults ≡ some a
    → Ensures (Defaulted w created modifiers keysym a) (keybinds_init m keysym_of file c)
unfolding keybinds_init Defaulted find_binding AllFound
keybinds_init-Ensures w created m keysym_of file c modifiers keysym a h =
    elim (Option-cases (register_all m defaults [])) [
      | inl e ↦ rw (e, keybinds_init) refl
      | inr (bs, e) ↦
          rw (e, keybinds_init)
            (bind-Ensures (Extends bs) _ (load_overrides m keysym_of file bs) _
              (load_overrides-Ensures m keysym_of file bs)
              (λ cs g. Finds-handle_key w created modifiers keysym a _ (
                rw g.1 (
                  Finds-append modifiers keysym a bs g.0 (
                    rw (e, AllFound) at
                      (register_all_finds m modifiers keysym a defaults [] refl h))))))
    ]

-- Nothing but the bindings is another.
abbrev pub OnlyBindings : Compositor → Compositor → Type 0
OnlyBindings c d = (bs : List Keybinding) × (d ≡ record c { keybindings = bs })

-- Whatever the configuration says, there is fuel enough.
pub keybinds_init-OnlyBindings :
    (m : Memory) (keysym_of : Bytes → ℕ) (file : Option (Option ConfigFile)) (c : Compositor)
    → Ensures (λ r. OnlyBindings c r.0) (keybinds_init m keysym_of file c)
unfolding keybinds_init
keybinds_init-OnlyBindings m keysym_of file c = elim (Option-cases (register_all m defaults [])) [
  | inl e ↦ rw (e, keybinds_init) ([], refl)
  | inr (bs, e) ↦
      rw (e, keybinds_init)
        (bind-Ensures (Extends bs) (λ r. OnlyBindings c r.0) (load_overrides m keysym_of file bs) _
          (load_overrides-Ensures m keysym_of file bs) (λ cs g. (cs, refl)))
]
