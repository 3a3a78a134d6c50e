-- ===== src/Windows/Order.antt =====
-- src/compositor/src/xdg.c: the order of the windows, and which window comes next.
use zen_os.Base.{
  ℕ, true, false, not, ◌&&◌, Option, none, some, List, [], ◌∷◌, ◌++◌, ◌≡◌, ◌≢◌, ◌⊎◌, inl, inr, refl,
  arith, Bool-cases, ◌==◌, is_at,
}
use zen_os.Base.Links.{has, to_front_splits}
use zen_os.Compositor.{Compositor, Toplevel, address_of}
use zen_os.Compositor.World.{World}
use zen_os.Windows.{focus_toplevel, handle_unmap, next_mapped}
use zen_os.Windows.Invariant.{focused-focus_toplevel}

-- `ts'` is `ts` with its first toplevel of the address `t` taken out and put in front.
abbrev pub MovesToFront : ℕ → List Toplevel → List Toplevel → Type 0
MovesToFront t ts ts' =
    (before : List Toplevel) × (x : Toplevel) × (after : List Toplevel) × (ts ≡ before ++ x ∷ after)
    × (x.address ≡ t)
    × (has address_of t before ≡ false)
    × (ts' ≡ x ∷ (before ++ after))

-- When focus is given to a toplevel of the list that does not have it, it has focus, it is first
-- in the list, and the others keep their order behind it.
pub focus_toplevel_front :
    (w : World) (t : ℕ) (c : Compositor)
    → has address_of t c.toplevels ≡ true
    → is_at t c.focused_toplevel ≡ false
    → ((focus_toplevel w (some t) c).focused_toplevel ≡ some t)
      × MovesToFront t c.toplevels (focus_toplevel w (some t) c).toplevels
unfolding focus_toplevel
focus_toplevel_front w t c h n =
    let (before, x, after, s, k, m, f) = to_front_splits address_of t c.toplevels h in
    (focused-focus_toplevel w (some t) c, (before, x, after, s, k, m, ground (arith, f)))

abbrev Skipped : World → ℕ → List Toplevel → Type 0
Skipped w t [] = Unit {0}
Skipped w t (x ∷ xs) = ((x.address ≡ t) ⊎ (w.mapped x.address ≡ false)) × Skipped w t xs

-- `o` is the first mapped toplevel of the list other than `t`, or NULL if there is none.
abbrev pub IsNextMapped : World → ℕ → List Toplevel → Option ℕ → Type 0
IsNextMapped w t ts none = Skipped w t ts
IsNextMapped w t ts (some u) =
    (before : List Toplevel) × (x : Toplevel) × (after : List Toplevel) × (ts ≡ before ++ x ∷ after)
    × Skipped w t before
    × (x.address ≡ u)
    × (u ≢ t)
    × (w.mapped u ≡ true)

IsNextMapped-cons :
    (w : World) (t : ℕ) (x : Toplevel) (ts : List Toplevel) (o : Option ℕ)
    → (x.address ≡ t) ⊎ (w.mapped x.address ≡ false)
    → IsNextMapped w t ts o
    → IsNextMapped w t (x ∷ ts) o
IsNextMapped-cons w t x ts none s h = (s, h)
IsNextMapped-cons w t x ts (some u) s (before, y, after, e, k, a, n, m) =
    (x ∷ before, y, after, rw e refl, (s, k), a, n, m)

next_mapped-IsNextMapped :
    (w : World) (t : ℕ) (ts : List Toplevel) → IsNextMapped w t ts (next_mapped w t ts)
unfolding next_mapped
next_mapped-IsNextMapped w t [] = tt
next_mapped-IsNextMapped w t (x ∷ xs) =
    elim (Bool-cases (not (x.address == t) && w.mapped x.address)) [
      | inl e ↦ rw (e, next_mapped) ([], x, xs, refl, tt, refl, ground arith, ground arith)
      | inr e ↦
          rw (e, next_mapped)
            (IsNextMapped-cons w t x xs _ (ground arith) (next_mapped-IsNextMapped w t xs))
    ]

-- Unmapping the focused toplevel passes focus to the most recently used other toplevel that is
-- mapped, and to none if there is none; unmapping another one leaves focus alone.
pub handle_unmap_focus :
    (w : World) (t : ℕ) (c : Compositor)
    → ((c.focused_toplevel ≡ some t)
        × IsNextMapped w t c.toplevels (handle_unmap w t c).focused_toplevel)
      ⊎ ((c.focused_toplevel ≢ some t)
          × ((handle_unmap w t c).focused_toplevel ≡ c.focused_toplevel))
unfolding handle_unmap
handle_unmap_focus w t c = elim (Bool-cases (is_at t c.focused_toplevel)) [
  | inl e ↦ inl (
    ground arith,
    rw (e, handle_unmap) (rw focused-focus_toplevel (next_mapped-IsNextMapped w t c.toplevels)),
  )
  | inr e ↦ inr (ground arith, rw (e, handle_unmap) refl)
]
