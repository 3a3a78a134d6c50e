-- ===== src/Xwayland/Local.antt =====
-- src/compositor/src/xwayland.c: what an event at one window changes.
use zen_os.Base.{
  ℕ, Bool, true, false, Option, none, some, Bytes, ◌≡◌, refl, sym, subst, ◌==◌, ==_iff, arith, inl,
  inr, Bool-cases, at,
}
use zen_os.Xwayland.{XwaylandSurface, Bridge, associate_window, dissociate_window, destroy_window}
use zen_os.Xwayland.History.{surface, Kept, Sound}

pub self : (a : ℕ) → (a == a) ≡ true
self a = ground arith

-- A handler of the window at a leaves the others alone.
abbrev pub view : Bridge → ℕ → Option XwaylandSurface × Bool × ℕ × ℕ × ℕ
view b c = (b.windows c, b.has_surface c, b.nodes c, b.map_listeners c, b.unmap_listeners c)

abbrev pub Keeps : Option XwaylandSurface × Bool × ℕ × ℕ × ℕ → Type 0
Keeps (x, h, n, m, u) = Kept x h n m u

pub local_change :
    (a : ℕ) (b d : Bridge)
    → Sound b
    → ((c : ℕ) → (c == a) ≡ false → view d c ≡ view b c)
    → Keeps (view d a)
    → Sound d
local_change a b d s others here c = elim (Bool-cases (c == a)) [
  | inl e ↦ subst (λ k. Keeps (view d k)) (sym ((==_iff c a).0 e)) here
  | inr e ↦ subst Keeps (sym (others c e)) (s c)
]

-- The two kinds of window that are kept.
abbrev pub linked : Bool → Option Bytes → XwaylandSurface
linked l title = record { scene_surface = l; title = title; map = l; unmap = l }

pub Kept-linked :
    (x : XwaylandSurface) (h : Bool) (n m u : ℕ)
    → Kept (some x) h n m u
    → x ≡ linked x.scene_surface x.title
Kept-linked x h n m u (a, b, c, d, e, f) = rw (d, e) refl

abbrev pub KeptAt : ℕ → Bridge → XwaylandSurface → Type 0
KeptAt a b x = Kept (some x) (b.has_surface a) (b.nodes a) (b.map_listeners a) (b.unmap_listeners a)

module _ (a : ℕ) (title : Option Bytes) (b : Bridge) (s : Sound b) where
  pub dissociate-linked :
      (l : Bool)
      → KeptAt a b (linked l title)
      → Sound (surface false a (dissociate_window a (linked l title) b))
  unfolding dissociate_window
  dissociate-linked true k =
      local_change a b (surface false a (dissociate_window a (linked true title) b)) s
        (λ c e. rw (e) refl)
        (rw (self a) (omega (arith, k.0), omega (arith, k.1), omega (arith, k.2), refl, refl, refl))
  dissociate-linked false k =
      local_change a b (surface false a (dissociate_window a (linked false title) b)) s
        (λ c e. rw (e) refl) (rw (self a) (k.0, k.1, k.2, refl, refl, refl))

  pub destroy-linked :
      (l : Bool)
      → KeptAt a b (linked l title)
      → Sound (surface false a (destroy_window a (linked l title) b))
  unfolding destroy_window
  destroy-linked true k =
      local_change a b (surface false a (destroy_window a (linked true title) b)) s
        (λ c e. rw (e) refl)
        (rw (self a) (omega (arith, k.0), omega (arith, k.1), omega (arith, k.2)))
  destroy-linked false k =
      local_change a b (surface false a (destroy_window a (linked false title) b)) s
        (λ c e. rw (e) refl) (rw (self a) (k.0, k.1, k.2))

  -- A window that has no surface yet.
  pub associate-unlinked :
      (made : Bool)
      → KeptAt a b (linked false title)
      → Sound (associate_window made a (linked false title) (surface true a b))
  unfolding associate_window
  associate-unlinked true k =
      local_change a b (associate_window true a (linked false title) (surface true a b)) s
        (λ c e. rw (e) refl)
        (rw (self a) (omega (arith, k.0), omega (arith, k.1), omega (arith, k.2), refl, refl, refl))
  associate-unlinked false k =
      local_change a b (associate_window false a (linked false title) (surface true a b)) s
        (λ c e. rw (e) refl) (rw (self a) (k.0, k.1, k.2, refl, refl, refl))

  pub titled-linked :
      (l : Bool) (t : Option Bytes)
      → KeptAt a b (linked l title)
      → Sound (record b { windows = at a (some (linked l t)) b.windows })
  titled-linked l t k =
      local_change a b (record b { windows = at a (some (linked l t)) b.windows }) s
        (λ c e. rw (e) refl) (rw (self a) k)

  pub new-Sound :
      b.windows a ≡ none → Sound (record b { windows = at a (some (linked false title)) b.windows })
  new-Sound e =
      let k = rw (e) at (s a) in
      local_change a b (record b { windows = at a (some (linked false title)) b.windows }) s
        (λ c i. rw (i) refl) (rw (self a) (k.0, k.1, k.2, refl, refl, refl))
