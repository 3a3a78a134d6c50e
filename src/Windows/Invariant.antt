-- ===== src/Windows/Invariant.antt =====
-- src/compositor/src/xdg.c: the invariant of the list of windows, focus, the move and the listeners,
-- handler by handler.
use zen_os.Base.{
  ℕ, Bool, true, false, Option, none, some, List, [], ◌∷◌, ◌≡◌, refl, subst, ◌∙◌, arith, ◌==◌,
  if◌then◌else◌, is_at, Bool-cases, inl, inr,
}
use zen_os.Base.Links.{
  has, unlink, Distinct, has-unlink, unlink-Distinct, has-to_front, to_front-Distinct,
}
use zen_os.Compositor.{Compositor, Toplevel, address_of, call}
use zen_os.Compositor.Calls.{Call, Node, set_activated, set_enabled}
use zen_os.Compositor.World.{World}
use zen_os.Windows.{
  self, free_toplevel, cancel_grab, focus_toplevel, handle_map, handle_unmap, handle_destroy,
  next_mapped, next_other, handle_new_toplevel,
}

-- Whether the last activation that a toplevel was sent is a positive one.
abbrev pub active : ℕ → List Call → Bool
active t [] = false
active t (set_activated u b ∷ ks) = if t == u then b else active t ks
active t (_ ∷ ks) = active t ks

-- A pointer is NULL, or to an element of the list.
abbrev pub PointsInto : Option ℕ → List Toplevel → Type 0
PointsInto none ts = Unit {0}
PointsInto (some t) ts = has address_of t ts ≡ true

pub record Inv (c : Compositor) : Type 0 where
  pub distinct : Distinct address_of c.toplevels
  pub focus_alive : PointsInto c.focused_toplevel c.toplevels
  pub grab_alive : PointsInto c.grab.toplevel c.toplevels
  pub listeners_distinct : Distinct self c.listening
  pub listeners_alive : (t : ℕ) → has self t c.listening ≡ has address_of t c.toplevels
  pub activation : (t : ℕ) → active t c.calls ≡ is_at t c.focused_toplevel

-- An update of the list that keeps its addresses keeps what points into it.
pub PointsInto-same :
    (o : Option ℕ) (ts us : List Toplevel)
    → ((t : ℕ) → has address_of t us ≡ has address_of t ts)
    → PointsInto o ts
    → PointsInto o us
PointsInto-same none ts us e h = tt
PointsInto-same (some t) ts us e h = e t ∙ h

has-focus_some :
    (w : World) (t : ℕ) (c : Compositor)
    → Distinct address_of c.toplevels
    → has address_of t c.toplevels ≡ true
    → (u : ℕ)
    → has address_of u (focus_toplevel w (some t) c).toplevels ≡ has address_of u c.toplevels
unfolding focus_toplevel
has-focus_some w t c d h u = ground (arith, has-to_front address_of u t c.toplevels d h)

focus_some-Inv :
    (w : World) (t : ℕ) (c : Compositor)
    → Inv c
    → has address_of t c.toplevels ≡ true
    → Inv (focus_toplevel w (some t) c)
unfolding focus_toplevel
focus_some-Inv w t c v h =
    let same_addresses = has-focus_some w t c v.distinct h in
    record {
      distinct =
          ground (arith, v.distinct, to_front-Distinct address_of t c.toplevels v.distinct h);
      focus_alive = ground (arith, has-to_front address_of t t c.toplevels v.distinct h);
      grab_alive =
          PointsInto-same _ c.toplevels _ same_addresses
            (subst (λ o. PointsInto o c.toplevels) (ground arith) v.grab_alive);
      listeners_distinct = ground (arith, v.listeners_distinct);
      listeners_alive = λ u. ground (arith, same_addresses u, v.listeners_alive u);
      activation = λ u. ground (arith, v.activation u);
    }

focus_none-Inv : (w : World) (c : Compositor) → Inv c → Inv (focus_toplevel w none c)
unfolding focus_toplevel
focus_none-Inv w c v = record {
  distinct = ground (arith, v.distinct);
  focus_alive = ground arith;
  grab_alive = ground (arith, v.grab_alive);
  listeners_distinct = ground (arith, v.listeners_distinct);
  listeners_alive = λ u. ground (arith, v.listeners_alive u);
  activation = λ u. ground (arith, v.activation u);
}

-- zen_xdg_focus_toplevel keeps the invariant, at NULL and at any live toplevel.
pub focus_toplevel-Inv :
    (w : World) (target : Option ℕ) (c : Compositor)
    → Inv c
    → PointsInto target c.toplevels
    → Inv (focus_toplevel w target c)
focus_toplevel-Inv w none c v h = focus_none-Inv w c v
focus_toplevel-Inv w (some t) c v h = focus_some-Inv w t c v h

call_enabled-Inv :
    {k : Bool} {t : ℕ} {c : Compositor} → Inv c → Inv (call (set_enabled (Node.window t) k) c)
call_enabled-Inv v = record {
  distinct = v.distinct;
  focus_alive = v.focus_alive;
  grab_alive = v.grab_alive;
  listeners_distinct = v.listeners_distinct;
  listeners_alive = v.listeners_alive;
  activation = v.activation;
}

pub handle_map-Inv :
    (w : World) (t : ℕ) (c : Compositor)
    → Inv c
    → has address_of t c.toplevels ≡ true
    → Inv (handle_map w t c)
unfolding handle_map
handle_map-Inv w t c v h = focus_toplevel-Inv w (some t) _ (call_enabled-Inv v) h

PointsInto-cons :
    (o : Option ℕ) (x : Toplevel) (ts : List Toplevel) → PointsInto o ts → PointsInto o (x ∷ ts)
unfolding has
PointsInto-cons none x ts h = tt
PointsInto-cons (some t) x ts h = ground arith

next_mapped-PointsInto :
    (w : World) (t : ℕ) (ts : List Toplevel) → PointsInto (next_mapped w t ts) ts
unfolding next_mapped has
next_mapped-PointsInto w t [] = tt
next_mapped-PointsInto w t (x ∷ xs) =
    ground (arith, PointsInto-cons (next_mapped w t xs) x xs (next_mapped-PointsInto w t xs))

next_other-PointsInto : (t : ℕ) (ts : List Toplevel) → PointsInto (next_other t ts) ts
unfolding next_other has
next_other-PointsInto t [] = tt
next_other-PointsInto t (x ∷ xs) =
    ground (arith, PointsInto-cons (next_other t xs) x xs (next_other-PointsInto t xs))

pub handle_unmap-Inv : (w : World) (t : ℕ) (c : Compositor) → Inv c → Inv (handle_unmap w t c)
unfolding handle_unmap
handle_unmap-Inv w t c v = elim (Bool-cases (is_at t c.focused_toplevel)) [
  | inl e ↦
      rw (e, handle_unmap)
        (focus_toplevel-Inv w (next_mapped w t c.toplevels) _ (call_enabled-Inv v)
          (next_mapped-PointsInto w t c.toplevels))
  | inr e ↦ rw (e, handle_unmap) (call_enabled-Inv v)
]

is_at-next_other : (t : ℕ) (ts : List Toplevel) → is_at t (next_other t ts) ≡ false
unfolding next_other
is_at-next_other t [] = refl
is_at-next_other t (x ∷ xs) = ground (arith, is_at-next_other t xs)

PointsInto-unlink :
    (o : Option ℕ) (t : ℕ) (ts : List Toplevel)
    → Distinct address_of ts
    → is_at t o ≡ false
    → PointsInto o ts
    → PointsInto o (unlink address_of t ts)
PointsInto-unlink none t ts d n h = tt
PointsInto-unlink (some u) t ts d n h = ground (arith, has-unlink address_of u t ts d)

-- Freeing a toplevel without focus, and cancelling its move, keeps the invariant.
free_toplevel-Inv :
    (t : ℕ) (c : Compositor)
    → Inv c
    → is_at t c.focused_toplevel ≡ false
    → Inv (free_toplevel t (cancel_grab t c))
free_toplevel-Inv t c v n = record {
  distinct = ground (arith, unlink-Distinct address_of t c.toplevels v.distinct);
  focus_alive =
      ground (arith, PointsInto-unlink c.focused_toplevel t c.toplevels v.distinct n v.focus_alive);
  grab_alive = ground (arith, PointsInto-unlink c.grab.toplevel t c.toplevels v.distinct);
  listeners_distinct = ground (arith, unlink-Distinct self t c.listening v.listeners_distinct);
  listeners_alive = λ u. ground (
    arith,
    has-unlink self u t c.listening v.listeners_distinct,
    has-unlink address_of u t c.toplevels v.distinct,
    v.listeners_alive u,
  );
  activation = λ u. ground (arith, v.activation u);
}

-- The window that is told to have focus afterwards is the target, whatever had it before.
pub focused-focus_toplevel :
    (w : World) (target : Option ℕ) (c : Compositor)
    → (focus_toplevel w target c).focused_toplevel ≡ target
unfolding focus_toplevel
focused-focus_toplevel w target c = ground arith

pub handle_destroy-Inv : (w : World) (t : ℕ) (c : Compositor) → Inv c → Inv (handle_destroy w t c)
unfolding handle_destroy
handle_destroy-Inv w t c v = elim (Bool-cases (is_at t c.focused_toplevel)) [
  | inl e ↦
      rw (e, handle_destroy)
        (free_toplevel-Inv t _
          (focus_toplevel-Inv w (next_other t c.toplevels) c v
            (next_other-PointsInto t c.toplevels))
          (rw (focused-focus_toplevel w (next_other t c.toplevels) c)
            (is_at-next_other t c.toplevels)))
  | inr e ↦ rw (e, handle_destroy) (free_toplevel-Inv t c v e)
]

pub handle_new_toplevel-Inv :
    (t : ℕ) (scene_tree : Bool) (c : Compositor)
    → Inv c
    → has address_of t c.toplevels ≡ false
    → Inv (handle_new_toplevel (some t) scene_tree c)
unfolding handle_new_toplevel has
handle_new_toplevel-Inv t false c v h = v
handle_new_toplevel-Inv t true c v h = record {
  distinct = (h, v.distinct);
  focus_alive = PointsInto-cons _ _ _ v.focus_alive;
  grab_alive = PointsInto-cons _ _ _ v.grab_alive;
  listeners_distinct = (v.listeners_alive t ∙ h, v.listeners_distinct);
  listeners_alive = λ u. ground (arith, v.listeners_alive u);
  activation = v.activation;
}
