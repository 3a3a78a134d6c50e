-- ===== src/Layer/Empties.antt =====
-- src/compositor/src/layer.c: what zen_layer_destroy leaves, after any sequence of events.
use zen_os.Base.{
  ℕ, suc, Bool, true, false, ◌&&◌, Option, none, some, List, [], ◌∷◌, ◌≡◌, refl, sym, ap, subst,
  ◌∙◌, ◌==◌, ==_iff, inl, inr, Bool-cases, arith, at,
}
use zen_os.Base.Int.{is_pos}
use zen_os.Compositor.Calls.{configure_layer_surface}
use zen_os.Base.Links.{has, unlink, has-unlink, unlink-Distinct}
use zen_os.Compositor.World.{World}
use zen_os.Layer.{
  Layers, layer_init, layer_destroy, drop_surface, drop_surfaces, configure, Makes, add_surface,
  handle_new_layer_surface, handle_map, handle_unmap, handle_destroy, call,
}
use zen_os.Layer.History.{
  Event, new_surface, maps, unmaps, destroy, is_listed, only, fires, may, Kept, Sound, Reach,
  begins, then_event,
}

-- Nothing is left: no surface, listener or struct.
pub record Empty (l : Layers) : Type 0 where
  pub no_surface : l.layer_surfaces ≡ []
  pub no_shell : l.layer_shell ≡ false
  pub nothing :
      (a : ℕ)
      → Kept false (l.map_listeners a) (l.unmap_listeners a) (l.destroy_listeners a) (l.structs a)

drop_surface-Sound :
    (a : ℕ) (l : Layers) → is_listed a l ≡ true → Sound l → Sound (drop_surface a l)
unfolding drop_surface
drop_surface-Sound a l h s =
    let k = rw (h) at (s.kept a) in
    record {
      ready = s.ready;
      distinct = unlink-Distinct (λ b. b) a l.layer_surfaces s.distinct;
      kept = λ b. elim (Bool-cases (b == a)) [
        | inl e ↦
            rw (has-unlink (λ c. c) b a l.layer_surfaces s.distinct, e)
              (omega (arith, k.0), omega (arith, k.1), omega (arith, k.2), omega (arith, k.3))
        | inr e ↦ rw (has-unlink (λ c. c) b a l.layer_surfaces s.distinct, e) (s.kept b)
      ];
    }

only-Sound :
    (t : Bool) (f : Layers → Layers) (l : Layers)
    → (t ≡ true → Sound (f l))
    → Sound l
    → Sound (only t f l)
only-Sound true f l g s = g refl
only-Sound false f l g s = s

-- What Sound is about, less the compositor's calls.
call-Sound :
    (w : World) (output : Option ℕ) (a : ℕ) (l : Layers) → Sound l → Sound (configure w output a l)
unfolding configure
call-Sound w none a l s = s
call-Sound w (some output) a l s =
    only-Sound (is_pos (w.box_of output).width && is_pos (w.box_of output).height)
      (call (configure_layer_surface a (w.box_of output).width (w.box_of output).height)) l
      (λ e. record { ready = s.ready; distinct = s.distinct; kept = s.kept }) s

self : (a : ℕ) → (a == a) ≡ true
self a = ground arith

added : ℕ → Layers → Layers
added a l = record l {
  map_listeners = at a (suc (l.map_listeners a)) l.map_listeners;
  unmap_listeners = at a (suc (l.unmap_listeners a)) l.unmap_listeners;
  destroy_listeners = at a (suc (l.destroy_listeners a)) l.destroy_listeners;
  layer_surfaces = a ∷ l.layer_surfaces;
  structs = at a (suc (l.structs a)) l.structs;
}

added-Sound : (a : ℕ) (l : Layers) → is_listed a l ≡ false → Sound l → Sound (added a l)
unfolding has added
added-Sound a l h s =
    let k = rw (h) at (s.kept a) in
    record {
      ready = s.ready;
      distinct = (h, s.distinct);
      kept = λ b. elim (Bool-cases (b == a)) [
        | inl e ↦
            rw (e) (omega (arith, k.0), omega (arith, k.1), omega (arith, k.2), omega (arith, k.3))
        | inr e ↦ rw (e) (s.kept b)
      ];
    }

-- A struct that is allocated and freed.
given_back-Sound :
    (w : World) (output : Option ℕ) (a : ℕ) (l : Layers)
    → Sound l
    → Sound
        (add_surface w false output a (record l { structs = at a (suc (l.structs a)) l.structs }))
unfolding add_surface
given_back-Sound w output a l s = record {
  ready = s.ready;
  distinct = s.distinct;
  kept = λ b. elim (Bool-cases (b == a)) [
    | inl e ↦
        let k =
          subst
            (λ c.
              Kept (is_listed c l) (l.map_listeners c) (l.unmap_listeners c) (l.destroy_listeners c)
                (l.structs a))
            (sym ((==_iff b a).0 e)) (s.kept a) in
        rw (e, self a) (k.0, k.1, k.2, omega (arith, k.3))
    | inr e ↦ rw (e) (s.kept b)
  ];
}

new-Sound :
    (w : World) (m : Makes) (output : Option ℕ) (a : ℕ) (l : Layers)
    → is_listed a l ≡ false
    → Sound l
    → Sound (handle_new_layer_surface w m output a l)
unfolding handle_new_layer_surface add_surface added
new-Sound w m output a l h s = elim (Bool-cases m.struct_) [
  | inr e ↦ rw (e) (record { ready = s.ready; distinct = s.distinct; kept = s.kept })
  | inl e ↦ elim (Bool-cases m.scene_layer) [
    | inl i ↦ rw (e, i) (call-Sound w output a (added a l) (added-Sound a l h s))
    | inr i ↦ rw (e, i) (given_back-Sound w output a l s)
  ]
]

fires-Sound : (w : World) (e : Event) (l : Layers) → may e l ≡ true → Sound l → Sound (fires w e l)
unfolding fires handle_map handle_unmap handle_destroy
fires-Sound w (new_surface m output a) l h s = new-Sound w m output a l (ground arith) s
fires-Sound w (maps a) l h s =
    only-Sound (is_listed a l) (handle_map a) l
      (λ e. record { ready = s.ready; distinct = s.distinct; kept = s.kept }) s
fires-Sound w (unmaps a) l h s =
    only-Sound (is_listed a l) (handle_unmap a) l
      (λ e. record { ready = s.ready; distinct = s.distinct; kept = s.kept }) s
fires-Sound w (destroy a) l h s =
    only-Sound (is_listed a l) (handle_destroy a) l (λ e. drop_surface-Sound a l e s) s

Reach-Sound : (w : World) (start l : Layers) → Sound start → Reach w start l → Sound l
Reach-Sound w start l s begins = s
Reach-Sound w start l s (then_event e d r h) = fires-Sound w e d h (Reach-Sound w start d s r)

drop_surfaces-empties :
    (xs : List ℕ) (l : Layers)
    → l.layer_surfaces ≡ xs
    → Sound l
    → ((drop_surfaces xs l).layer_surfaces ≡ []) × Sound (drop_surfaces xs l)
unfolding drop_surfaces drop_surface has unlink
drop_surfaces-empties [] l e s = (e, s)
drop_surfaces-empties (a ∷ rest) l e s =
    drop_surfaces-empties rest (drop_surface a l) (ap (unlink (λ b. b) a) e ∙ rw (self a) refl)
      (drop_surface-Sound a l (ap (has (λ b. b) a) e ∙ rw (self a) refl) s)

-- No listener or struct yet.
abbrev pub Fresh : Layers → Type 0
Fresh l =
    (a : ℕ)
    → Kept false (l.map_listeners a) (l.unmap_listeners a) (l.destroy_listeners a) (l.structs a)

layer_init-Sound : (created : Bool) (l : Layers) → Fresh l → Sound (layer_init created l).0
unfolding layer_init has
layer_init-Sound true l f = record { ready = refl; distinct = tt; kept = f }
layer_init-Sound false l f = record { ready = refl; distinct = tt; kept = f }

layer_destroy_listed :
    (l : Layers)
    → l.list_init ≡ true
    → layer_destroy l ≡ record (drop_surfaces l.layer_surfaces l) { layer_shell = false }
unfolding layer_destroy
layer_destroy_listed l h = rw (h) refl

destroyed-Empty : (l : Layers) → Sound l → Empty (layer_destroy l)
unfolding has
destroyed-Empty l s =
    let d = drop_surfaces-empties l.layer_surfaces l refl s in
    let r = drop_surfaces l.layer_surfaces l in
    subst Empty (sym (layer_destroy_listed l s.ready)) (record {
      no_surface = d.0;
      no_shell = refl;
      nothing = λ a.
          subst
            (λ xs.
              Kept (has (λ b. b) a xs) (r.map_listeners a) (r.unmap_listeners a)
                (r.destroy_listeners a) (r.structs a))
            d.0 (d.1.kept a);
    })

-- From zen_layer_init on, when there was no listener or struct before, and after any sequence of
-- events in which a new surface has an address of its own, with or without memory and scene nodes,
-- zen_layer_destroy leaves no surface on the list, no listener on any surface and no struct.
pub layer_destroy-Empty :
    (w : World) (created : Bool) (l m : Layers)
    → Fresh l
    → Reach w (layer_init created l).0 m
    → Empty (layer_destroy m)
layer_destroy-Empty w created l m f r =
    destroyed-Empty m (Reach-Sound w (layer_init created l).0 m (layer_init-Sound created l f) r)

drop_surfaces_compositor :
    (xs : List ℕ) (l : Layers) → (drop_surfaces xs l).compositor ≡ l.compositor
unfolding drop_surfaces drop_surface
drop_surfaces_compositor [] l = refl
drop_surfaces_compositor (a ∷ rest) l = drop_surfaces_compositor rest (drop_surface a l)

-- The rest of the compositor is left alone.
pub layer_destroy_compositor : (l : Layers) → (layer_destroy l).compositor ≡ l.compositor
unfolding layer_destroy
layer_destroy_compositor l = elim (Bool-cases l.list_init) [
  | inl e ↦
      ap (λ d. d.compositor) (layer_destroy_listed l e)
      ∙ drop_surfaces_compositor l.layer_surfaces l
  | inr e ↦ rw (e) refl
]
