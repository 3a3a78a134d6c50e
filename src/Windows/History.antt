-- ===== src/Windows/History.antt =====
-- src/compositor/src/xdg.c: the events of a window, and zen_xdg_init. wlroots calls a handler of a
-- toplevel only while its listener hangs on a signal, and calloc returns an address that no live
-- toplevel has.
use zen_os.Base.{ℕ, Bool, true, false, none, some, List, [], ◌∷◌, ◌≡◌, refl, ◌∙◌, sym, arith}
use zen_os.Base.Links.{has, Distinct}
use zen_os.Compositor.{Compositor, Toplevel, address_of}
use zen_os.Compositor.World.{World}
use zen_os.Windows.{
  self, handle_map, handle_unmap, handle_destroy, handle_request_move, handle_request_maximize,
  handle_request_fullscreen, handle_set_title, handle_set_app_id, handle_new_toplevel, update,
  xdg_init,
}
use zen_os.Windows.Invariant.{
  Inv, active, PointsInto, PointsInto-same, handle_map-Inv, handle_unmap-Inv, handle_destroy-Inv,
  handle_new_toplevel-Inv,
}

pub data Event : Type 0 where
  maps unmaps destroys moves maximizes goes_fullscreen retitles : Event
  changes_app_id : Event

abbrev pub handle : Event → World → ℕ → Compositor → Compositor
handle maps w t c = handle_map w t c
handle unmaps w t c = handle_unmap w t c
handle destroys w t c = handle_destroy w t c
handle moves w t c = handle_request_move w t c
handle maximizes w t c = handle_request_maximize w t c
handle goes_fullscreen w t c = handle_request_fullscreen w t c
handle retitles w t c = handle_set_title w t c
handle changes_app_id w t c = handle_set_app_id w t c

pub data Step (c : Compositor) : Compositor → Type 0 where
  event : (w : World) (t : ℕ) (e : Event) → has self t c.listening ≡ true → Step c (handle e w t c)
  opens :
      (t : ℕ) (scene_tree : Bool)
      → has address_of t c.toplevels ≡ false
      → Step c (handle_new_toplevel (some t) scene_tree c)
  opens_no_memory : (scene_tree : Bool) → Step c (handle_new_toplevel none scene_tree c)

has-update :
    (u t : ℕ) (f : Toplevel → Toplevel) (ts : List Toplevel)
    → ((x : Toplevel) → (f x).address ≡ x.address)
    → has address_of u (update t f ts) ≡ has address_of u ts
unfolding update has
has-update u t f [] k = refl
has-update u t f (x ∷ xs) k = ground (arith, k x, has-update u t f xs k)

update-Distinct :
    (t : ℕ) (f : Toplevel → Toplevel) (ts : List Toplevel)
    → ((x : Toplevel) → (f x).address ≡ x.address)
    → Distinct address_of ts
    → Distinct address_of (update t f ts)
unfolding update has
update-Distinct t f [] k d = tt
update-Distinct t f (x ∷ xs) k d =
    ground (arith, k x, has-update x.address t f xs k, update-Distinct t f xs k d.1)

update-Inv :
    (t : ℕ) (f : Toplevel → Toplevel) (c : Compositor)
    → ((x : Toplevel) → (f x).address ≡ x.address)
    → Inv c
    → Inv (record c { toplevels = update t f c.toplevels })
update-Inv t f c k v =
    let same_addresses = λ (u : ℕ). has-update u t f c.toplevels k in
    record {
      distinct = update-Distinct t f c.toplevels k v.distinct;
      focus_alive = PointsInto-same _ _ _ same_addresses v.focus_alive;
      grab_alive = PointsInto-same _ _ _ same_addresses v.grab_alive;
      listeners_distinct = v.listeners_distinct;
      listeners_alive = λ u. v.listeners_alive u ∙ sym (same_addresses u);
      activation = v.activation;
    }

-- A handler that leaves the list, the focus and the listeners alone, sends no activation, and
-- grabs a live toplevel at most.
pub unchanged-Inv :
    (c d : Compositor)
    → d.toplevels ≡ c.toplevels
    → d.focused_toplevel ≡ c.focused_toplevel
    → d.listening ≡ c.listening
    → PointsInto d.grab.toplevel c.toplevels
    → ((u : ℕ) → active u d.calls ≡ active u c.calls)
    → Inv c
    → Inv d
unchanged-Inv c d ts f l g a v = record {
  distinct = rw ts v.distinct;
  focus_alive = rw (ts, f) v.focus_alive;
  grab_alive = rw ts g;
  listeners_distinct = rw l v.listeners_distinct;
  listeners_alive = λ u. rw (ts, l) (v.listeners_alive u);
  activation = λ u. rw f (a u ∙ v.activation u);
}

handle_request_move-Inv :
    (w : World) (t : ℕ) (c : Compositor)
    → Inv c
    → has address_of t c.toplevels ≡ true
    → Inv (handle_request_move w t c)
unfolding handle_request_move
handle_request_move-Inv w t c v h =
    unchanged-Inv c _ (ground arith) (ground arith) (ground arith) (ground (arith, v.grab_alive, h))
      (λ u. ground arith) v

handle_request_maximize-Inv :
    (w : World) (t : ℕ) (c : Compositor) → Inv c → Inv (handle_request_maximize w t c)
unfolding handle_request_maximize
handle_request_maximize-Inv w t c v =
    unchanged-Inv c _ (ground arith) (ground arith) (ground arith) (ground (arith, v.grab_alive))
      (λ u. ground arith) v

handle_request_fullscreen-Inv :
    (w : World) (t : ℕ) (c : Compositor) → Inv c → Inv (handle_request_fullscreen w t c)
unfolding handle_request_fullscreen
handle_request_fullscreen-Inv w t c v =
    unchanged-Inv c _ (ground arith) (ground arith) (ground arith) (ground (arith, v.grab_alive))
      (λ u. ground arith) v

handle-Inv :
    (e : Event) (w : World) (t : ℕ) (c : Compositor)
    → Inv c
    → has address_of t c.toplevels ≡ true
    → Inv (handle e w t c)
unfolding handle_set_title handle_set_app_id
handle-Inv maps w t c v h = handle_map-Inv w t c v h
handle-Inv unmaps w t c v h = handle_unmap-Inv w t c v
handle-Inv destroys w t c v h = handle_destroy-Inv w t c v
handle-Inv moves w t c v h = handle_request_move-Inv w t c v h
handle-Inv maximizes w t c v h = handle_request_maximize-Inv w t c v
handle-Inv goes_fullscreen w t c v h = handle_request_fullscreen-Inv w t c v
handle-Inv retitles w t c v h = update-Inv t _ c (λ x. refl) v
handle-Inv changes_app_id w t c v h = update-Inv t _ c (λ x. refl) v

pub Step-Inv : {c d : Compositor} → Step c d → Inv c → Inv d
unfolding handle_new_toplevel
Step-Inv {c} (event w t e h) v = handle-Inv e w t c v (sym (v.listeners_alive t) ∙ h)
Step-Inv {c} (opens t s h) v = handle_new_toplevel-Inv t s c v h
Step-Inv (opens_no_memory s) v = v

-- zen_xdg_init sets the invariant up, in a state with no window, no move and no activation yet.
pub xdg_init-Inv :
    (created : Bool) (c : Compositor)
    → c.wl_display ≡ true
    → c.listening ≡ []
    → c.grab.toplevel ≡ none
    → c.calls ≡ []
    → Inv (xdg_init created c).0
unfolding xdg_init has
xdg_init-Inv created c d l g k = record {
  distinct = ground arith;
  focus_alive = ground arith;
  grab_alive = ground arith;
  listeners_distinct = ground arith;
  listeners_alive = λ u. ground arith;
  activation = λ u. ground arith;
}
