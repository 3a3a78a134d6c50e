-- ===== src/Main/Steps.antt =====
-- src/compositor/src/main.c: a run of the steps of zen_compositor_create, and zen_compositor_destroy.
use zen_os.Base.{Bool, true, false, Option, none, some, List, [], ◌∷◌, ◌≡◌, refl, ap, if◌then◌else◌}
use zen_os.Base.Scan.{Scan, done, fault, no_fuel, ◌>>=◌}
use zen_os.Compositor.{zeroed}
use zen_os.Wallpaper.Outputs.Counts.{outputs_of}
use zen_os.Wallpaper.Outputs.Lifetime.{nothing_yet, wallpaper_destroy-none}
use zen_os.Layer.Empties.{layer_destroy_compositor}
use zen_os.Dbus.{dbus_destroy}
use zen_os.Lock.{lock_destroy}
use zen_os.CairoBuffer.{State}
use zen_os.Main.{setting, destroy_overlay, compositor, Process, Step, run_steps, compositor_destroy}

-- memset, and the static variables.
abbrev pub boot : Process
boot = record {
  backend = false;
  renderer = false;
  wlr_comp = false;
  allocator = false;
  scene = false;
  scene_layout = false;
  new_output = false;
  shell = false;
  outputs = [];
  test_overlay = none;
  old_overlay = none;
  layers = record {
    compositor = zeroed;
    layer_shell = false;
    new_layer_surface = false;
    list_init = false;
    layer_surfaces = [];
    map_listeners = λ a. 0;
    unmap_listeners = λ a. 0;
    destroy_listeners = λ a. 0;
    structs = λ a. 0;
  };
  wallpapers = nothing_yet;
}

-- No output has a wallpaper or the overlay.
abbrev pub Bare : Process → Type 0
Bare p = (outputs_of p.wallpapers.state ≡ []) × (p.test_overlay ≡ none)

-- The pointers that zen_compositor_destroy and the parts' destroys set to NULL, and the lists that they
-- empty.
pub record Down (p : Process) : Type 0 where
  pub no_overlay : p.test_overlay ≡ none
  pub no_shell : p.shell ≡ false
  pub no_lock : (compositor p).lock_mgr ≡ false
  pub unlocked : (compositor p).locked ≡ false
  pub no_bus : (compositor p).bus ≡ false
  pub no_keybindings : (compositor p).keybindings ≡ []
  pub no_wallpapers : p.wallpapers.state ≡ none
  pub no_seat : (compositor p).seat ≡ false
  pub no_cursor : (compositor p).cursor ≡ false
  pub no_toplevels : (compositor p).toplevels ≡ []
  pub no_scene : p.scene ≡ false
  pub no_allocator : p.allocator ≡ false
  pub no_renderer : p.renderer ≡ false
  pub no_backend : p.backend ≡ false
  pub no_display : (compositor p).wl_display ≡ false

destroy_overlay-none :
    (o : Option State) (p : Process)
    → p.test_overlay ≡ o
    → (destroy_overlay o p).test_overlay ≡ none
unfolding destroy_overlay
destroy_overlay-none none p e = e
destroy_overlay-none (some s) p e = refl

pub compositor_destroy-Down : (p : Process) → Down (compositor_destroy p)
unfolding compositor_destroy
compositor_destroy-Down p =
    let bare = destroy_overlay p.test_overlay p in
    let unlocked = dbus_destroy (lock_destroy (compositor bare)) in
    let kept = layer_destroy_compositor (record bare.layers { compositor = unlocked }) in
    record {
      no_overlay = destroy_overlay-none p.test_overlay p refl;
      no_shell = refl;
      no_lock = ap (λ c. c.lock_mgr) kept;
      unlocked = ap (λ c. c.locked) kept;
      no_bus = ap (λ c. c.bus) kept;
      no_keybindings = refl;
      no_wallpapers = wallpaper_destroy-none bare.wallpapers;
      no_seat = refl;
      no_cursor = refl;
      no_toplevels = refl;
      no_scene = refl;
      no_allocator = refl;
      no_renderer = refl;
      no_backend = refl;
      no_display = refl;
    }

-- A run has fuel enough; if it succeeds, the property P, and if it fails, Down.
abbrev pub Ends : (Process → Type 0) → Scan (Process × Bool) → Type 0
Ends P (done (p, true)) = P p
Ends P (done (p, false)) = Down p
Ends P fault = Unit
Ends P no_fuel = ⊥

-- A step that, when it goes on, keeps the property.
abbrev pub OnSuccess : (Process → Type 0) → Scan (Process × Bool) → Type 0
OnSuccess P (done (p, true)) = P p
OnSuccess P (done (p, false)) = Unit
OnSuccess P fault = Unit
OnSuccess P no_fuel = ⊥

abbrev pub Keep : (Process → Type 0) → List Step → Type 0
Keep P [] = Unit
Keep P (f ∷ fs) = ((p : Process) → P p → OnSuccess P (f p)) × Keep P fs

step-Ends :
    (P : Process → Type 0) (rest : Process → Scan (Process × Bool))
    → ((p : Process) → P p → Ends P (rest p))
    → (r : Scan (Process × Bool)) → OnSuccess P r
    → Ends P (r >>= λ x. if x.1 then rest x.0 else done (compositor_destroy x.0, false))
step-Ends P rest go (done (p, true)) h = go p h
step-Ends P rest go (done (p, false)) h = compositor_destroy-Down p
step-Ends P rest go fault h = tt
step-Ends P rest go no_fuel h = absurd h

pub run_steps-Ends :
    (P : Process → Type 0) (fs : List Step) (p : Process)
    → Keep P fs
    → P p
    → Ends P (run_steps fs p)
unfolding run_steps
run_steps-Ends P [] p k h = h
run_steps-Ends P (f ∷ fs) p (k, ks) h =
    step-Ends P (run_steps fs) (λ q. run_steps-Ends P fs q ks) (f p) (k p h)

pub setting-OnSuccess :
    (P : Process → Type 0) (f : Process → Process) (ok : Bool)
    → ((p : Process) → P p → P (f p))
    → (p : Process) → P p
    → OnSuccess P (setting f ok p)
unfolding setting
setting-OnSuccess P f true keeps p h = keeps p h
setting-OnSuccess P f false keeps p h = tt
