-- ===== src/Main.antt =====
-- src/compositor/src/main.c: the outputs, and the compositor's start and end, with the parts' inits and
-- destroys in their order.
pub mod Calm
pub mod Steps
pub mod Startup
pub mod Running
pub mod Unlocking
pub mod Overlay
use zen_os.Base.{
  ℕ, suc, ◌-◌, Bool, true, false, not, ◌&&◌, Option, none, some, is_some, List, [], ◌∷◌, Bytes,
  if◌then◌else◌,
}
use zen_os.Base.Int.{ℤ, pos, is_pos}
use zen_os.Base.Links.{unlink}
use zen_os.Base.Scan.{Scan, done, ◌>>=◌}
use zen_os.Compositor.{Compositor, zeroed}
use zen_os.Windows.{xdg_init, xdg_destroy}
use zen_os.Input.{input_init, input_destroy}
use zen_os.Keybinds.{keybinds_init, keybinds_destroy}
use zen_os.Keybinds.Fields.{Memory}
use zen_os.Keybinds.Config.{ConfigFile}
use zen_os.Dbus.{Connects, dbus_init, dbus_destroy}
use zen_os.Lock.{lock_init, lock_destroy}
use zen_os.Layer.{Layers, layer_init, layer_destroy}
use zen_os.Wallpaper.Outputs.{
  Wallpapers, wallpaper_init, wallpaper_destroy, wallpaper_render_output,
}
use zen_os.Wallpaper.Outputs
use zen_os.CairoBuffer.{State, null_buffer}
use zen_os.CairoBuffer

-- The rest of struct ZenCompositor, which of its pointers are set, with the states of the parts. A
-- ZenOutput is known by its address; its listeners are added and removed together.
pub record Process : Type 0 where
  pub backend : Bool
  pub renderer : Bool
  pub wlr_comp : Bool
  pub allocator : Bool
  pub scene : Bool
  pub scene_layout : Bool
  pub new_output : Bool
  pub shell : Bool
  pub outputs : List ℕ
  pub test_overlay : Option State
  -- what the overlay was when it was freed
  pub old_overlay : Option State
  -- with the compositor
  pub layers : Layers
  pub wallpapers : Wallpapers

abbrev pub compositor : Process → Compositor
compositor p = p.layers.compositor

abbrev pub with_compositor : Compositor → Process → Process
with_compositor c p = record p { layers = record p.layers { compositor = c } }

-- An output when it comes: its size, and what can be made for it.
pub record Output : Type 0 where
  pub address : ℕ
  pub width : ℤ
  pub height : ℤ
  pub struct_ : Bool
  pub wallpaper : Outputs.Makes
  pub overlay : Bool
  pub buffer : CairoBuffer.Makes

-- The test overlay, with a struct that calloc has made: it is freed if the buffer cannot be made.
abbrev made_overlay : State × Bool → Option State
made_overlay (s, false) = none
made_overlay (s, true) = some (CairoBuffer.submit s).0

unfoldable pub create_overlay : Output → Process → Process
unfolding CairoBuffer.create CairoBuffer.submit
create_overlay o p =
    if not (is_some p.test_overlay) && (compositor p).shell_overlay_tree
    then if is_pos o.width && is_pos o.height && o.overlay
      then record p {
        test_overlay = made_overlay (
            CairoBuffer.create o.buffer true o.width (pos 48)
              (record { buf = null_buffer; ops = [] }));
      }
      else p
    else p

unfoldable pub render_wallpaper : Output → Process → Process
unfolding wallpaper_render_output
render_wallpaper o p =
    if p.wallpapers.wallpaper_tree
    then record p {
      wallpapers = (wallpaper_render_output o.wallpaper o.address o.width o.height p.wallpapers).0;
    }
    else p

-- handle_new_output
unfoldable pub handle_new_output : Output → Process → Process
unfolding create_overlay render_wallpaper
handle_new_output o p =
    if o.struct_
    then create_overlay o (render_wallpaper o (record p { outputs = o.address ∷ p.outputs }))
    else p

-- output_handle_destroy
unfoldable pub output_handle_destroy : ℕ → Process → Process
output_handle_destroy a p = record p { outputs = unlink (λ b. b) a p.outputs }

unfoldable pub new_outputs : List Output → Process → Process
unfolding handle_new_output
new_outputs [] p = p
new_outputs (o ∷ os) p = new_outputs os (handle_new_output o p)

-- What the libraries make, and what the parts' inits are given.
pub record Starts : Type 0 where
  pub display : Bool
  pub backend : Bool
  pub renderer : Bool
  pub wlr_comp : Bool
  pub allocator : Bool
  pub scene : Bool
  pub output_layout : Bool
  pub scene_layout : Bool
  -- the outputs that wlr_backend_start announces
  pub outputs : List Output
  pub backend_starts : Bool
  pub xdg_shell : Bool
  pub seat : Bool
  pub cursor : Bool
  pub manager : Bool
  pub overlay_tree : Bool
  pub memory : Memory
  pub theme : Option ConfigFile
  pub path_memory : Bytes → Bool
  pub branding : Option (List Bytes)
  pub png_size : Bytes → Option (ℕ × ℕ)
  pub wallpaper_state : Bool
  pub wallpaper_tree : Bool
  pub keysym_of : Bytes → ℕ
  pub keybinds_file : Option (Option ConfigFile)
  pub layer_shell : Bool
  pub connects : Connects
  pub lock_mgr : Bool
  pub idle_timer : Bool
  pub lock_signal : Bool
  pub shell_struct : Bool
  pub shell_init : Bool

-- A step of zen_compositor_create, and whether it goes on.
abbrev pub Step : Type 0
Step = Process → Scan (Process × Bool)

-- One that sets fields, and goes on if what they are for could be made.
unfoldable pub setting : (Process → Process) → Bool → Step
setting f ok p = done (f p, ok)

abbrev on_compositor : (Compositor → Compositor × Bool) → Step
on_compositor f p = let r = f (compositor p) in done (with_compositor r.0 p, r.1)

destroy_overlay : Option State → Process → Process
unfolding CairoBuffer.destroy
destroy_overlay none p = p
destroy_overlay (some o) p = record p {
  test_overlay = none;
  old_overlay = some (CairoBuffer.destroy o);
}

-- The order of zen_compositor_destroy.
unfoldable pub destroy_parts : Process → Process
unfolding lock_destroy dbus_destroy layer_destroy keybinds_destroy wallpaper_destroy input_destroy
    xdg_destroy destroy_overlay
destroy_parts p =
    let bare = record (destroy_overlay p.test_overlay p) { shell = false } in
    let unlocked = with_compositor (dbus_destroy (lock_destroy (compositor bare))) bare in
    let unlayered = record unlocked { layers = layer_destroy unlocked.layers } in
    let unbound = with_compositor (keybinds_destroy (compositor unlayered)) unlayered in
    let plain = record unbound { wallpapers = wallpaper_destroy unbound.wallpapers } in
    with_compositor (xdg_destroy (input_destroy (compositor plain))) plain

-- zen_compositor_destroy. wl_display_destroy_clients changes no field.
unfoldable pub compositor_destroy : Process → Process
unfolding destroy_parts
compositor_destroy p =
    let d = destroy_parts p in
    with_compositor (record (compositor d) { wl_display = false })
      (record d { scene = false; allocator = false; renderer = false; backend = false })

-- `goto cleanup` at the first step that fails.
unfoldable pub run_steps : List Step → Process → Scan (Process × Bool)
unfolding compositor_destroy
run_steps [] p = done (p, true)
run_steps (f ∷ fs) p =
    f p >>= λ r. if r.1 then run_steps fs r.0 else done (compositor_destroy r.0, false)

-- 1 to 10: up to the backend, which announces its outputs when it starts.
unfoldable pub core_steps : Starts → List Step
unfolding new_outputs setting
core_steps s =
    setting (λ p. with_compositor (record (compositor p) { wl_display = s.display }) p) s.display
    ∷ setting (λ p. record p { backend = s.backend }) s.backend
    ∷ setting (λ p. record p { renderer = s.renderer }) s.renderer
    ∷ setting (λ p. record p { wlr_comp = s.wlr_comp }) s.wlr_comp
    ∷ setting (λ p. record p { allocator = s.allocator }) s.allocator
    ∷ setting (λ p. record p { scene = s.scene }) s.scene
    ∷ setting (λ p. with_compositor (record (compositor p) { output_layout = s.output_layout }) p)
        s.output_layout
    ∷ setting (λ p. record p { scene_layout = s.scene_layout }) s.scene_layout
    ∷ setting (λ p. record p { new_output = true }) true
    ∷ setting (new_outputs s.outputs) s.backend_starts
    ∷ []

abbrev layer_step : Bool → Step
unfolding layer_init
layer_step created p = let r = layer_init created p.layers in done (record p { layers = r.0 }, r.1)

abbrev keybinds_step : Starts → Step
unfolding keybinds_init
keybinds_step s p = keybinds_init s.memory s.keysym_of s.keybinds_file (compositor p) >>= λ r.
    done (with_compositor r.0 p, r.1)

abbrev wallpaper_step : Starts → Step
unfolding wallpaper_init
wallpaper_step s p =
    wallpaper_init s.memory s.theme s.path_memory s.branding s.png_size s.wallpaper_state
      s.wallpaper_tree p.wallpapers
    >>= λ r. done (record p { wallpapers = r.0 }, r.1)

-- 11 to 19: the parts. A bus that cannot be reached is no failure.
unfoldable pub part_steps : Starts → List Step
unfolding setting xdg_init input_init layer_init keybinds_init wallpaper_init dbus_init lock_init
part_steps s =
    on_compositor (xdg_init s.xdg_shell)
    ∷ on_compositor (input_init s.seat s.cursor s.manager)
    ∷ setting
        (λ p. with_compositor (record (compositor p) { shell_overlay_tree = s.overlay_tree }) p)
        s.overlay_tree
    ∷ wallpaper_step s
    ∷ keybinds_step s
    ∷ layer_step s.layer_shell
    ∷ on_compositor (λ c. ((dbus_init s.connects c).0, true))
    ∷ on_compositor (lock_init s.lock_mgr s.idle_timer s.lock_signal)
    ∷ setting (λ p. record p { shell = s.shell_struct }) s.shell_struct
    ∷ setting (λ p. p) s.shell_init
    ∷ []

-- zen_compositor_create, after memset.
unfoldable pub compositor_create : Starts → Process → Scan (Process × Bool)
unfolding run_steps core_steps part_steps
compositor_create s p =
    run_steps (core_steps s) p >>= λ r. if r.1 then run_steps (part_steps s) r.0 else done r

-- main: the exit status, with what happens in the event loop.
unfoldable pub main : Starts → (Process → Process) → Process → Scan (Process × ℕ)
unfolding compositor_create compositor_destroy
main s run p = compositor_create s p >>= λ r.
    if r.1 then done (compositor_destroy (run r.0), 0) else done (r.0, 1)
