-- ===== src/Main/Startup.antt =====
-- src/compositor/src/main.c: what zen_compositor_create leaves, with outputs at its start.
use zen_os.Base.{
  Bool, true, false, none, is_some, List, [], ◌∷◌, ◌≡◌, refl, ap, not, ◌∙◌, subst, sym, ◌&&◌,
  if◌then◌else◌, Bool-cases, inl, inr,
}
use zen_os.Base.Scan.{Scan, done, fault, no_fuel, ◌>>=◌, Ensures}
use zen_os.Compositor.{Compositor}
use zen_os.Wallpaper.Outputs.{Wallpapers, wallpaper_init}
use zen_os.Wallpaper.Outputs.Counts.{outputs_of}
use zen_os.Wallpaper.Outputs.Lifetime.{NoOutputs, wallpaper_init-NoOutputs, nothing_yet}
use zen_os.Layer.{layer_init}
use zen_os.Windows.{xdg_init}
use zen_os.Input.{input_init}
use zen_os.Keybinds.{keybinds_init}
use zen_os.Keybinds.Overrides.{OnlyBindings, keybinds_init-OnlyBindings}
use zen_os.Main.Calm.{
  Calm, boot-Calm, xdg_init-Calm, input_init-Calm, bindings-Calm, display-Calm, output_layout-Calm,
  overlay_tree-Calm, dbus_init-Calm, lock_init-Calm,
}
use zen_os.Lock.{lock_init}
use zen_os.Main.{
  with_compositor, layer_step, wallpaper_step, Output, render_wallpaper, create_overlay,
  handle_new_output, new_outputs, compositor, Process, run_steps, compositor_create, Starts,
  core_steps, part_steps,
}
use zen_os.Main.Steps.{boot, Bare, Ends, OnSuccess, Keep, run_steps-Ends, setting-OnSuccess}

-- After the start: no output has a wallpaper or the overlay, and no window has come yet.
abbrev pub Started : Process → Type 0
Started p = Bare p × Calm (compositor p)

-- While the backend starts: neither tree is there.
abbrev Quiet : Process → Type 0
Quiet p =
    (p.wallpapers ≡ nothing_yet)
    × ((compositor p).shell_overlay_tree ≡ false)
    × (p.test_overlay ≡ none)
    × Calm (compositor p)

and_off : (a b : Bool) → b ≡ false → (a && b) ≡ false
and_off true b h = h
and_off false b h = refl

render_wallpaper_off :
    (o : Output) (p : Process) → p.wallpapers.wallpaper_tree ≡ false → render_wallpaper o p ≡ p
unfolding render_wallpaper
render_wallpaper_off o p h = rw (h) refl

create_overlay_off :
    (o : Output) (p : Process) → (compositor p).shell_overlay_tree ≡ false → create_overlay o p ≡ p
unfolding create_overlay
create_overlay_off o p h =
    rw (and_off (not (is_some p.test_overlay)) (compositor p).shell_overlay_tree h) refl

-- An output that comes then is only put on the list.
handle_new_output-Quiet : (o : Output) (p : Process) → Quiet p → Quiet (handle_new_output o p)
unfolding handle_new_output
handle_new_output-Quiet o p q =
    let listed = record p { outputs = o.address ∷ p.outputs } in
    let w = render_wallpaper_off o listed (ap (λ w. w.wallpaper_tree) q.0) in
    let same = ap (create_overlay o) w ∙ create_overlay_off o listed q.1 in
    elim (Bool-cases o.struct_) [ inl e ↦ rw (e) (subst Quiet (sym same) q) | inr e ↦ rw (e) q ]

new_outputs-Quiet : (os : List Output) (p : Process) → Quiet p → Quiet (new_outputs os p)
unfolding new_outputs
new_outputs-Quiet [] p q = q
new_outputs-Quiet (o ∷ os) p q =
    new_outputs-Quiet os (handle_new_output o p) (handle_new_output-Quiet o p q)

core_steps-Keep : (s : Starts) → Keep Quiet (core_steps s)
unfolding core_steps
core_steps-Keep s = (
  setting-OnSuccess Quiet
      (λ p. with_compositor (record (compositor p) { wl_display = s.display }) p) s.display
      (λ p q. (q.0, q.1, q.2, display-Calm s.display q.3)),
  (
    setting-OnSuccess Quiet (λ p. record p { backend = s.backend }) s.backend (λ p q. q),
    (
      setting-OnSuccess Quiet (λ p. record p { renderer = s.renderer }) s.renderer (λ p q. q),
      (
        setting-OnSuccess Quiet (λ p. record p { wlr_comp = s.wlr_comp }) s.wlr_comp (λ p q. q),
        (
          setting-OnSuccess Quiet (λ p. record p { allocator = s.allocator }) s.allocator
              (λ p q. q),
          (
            setting-OnSuccess Quiet (λ p. record p { scene = s.scene }) s.scene (λ p q. q),
            (
              setting-OnSuccess Quiet
                  (λ p.
                    with_compositor (record (compositor p) { output_layout = s.output_layout }) p)
                  s.output_layout (λ p q. (q.0, q.1, q.2, output_layout-Calm s.output_layout q.3)),
              (
                setting-OnSuccess Quiet (λ p. record p { scene_layout = s.scene_layout })
                    s.scene_layout (λ p q. q),
                (
                  setting-OnSuccess Quiet (λ p. record p { new_output = true }) true (λ p q. q),
                  (
                    setting-OnSuccess Quiet (new_outputs s.outputs) s.backend_starts
                        (new_outputs-Quiet s.outputs),
                    tt,
                  ),
                ),
              ),
            ),
          ),
        ),
      ),
    ),
  ),
)

-- A part that changes the compositor only.
on_compositor-Started :
    (p : Process) (r : Compositor × Bool)
    → Bare p
    → (r.1 ≡ true → Calm r.0)
    → OnSuccess Started (done (with_compositor r.0 p, r.1))
on_compositor-Started p (c, true) h k = (h, k refl)
on_compositor-Started p (c, false) h k = tt

keybinds-Started :
    (p : Process) (r : Scan (Compositor × Bool))
    → Started p
    → Ensures (λ x. OnlyBindings (compositor p) x.0) r
    → OnSuccess Started (r >>= λ x. done (with_compositor x.0 p, x.1))
keybinds-Started p (done (c, true)) h (bs, e) = (h.0, subst Calm (sym e) (bindings-Calm bs h.1))
keybinds-Started p (done (c, false)) h e = tt
keybinds-Started p fault h e = tt
keybinds-Started p no_fuel h e = absurd e

layer_step-Started :
    (created : Bool) (p : Process) → Started p → OnSuccess Started (layer_step created p)
unfolding layer_init
layer_step-Started true p h = h
layer_step-Started false p h = tt

tree-Started :
    (p : Process) (r : Scan (Wallpapers × Bool))
    → p.test_overlay ≡ none
    → Calm (compositor p)
    → NoOutputs r
    → OnSuccess Started (r >>= λ x. done (record p { wallpapers = x.0 }, x.1))
tree-Started p (done (w, true)) h k n = ((n, h), k)
tree-Started p (done (w, false)) h k n = tt
tree-Started p fault h k n = tt
tree-Started p no_fuel h k n = absurd n

wallpaper_step-Started :
    (s : Starts) (p : Process) → Started p → OnSuccess Started (wallpaper_step s p)
unfolding wallpaper_init
wallpaper_step-Started s p h =
    tree-Started p
      (wallpaper_init s.memory s.theme s.path_memory s.branding s.png_size s.wallpaper_state
        s.wallpaper_tree p.wallpapers)
      h.0.1 h.1
      (wallpaper_init-NoOutputs s.memory s.theme s.path_memory s.branding s.png_size
        s.wallpaper_state s.wallpaper_tree p.wallpapers)

part_steps-Keep : (s : Starts) → Keep Started (part_steps s)
unfolding part_steps
part_steps-Keep s = (
  (λ p h.
      on_compositor-Started p (xdg_init s.xdg_shell (compositor p)) h.0
        (xdg_init-Calm s.xdg_shell (compositor p) h.1)),
  (
    (λ p h.
        on_compositor-Started p (input_init s.seat s.cursor s.manager (compositor p)) h.0
          (input_init-Calm s.seat s.cursor s.manager (compositor p) h.1)),
    (
      setting-OnSuccess Started
          (λ p. with_compositor (record (compositor p) { shell_overlay_tree = s.overlay_tree }) p)
          s.overlay_tree (λ p h. (h.0, overlay_tree-Calm s.overlay_tree h.1)),
      (
        wallpaper_step-Started s,
        (
          (λ p h.
              keybinds-Started p (keybinds_init s.memory s.keysym_of s.keybinds_file (compositor p))
                h (keybinds_init-OnlyBindings s.memory s.keysym_of s.keybinds_file (compositor p))),
          (
            layer_step-Started s.layer_shell,
            (
              (λ p h. (h.0, dbus_init-Calm s.connects (compositor p) h.1)),
              (
                (λ p h.
                    on_compositor-Started p
                      (lock_init s.lock_mgr s.idle_timer s.lock_signal (compositor p)) h.0
                      (lock_init-Calm s.lock_mgr s.idle_timer s.lock_signal (compositor p) h.1)),
                (
                  setting-OnSuccess Started (λ p. record p { shell = s.shell_struct })
                      s.shell_struct (λ p h. h),
                  (setting-OnSuccess Started (λ p. p) s.shell_init (λ p h. h), tt),
                ),
              ),
            ),
          ),
        ),
      ),
    ),
  ),
)

-- What the first steps end in, with the parts behind it.
created-Ends :
    (s : Starts) (r : Scan (Process × Bool))
    → Ends Quiet r
    → Ends Started (r >>= λ x. if x.1 then run_steps (part_steps s) x.0 else done x)
created-Ends s (done (p, true)) q =
    run_steps-Ends Started (part_steps s) p (part_steps-Keep s)
      ((ap (λ w. outputs_of w.state) q.0, q.2), q.3)
created-Ends s (done (p, false)) d = d
created-Ends s fault q = tt
created-Ends s no_fuel q = absurd q

-- Whatever the libraries make and whatever outputs the backend announces when it starts:
-- zen_compositor_create does not run out of the fuel of its loops, and unless the parser of the key
-- bindings reads behind its buffer, it returns 0, and then no output has a wallpaper or the overlay
-- yet, there is no window, no move and no activation, and the screen is open,
-- or it fails, and then the pointers to the overlay, the shell, the lock manager, the bus, the
-- wallpapers' state, the seat, the cursor, the scene, the allocator, the renderer, the backend and
-- the display are NULL, the screen is open, and the lists of key bindings and windows are empty.
pub compositor_create-Ends : (s : Starts) → Ends Started (compositor_create s boot)
unfolding compositor_create
compositor_create-Ends s =
    created-Ends s (run_steps (core_steps s) boot)
      (run_steps-Ends Quiet (core_steps s) boot (core_steps-Keep s) (refl, refl, refl, boot-Calm))
