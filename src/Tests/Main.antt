-- ===== src/Tests/Main.antt =====
-- main.c with one output, which is there when the backend starts.
use zen_os.Base.{Bool, true, false, some, none, [], ◌∷◌, ◌≡◌, refl, arith}
use zen_os.Base.Int.{pos}
use zen_os.Base.Scan.{Scan, done, fault, no_fuel}
use zen_os.Base.Links.{has}
use zen_os.Compositor.{Compositor}
use zen_os.Windows.{handle_map, handle_new_toplevel}
use zen_os.Windows.Invariant.{Inv}
use zen_os.Windows.History.{maps, event, opens}
use zen_os.Input.History.{here, next, window, idles}
use zen_os.Main.{Process, Output, Starts, compositor, compositor_create}
use zen_os.Main.Running.{Reach-Sane}
use zen_os.Main.Steps.{boot, Ends}
use zen_os.Main.Startup.{Started, compositor_create-Ends}
use zen_os.Tests.Fixtures.{desktop, plenty, around, pressing}
use zen_os.Tests.Lock.{a_opens}
use zen_os.Lock.{activate, idle_timeout_cb}
use zen_os.Lock.Session.{Implements, open_screen}
use zen_os.Main.Unlocking.{Keyboard, handle_all, strokes_after_escape, strokes-unlock}

abbrev screen : Output
screen = record {
  address = 1;
  width = pos 16;
  height = pos 9;
  struct_ = true;
  wallpaper = record { struct_ = true; surface = true; context = true; buffer = true; node = true };
  overlay = true;
  buffer = record {
    surface = true;
    context = true;
    layout = true;
    raw_buffer = true;
    scene_node = true;
  };
}

-- No bus, no configuration; everything else works.
abbrev works : Starts
works = record {
  display = true;
  backend = true;
  renderer = true;
  wlr_comp = true;
  allocator = true;
  scene = true;
  output_layout = true;
  scene_layout = true;
  outputs = screen ∷ [];
  backend_starts = true;
  xdg_shell = true;
  seat = true;
  cursor = true;
  manager = true;
  overlay_tree = true;
  memory = plenty;
  theme = none;
  path_memory = λ b. true;
  branding = none;
  png_size = λ b. none;
  wallpaper_state = true;
  wallpaper_tree = true;
  keysym_of = λ b. 0;
  keybinds_file = none;
  layer_shell = true;
  connects = record {
    open_user = some 2;
    add_object_vtable = none;
    request_name = none;
    get_fd = none;
    add_fd = true;
  };
  lock_mgr = true;
  idle_timer = true;
  lock_signal = true;
  shell_struct = true;
  shell_init = true;
}

abbrev result : Scan (Process × Bool) → Process
result (done r) = r.0
result fault = boot
result no_fuel = boot

works_created : compositor_create works boot ≡ done (result (compositor_create works boot), true)
unfolding compositor_create zen_os.Keybinds.Config.register_binding
works_created = refl

compositor_create-Ends_example : Ends Started (compositor_create works boot)
compositor_create-Ends_example = compositor_create-Ends works

-- The process that has been started, and then a window that is opened and mapped.
abbrev running : Process
running = result (compositor_create works boot)

abbrev opened : Compositor
opened = handle_new_toplevel (some 1) true (compositor running)

Reach-Sane_example :
    Inv (handle_map desktop 1 opened) × Implements open_screen (handle_map desktop 1 opened)
unfolding compositor_create zen_os.Keybinds.Config.register_binding handle_new_toplevel has
    handle_map zen_os.Windows.focus_toplevel
Reach-Sane_example =
    Reach-Sane works running (handle_map desktop 1 opened) works_created
      (next (next here (window (opens 1 true refl))) (window (event desktop 1 maps refl)))

-- The idle timer has shut the screen.
abbrev idle : Compositor
idle = idle_timeout_cb desktop true (compositor running)

abbrev keyboard : Keyboard
keyboard = record {
  down = λ k. pressing (k ∷ []) 0;
  up = λ k. record (pressing (k ∷ []) 0) { pressed = false };
  down_pressed = λ k. refl;
  down_syms = λ k. refl;
  up_released = λ k. refl;
}

strokes-unlock_example :
    Implements open_screen (handle_all around (strokes_after_escape keyboard (b'a' ∷ [])) idle)
unfolding compositor_create zen_os.Keybinds.Config.register_binding activate
    zen_os.Lock.render_lock_ui idle_timeout_cb
strokes-unlock_example =
    strokes-unlock works running idle around keyboard (b'a' ∷ []) works_created
      (next here (idles desktop true)) refl (omega arith, omega arith, tt) (omega arith) a_opens
