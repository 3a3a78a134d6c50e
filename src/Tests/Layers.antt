-- ===== src/Tests/Layers.antt =====
-- layer.c and xwayland.c: a panel, and an X11 window.
use zen_os.Base.{true, false, some, none, [], ◌∷◌, refl}
use zen_os.Base.Links.{has}
use zen_os.Layer.{Layers, layer_init, layer_destroy}
use zen_os.Layer.History.{Event, Reach, begins, then_event, new_surface, maps, fires}
use zen_os.Layer.Empties.{Empty, layer_destroy-Empty}
use zen_os.Xwayland.{Bridge, XwaylandSurface, map_window, handle_new_surface}
use zen_os.Xwayland.History
use zen_os.Xwayland.History.{Sound}
use zen_os.Xwayland.Listeners.{Reach-Sound}
use zen_os.Xwayland.Focus.{Stolen, map_window-Stolen}
use zen_os.Tests.Fixtures.{desktop, booted}

abbrev no_layers : Layers
no_layers = record {
  compositor = booted;
  layer_shell = false;
  new_layer_surface = false;
  list_init = false;
  layer_surfaces = [];
  map_listeners = λ a. 0;
  unmap_listeners = λ a. 0;
  destroy_listeners = λ a. 0;
  structs = λ a. 0;
}

abbrev panel : Event
panel = new_surface (record { struct_ = true; scene_layer = true }) none 7

-- A panel is made and mapped.
abbrev with_panel : Layers
with_panel = fires desktop (maps 7) (fires desktop panel (layer_init true no_layers).0)

with_panel-Reach : Reach desktop (layer_init true no_layers).0 with_panel
unfolding layer_init has
with_panel-Reach =
    then_event (maps 7) (fires desktop panel (layer_init true no_layers).0)
      (then_event panel (layer_init true no_layers).0 begins refl) refl

layer_destroy-Empty_example : Empty (layer_destroy with_panel)
layer_destroy-Empty_example =
    layer_destroy-Empty desktop true no_layers with_panel (λ a. (refl, refl, refl, refl))
      with_panel-Reach

abbrev no_windows : Bridge
no_windows = record {
  compositor = booted;
  xwayland = true;
  xwayland_ready = true;
  new_xwayland_surface = true;
  windows = λ a. none;
  has_surface = λ a. false;
  nodes = λ a. 0;
  map_listeners = λ a. 0;
  unmap_listeners = λ a. 0;
}

abbrev opens : History.Event
opens = History.new_surface true (some (b'x' ∷ [])) 5

abbrev gets_surface : History.Event
gets_surface = History.associate true 5

abbrev one_window : Bridge
one_window = History.fires desktop gets_surface (History.fires desktop opens no_windows)

one_window-Reach : History.Reach desktop no_windows one_window
unfolding History.fires handle_new_surface
one_window-Reach =
    History.then_event gets_surface (History.fires desktop opens no_windows)
      (History.then_event opens no_windows History.begins refl) refl

Reach-Sound_example : Sound one_window
Reach-Sound_example =
    Reach-Sound desktop no_windows one_window (λ a. (refl, refl, refl)) one_window-Reach

-- The toplevel 3 has focus.
abbrev focused : Bridge
focused = record no_windows {
  compositor = record booted { focused_toplevel = some 3 };
  has_surface = λ a. true;
}

abbrev window : XwaylandSurface
window = record { scene_surface = true; title = none; map = true; unmap = true }

map_window-Stolen_example : Stolen desktop 3 5 (map_window desktop 5 window focused).compositor
map_window-Stolen_example = map_window-Stolen desktop 3 5 window focused refl refl refl refl
