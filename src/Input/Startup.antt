-- ===== src/Input/Startup.antt =====
-- src/compositor/src/input.c: zen_input_init, and its clean-up where a constructor fails.
use zen_os.Base.{Bool, ◌&&◌, [], ◌≡◌, arith}
use zen_os.Compositor.{Compositor}
use zen_os.Input.{input_init, input_destroy}

-- The seat, the cursor, its theme's manager and the listeners are there, or none of them is; and no
-- keyboard yet.
pub record AllOrNothing (r : Compositor × Bool) : Type 0 where
  pub seat : r.0.seat ≡ r.1
  pub cursor : r.0.cursor ≡ r.1
  pub xcursor_mgr : r.0.xcursor_mgr ≡ r.1
  pub input_listeners : r.0.input_listeners ≡ r.1
  pub keyboards : r.0.keyboards ≡ []

-- zen_input_init returns 0 exactly if there is a display and the seat, the cursor and its theme's
-- manager can be made; then they and all listeners are set, otherwise none of them is, whatever
-- was set before, and there is no keyboard in either case.
pub input_init-AllOrNothing :
    (seat cursor manager : Bool) (c : Compositor)
    → AllOrNothing (input_init seat cursor manager c)
      × ((input_init seat cursor manager c).1 ≡ c.wl_display && seat && cursor && manager)
unfolding input_init input_destroy
input_init-AllOrNothing seat cursor manager c = (
  record {
    seat = ground arith;
    cursor = ground arith;
    xcursor_mgr = ground arith;
    input_listeners = ground arith;
    keyboards = ground arith;
  },
  ground arith,
)
