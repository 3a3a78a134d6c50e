-- ===== src/Input/Pointer.antt =====
-- src/compositor/src/input.c: the pointer, dragging a window, and buttons.
use zen_os.Base.{
  ℕ, suc, replicate, ◌++◌, ◌+◌, ◌*◌, ◌/◌, ◌≤◌, ◌<◌, Bool, true, false, Option, none, some, List, [],
  ◌∷◌, ◌≡◌, refl, ap, ◌∙◌, arith, if◌then◌else◌,
}
use zen_os.Base.Int.{ℤ, pos, ◌+ℤ◌, ◌-ℤ◌, quot}
use zen_os.Compositor.{Compositor, Grab, no_grab}
use zen_os.Compositor.Calls.{Call, Node, set_position, move_cursor, pointer_button}
use zen_os.Compositor.World.{World}
use zen_os.Windows.{handle_request_move}
use zen_os.Windows.Invariant.{focused-focus_toplevel}
use zen_os.Input.{
  Hit, dragged, process_cursor_motion, handle_cursor_motion, handle_cursor_button, toplevel_under,
  toplevel_at_scene_node, focus_under,
}

-- A motion of the cursor: the world after it, when, by how much, and what is then under the cursor.
pub record Motion : Type 0 where
  pub world : World
  pub time : ℕ
  pub dx : ℤ
  pub dy : ℤ
  pub hit : Option Hit

-- handle_cursor_motion, for each motion.
pub move_all : List Motion → Compositor → Compositor
move_all [] c = c
move_all (m ∷ ms) c = move_all ms (handle_cursor_motion m.world m.time m.dx m.dy m.hit c)

-- When the cursor is n/256 of a pixel to the right of where a drag started, the window is n/256
-- pixels, rounded down, to the right of where it stood; to the left, likewise.
abbrev pub Follows : (ℤ → ℤ → ℤ → ℤ) → Type 0
Follows place =
    (node start : ℤ) (n : ℕ)
    → (k : ℕ) × (place node start (start +ℤ pos n) ≡ node +ℤ pos k)
      × (place node (start +ℤ pos n) start ≡ node -ℤ pos k)
      × (256 * k ≤ n)
      × (n < 256 * (k + 1))

dragged-Follows : Follows dragged
unfolding dragged ◌+ℤ◌ ◌-ℤ◌ quot
dragged-Follows node start n = (n / 256, ground arith, ground arith, ground arith, ground arith)

-- What a drag from the world `w` asks of the libraries for its motions, newest first: to move the
-- cursor, and to place the window. `place` says where, from where it stood and where the cursor was
-- and is, in one direction.
pub drag_calls : (ℤ → ℤ → ℤ → ℤ) → World → ℕ → List Motion → List Call → List Call
drag_calls place w t [] ks = ks
drag_calls place w t (m ∷ ms) ks = drag_calls place w t ms (
    set_position (Node.window t) (place (w.node_x t) w.cursor_x m.world.cursor_x)
      (place (w.node_y t) w.cursor_y m.world.cursor_y)
    ∷ move_cursor m.dx m.dy
    ∷ ks)

abbrev grab_of : World → ℕ → Grab
grab_of w t = record {
  toplevel = some t;
  x = w.cursor_x;
  y = w.cursor_y;
  node_x = w.node_x t;
  node_y = w.node_y t;
}

drag_step :
    (w : World) (t : ℕ) (m : Motion) (c : Compositor)
    → c.cursor ≡ true
    → c.seat ≡ true
    → c.grab ≡ grab_of w t
    → handle_cursor_motion m.world m.time m.dx m.dy m.hit c
      ≡ record c { calls = drag_calls dragged w t (m ∷ []) c.calls }
unfolding handle_cursor_motion process_cursor_motion drag_calls
drag_step w t m c h s g = ground arith

move_all_lem :
    (w : World) (t : ℕ) (ms : List Motion) (c : Compositor)
    → c.cursor ≡ true
    → c.seat ≡ true
    → c.grab ≡ grab_of w t
    → move_all ms c ≡ record c { calls = drag_calls dragged w t ms c.calls }
unfolding move_all drag_calls
move_all_lem w t [] c h s g = refl
move_all_lem w t (m ∷ ms) c h s g =
    rw (drag_step w t m c h s g)
      (move_all_lem w t ms (record c { calls = drag_calls dragged w t (m ∷ []) c.calls }) h s g)

-- With a cursor and a seat, from handle_toplevel_request_move over any motions to the release of a
-- button: each motion places the window as many pixels from where it stood, across and down, as the
-- cursor is, in whole pixels rounded toward zero, from where it was; nothing else hears of the
-- motions, and after the release no move is left and all else is as before it.
pub drag_lem :
    (w w' : World) (t time button : ℕ) (ms : List Motion) (hit : Option Hit) (c : Compositor)
    → c.cursor ≡ true
    → c.seat ≡ true
    → (place : ℤ → ℤ → ℤ → ℤ) × Follows place
      × (handle_cursor_button w' time button false hit (move_all ms (handle_request_move w t c))
          ≡ record c {
            grab = no_grab;
            calls = pointer_button time button false ∷ drag_calls place w t ms c.calls;
          })
unfolding handle_request_move handle_cursor_button
drag_lem w w' t time button ms hit c h s = (
  dragged,
  dragged-Follows,
  ap (handle_cursor_button w' time button false hit) (
      ap (move_all ms) (grabbed h)
      ∙ move_all_lem w t ms (record c { grab = grab_of w t }) h s refl),
)
  where
    grabbed : c.cursor ≡ true → handle_request_move w t c ≡ record c { grab = grab_of w t }
    grabbed h = ground arith

unfoldable pub or_focus : Option ℕ → Option ℕ → Option ℕ
or_focus none f = f
or_focus (some t) f = some t

focused-focus_under :
    (w : World) (o : Option ℕ) (c : Compositor)
    → (focus_under w o c).focused_toplevel ≡ or_focus o c.focused_toplevel
unfolding or_focus
focused-focus_under w none c = refl
focused-focus_under w (some t) c = focused-focus_toplevel w (some t) c

-- Of the `data` from a node up to the root, `o` is the first that is set, or NULL if none is.
abbrev pub IsNearest : List (Option ℕ) → Option ℕ → Type 0
IsNearest ds none = (n : ℕ) × (ds ≡ replicate n none)
IsNearest ds (some t) =
    (n : ℕ) × (above : List (Option ℕ)) × (ds ≡ replicate n none ++ some t ∷ above)

-- `o` is the window at what wlr_scene_node_at has found.
abbrev pub IsUnder : Option Hit → Option ℕ → Type 0
IsUnder none o = o ≡ none
IsUnder (some hit) o = IsNearest hit.data_upwards o

IsNearest-none : (ds : List (Option ℕ)) (o : Option ℕ) → IsNearest ds o → IsNearest (none ∷ ds) o
IsNearest-none ds none (n, e) = (suc n, ap (λ l. none ∷ l) e)
IsNearest-none ds (some t) (n, above, e) = (suc n, above, ap (λ l. none ∷ l) e)

toplevel_at_scene_node-IsNearest : (ds : List (Option ℕ)) → IsNearest ds (toplevel_at_scene_node ds)
unfolding toplevel_at_scene_node
toplevel_at_scene_node-IsNearest [] = (0, refl)
toplevel_at_scene_node-IsNearest (none ∷ ds) =
    IsNearest-none ds (toplevel_at_scene_node ds) (toplevel_at_scene_node-IsNearest ds)
toplevel_at_scene_node-IsNearest (some t ∷ ds) = (0, ds, refl)

toplevel_under-IsUnder : (hit : Option Hit) → IsUnder hit (toplevel_under hit)
unfolding toplevel_under
toplevel_under-IsUnder none = refl
toplevel_under-IsUnder (some hit) = toplevel_at_scene_node-IsNearest hit.data_upwards

-- A press gives focus to the window under the cursor, the nearest one up the scene graph, if there
-- is one, and else leaves it alone; and so does a release.
pub handle_cursor_button_focus :
    (w : World) (time button : ℕ) (pressed : Bool) (hit : Option Hit) (c : Compositor)
    → (o : Option ℕ) × IsUnder hit o
      × ((handle_cursor_button w time button pressed hit c).focused_toplevel
          ≡ (if pressed then or_focus o c.focused_toplevel else c.focused_toplevel))
unfolding handle_cursor_button
handle_cursor_button_focus w time button true hit c =
    (toplevel_under hit, toplevel_under-IsUnder hit, focused-focus_under w (toplevel_under hit) c)
handle_cursor_button_focus w time button false hit c =
    (toplevel_under hit, toplevel_under-IsUnder hit, ground arith)
