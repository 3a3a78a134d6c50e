-- ===== src/CairoBuffer.antt =====
-- src/compositor/src/cairo_buffer.c: a Cairo surface that is shown as a scene node. A state is the
-- struct with the log of what was made, used and given back, newest first.
pub mod Lifetime
use zen_os.Base.{Bool, true, false, not, ◌&&◌, ◌||◌, List, [], ◌∷◌, if◌then◌else◌}
use zen_os.Base.Int.{ℤ, pos, is_pos}

pub data Resource : Type 0 where
  surface context layout raw_buffer scene_node : Resource

pub data Op : Type 0 where
  acquires releases uses : Resource → Op

-- struct ZenCairoBuffer: which of its pointers are set.
pub record CairoBuffer : Type 0 where
  pub surface : Bool
  pub cr : Bool
  pub pango_layout : Bool
  pub wlr_buf : Bool
  pub scene_buffer : Bool
  pub width : ℤ
  pub height : ℤ

pub record State : Type 0 where
  pub buf : CairoBuffer
  pub ops : List Op

abbrev pub null_buffer : CairoBuffer
null_buffer = record {
  surface = false;
  cr = false;
  pango_layout = false;
  wlr_buf = false;
  scene_buffer = false;
  width = pos 0;
  height = pos 0;
}

-- Which of the libraries' constructors succeed.
pub record Makes : Type 0 where
  pub surface : Bool
  pub context : Bool
  pub layout : Bool
  pub raw_buffer : Bool
  pub scene_node : Bool

abbrev acquire : Resource → State → State
acquire r s = record s { ops = acquires r ∷ s.ops }

abbrev release : Resource → State → State
release r s = record s { ops = releases r ∷ s.ops }

abbrev with_buf : CairoBuffer → State → State
with_buf b s = record s { buf = b }

destroy_node : State → State
destroy_node s =
    if s.buf.scene_buffer
    then with_buf (record s.buf { scene_buffer = false }) (release scene_node s)
    else s

drop_raw : State → State
drop_raw s =
    if s.buf.wlr_buf then with_buf (record s.buf { wlr_buf = false }) (release raw_buffer s) else s

unref_layout : State → State
unref_layout s =
    if s.buf.pango_layout
    then with_buf (record s.buf { pango_layout = false }) (release layout s)
    else s

destroy_context : State → State
destroy_context s =
    if s.buf.cr then with_buf (record s.buf { cr = false }) (release context s) else s

destroy_surface : State → State
destroy_surface s =
    if s.buf.surface then with_buf (record s.buf { surface = false }) (release surface s) else s

-- zen_cairo_buffer_destroy
unfoldable pub destroy : State → State
unfolding destroy_node drop_raw unref_layout destroy_context destroy_surface
destroy s = destroy_surface (destroy_context (unref_layout (drop_raw (destroy_node s))))

-- 5. The scene node. (Cleanup is zen_cairo_buffer_destroy, if this fails.)
make_node : Makes → State → State × Bool
unfolding destroy
make_node m s =
    if m.scene_node
    then (with_buf (record s.buf { scene_buffer = true }) (acquire scene_node s), true)
    else (destroy (with_buf (record s.buf { wlr_buf = false }) (release raw_buffer s)), false)

-- 4. The wlr_buffer.
make_raw : Makes → State → State × Bool
unfolding make_node destroy
make_raw m s =
    if m.raw_buffer
    then make_node m (with_buf (record s.buf { wlr_buf = true }) (acquire raw_buffer s))
    else (destroy s, false)

-- 3. The Pango layout.
make_layout : Makes → State → State × Bool
unfolding make_raw destroy
make_layout m s =
    if m.layout
    then make_raw m (with_buf (record s.buf { pango_layout = true }) (acquire layout s))
    else (destroy s, false)

-- 2. The drawing context. A context that is in error is given back, too.
make_context : Makes → State → State × Bool
unfolding make_layout destroy
make_context m s =
    let made = acquire context s in
    if m.context
    then make_layout m (with_buf (record s.buf { cr = true }) made)
    else (destroy (release context made), false)

-- 1. The surface. So is a surface.
make_surface : Makes → State → State × Bool
unfolding make_context destroy
make_surface m s =
    let made = acquire surface s in
    if m.surface
    then make_context m (with_buf (record s.buf { surface = true }) made)
    else (destroy (release surface made), false)

-- zen_cairo_buffer_create: the new state, and whether it returns 0.
unfoldable pub create : Makes → Bool → ℤ → ℤ → State → State × Bool
unfolding make_surface destroy
create m parent width height s =
    if not parent || not (is_pos width) || not (is_pos height)
    then (destroy s, false)
    else make_surface m (with_buf (record null_buffer { width = width; height = height }) s)

-- zen_cairo_buffer_submit
unfoldable pub submit : State → State × Bool
submit s =
    if not s.buf.surface || not s.buf.scene_buffer || not s.buf.wlr_buf
    then (s, false)
    else (record s { ops = uses raw_buffer ∷ uses scene_node ∷ uses surface ∷ s.ops }, true)
