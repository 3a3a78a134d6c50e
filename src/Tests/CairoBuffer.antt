-- ===== src/Tests/CairoBuffer.antt =====
-- cairo_buffer.c where the scene node cannot be made, and where everything can.
use zen_os.Base.{true}
use zen_os.Base.Int.{pos}
use zen_os.CairoBuffer.{Makes, create, destroy}
use zen_os.CairoBuffer.Lifetime.{Gone, fresh, submit_all, lifetime-Gone}

abbrev all_made : Makes
all_made = record {
  surface = true;
  context = true;
  layout = true;
  raw_buffer = true;
  scene_node = true;
}

lifetime-Gone_example :
    Gone (destroy (submit_all 2 (create all_made true (pos 640) (pos 480) fresh).0))
lifetime-Gone_example = lifetime-Gone all_made true (pos 640) (pos 480) 2
