-- ===== src/Main/Overlay.antt =====
-- src/compositor/src/main.c with cairo_buffer.c: the test overlay, from the output that it is made for to
-- the end of the compositor.
use zen_os.Base.{Option, none, some}
use zen_os.CairoBuffer
use zen_os.CairoBuffer.{State, Makes}
use zen_os.CairoBuffer.Lifetime.{Gone}

-- There was no overlay, or it is gone.
abbrev pub AllGone : Option State → Type 0
AllGone none = Unit {0}
AllGone (some s) = Gone s

-- An overlay that goes well when it is destroyed.
abbrev Destroyable : Option State → Type 0
Destroyable none = Unit {0}
Destroyable (some s) = Gone (CairoBuffer.destroy s)
