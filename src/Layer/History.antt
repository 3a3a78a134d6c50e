-- ===== src/Layer/History.antt =====
-- src/compositor/src/layer.c: any sequence of events.
use zen_os.Base.{ℕ, Bool, true, false, not, Option, ◌≡◌, if◌then◌else◌}
use zen_os.Base.Links.{has, Distinct}
use zen_os.Compositor.World.{World}
use zen_os.Layer.{Layers, Makes, handle_new_layer_surface, handle_map, handle_unmap, handle_destroy}

pub data Event : Type 0 where
  new_surface : Makes → Option ℕ → ℕ → Event
  maps unmaps destroy : ℕ → Event

abbrev pub is_listed : ℕ → Layers → Bool
is_listed a l = has (λ b. b) a l.layer_surfaces

abbrev pub only : Bool → (Layers → Layers) → Layers → Layers
only t f l = if t then f l else l

-- The listeners of a surface are called while the code has it.
unfoldable pub fires : World → Event → Layers → Layers
unfolding handle_new_layer_surface handle_map handle_unmap handle_destroy
fires w (new_surface m output a) l = handle_new_layer_surface w m output a l
fires w (maps a) l = only (is_listed a l) (handle_map a) l
fires w (unmaps a) l = only (is_listed a l) (handle_unmap a) l
fires w (destroy a) l = only (is_listed a l) (handle_destroy a) l

-- A new surface has an address of its own.
abbrev pub may : Event → Layers → Bool
may (new_surface m output a) l = not (is_listed a l)
may _ l = true

abbrev pub bit : Bool → ℕ
bit true = 1
bit false = 0

-- One of each listener and one struct for a surface on the list, and none for any other.
abbrev pub Kept : Bool → ℕ → ℕ → ℕ → ℕ → Type 0
Kept listed m u d s = (m ≡ bit listed) × (u ≡ bit listed) × (d ≡ bit listed) × (s ≡ bit listed)

pub record Sound (l : Layers) : Type 0 where
  pub ready : l.list_init ≡ true
  pub distinct : Distinct (λ b. b) l.layer_surfaces
  pub kept :
      (a : ℕ)
      → Kept
          (is_listed a l)
          (l.map_listeners a)
          (l.unmap_listeners a)
          (l.destroy_listeners a)
          (l.structs a)

pub data Reach (w : World) (start : Layers) : Layers → Type 0 where
  begins : Reach w start start
  then_event :
      (e : Event) (l : Layers) → Reach w start l → may e l ≡ true → Reach w start (fires w e l)
