-- ===== src/Layer.antt =====
-- src/compositor/src/layer.c: the layer surfaces. Layers is what the code keeps, with how many of its
-- listeners are on each surface, how many structs it has allocated for it, and whether there is a scene
-- node for it. The scene node goes with the surface.
pub mod History
pub mod Empties
use zen_os.Base.{
  ℕ, suc, ◌+◌, ◌-◌, Bool, true, false, not, ◌&&◌, Option, none, some, List, [], ◌∷◌, if◌then◌else◌,
  at,
}
use zen_os.Base.Int.{ℤ, is_pos}
use zen_os.Base.Links.{unlink}
use zen_os.Compositor.{Compositor}
use zen_os.Compositor
use zen_os.Compositor.Calls.{
  Call, Node, layer_surface, set_enabled, destroy_layer_surface, configure_layer_surface,
}
use zen_os.Compositor.World.{World, Box}

pub record Layers : Type 0 where
  pub compositor : Compositor
  pub layer_shell : Bool
  pub new_layer_surface : Bool
  -- layer_surfaces.next is not NULL
  pub list_init : Bool
  pub layer_surfaces : List ℕ
  -- the listeners for map, unmap and destroy
  pub map_listeners : ℕ → ℕ
  pub unmap_listeners : ℕ → ℕ
  pub destroy_listeners : ℕ → ℕ
  pub structs : ℕ → ℕ

abbrev pub call : Call → Layers → Layers
call k l = record l { compositor = Compositor.call k l.compositor }

-- zen_layer_init, with whether the global can be made.
unfoldable pub layer_init : Bool → Layers → Layers × Bool
layer_init created l =
    let listed = record l { list_init = true; layer_surfaces = [] } in
    if created
    then (record listed { layer_shell = true; new_layer_surface = true }, true)
    else (record listed { layer_shell = false }, false)

-- Off the list, with its listeners, and freed.
unfoldable pub drop_surface : ℕ → Layers → Layers
drop_surface a l = record l {
  map_listeners = at a (l.map_listeners a - 1) l.map_listeners;
  unmap_listeners = at a (l.unmap_listeners a - 1) l.unmap_listeners;
  destroy_listeners = at a (l.destroy_listeners a - 1) l.destroy_listeners;
  layer_surfaces = unlink (λ b. b) a l.layer_surfaces;
  structs = at a (l.structs a - 1) l.structs;
}

-- wl_list_for_each_safe: the elements that the list has at the start.
unfoldable pub drop_surfaces : List ℕ → Layers → Layers
unfolding drop_surface
drop_surfaces [] l = l
drop_surfaces (a ∷ rest) l = drop_surfaces rest (drop_surface a l)

-- zen_layer_destroy
unfoldable pub layer_destroy : Layers → Layers
unfolding drop_surfaces
layer_destroy l =
    if l.list_init then record (drop_surfaces l.layer_surfaces l) { layer_shell = false } else l

-- The initial configure.
unfoldable pub configure : World → Option ℕ → ℕ → Layers → Layers
configure w none a l = l
configure w (some output) a l =
    let box = w.box_of output in
    if is_pos box.width && is_pos box.height
    then call (configure_layer_surface a box.width box.height) l
    else l

-- Which of calloc and wlr_scene_layer_surface_v1_create succeed.
pub record Makes : Type 0 where
  pub struct_ : Bool
  pub scene_layer : Bool

-- From the scene node on, with the struct allocated.
unfoldable pub add_surface : World → Bool → Option ℕ → ℕ → Layers → Layers
unfolding configure
add_surface w false output a l =
    call (destroy_layer_surface a) (record l { structs = at a (l.structs a - 1) l.structs })
add_surface w true output a l = configure w output a (record l {
  map_listeners = at a (suc (l.map_listeners a)) l.map_listeners;
  unmap_listeners = at a (suc (l.unmap_listeners a)) l.unmap_listeners;
  destroy_listeners = at a (suc (l.destroy_listeners a)) l.destroy_listeners;
  layer_surfaces = a ∷ l.layer_surfaces;
})

-- handle_new_layer_surface, with the output that the client asked for.
unfoldable pub handle_new_layer_surface : World → Makes → Option ℕ → ℕ → Layers → Layers
unfolding add_surface
handle_new_layer_surface w m output a l =
    if m.struct_
    then add_surface w m.scene_layer output a
        (record l { structs = at a (suc (l.structs a)) l.structs })
    else call (destroy_layer_surface a) l

-- handle_layer_surface_map
unfoldable pub handle_map : ℕ → Layers → Layers
handle_map a l = call (set_enabled (layer_surface a) true) l

-- handle_layer_surface_unmap
unfoldable pub handle_unmap : ℕ → Layers → Layers
handle_unmap a l = call (set_enabled (layer_surface a) false) l

-- handle_layer_surface_destroy
unfoldable pub handle_destroy : ℕ → Layers → Layers
unfolding drop_surface
handle_destroy a l = drop_surface a l
