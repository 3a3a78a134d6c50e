-- ===== src/Wallpaper/Outputs.antt =====
-- src/compositor/src/wallpaper.c: the wallpaper of each output. A Wallpapers is the static state with how
-- many of each thing that the code makes there are: a buffer counts until it is dropped.
pub mod Counts
pub mod Lifetime
use zen_os.Base.{
  ℕ, zero, suc, ◌+◌, ◌-◌, Bool, true, false, not, ◌&&◌, ◌||◌, Option, none, some, List, [], ◌∷◌,
  ◌++◌, Bytes, leb, ltb, if◌then◌else◌, length, drop,
}
use zen_os.Base.Int.{ℤ, is_pos, pos_part}
use zen_os.Base.Scan.{Scan, done, ◌>>=◌}
use zen_os.Keybinds.Fields.{Memory, is_word}
use zen_os.Keybinds.Config.{ConfigFile}
use zen_os.Wallpaper.{parse_wallpaper_path}

-- ".png"
abbrev png : Bytes
png = b'.' ∷ b'p' ∷ b'n' ∷ b'g' ∷ []

-- `nlen < 5`, and the comparison of the last four bytes.
unfoldable pub is_png : Bytes → Bool
unfolding is_word
is_png name = leb 5 (length name) && is_word (drop (length name - 4) name) png

-- "data/branding/wallpaper"
abbrev wallpaper_dir : Bytes
wallpaper_dir =
    b'd' ∷ b'a' ∷ b't' ∷ b'a' ∷ b'/' ∷ b'b' ∷ b'r' ∷ b'a' ∷ b'n' ∷ b'd' ∷ b'i' ∷ b'n' ∷ b'g' ∷ b'/'
    ∷ b'w' ∷ b'a' ∷ b'l' ∷ b'l' ∷ b'p' ∷ b'a' ∷ b'p' ∷ b'e' ∷ b'r' ∷ []

-- The loop of find_first_png: the first name that fits is the result, if there is memory.
unfoldable pub first_png : (Bytes → Bool) → Bytes → List Bytes → Option Bytes
unfolding is_png
first_png memory dir [] = none
first_png memory dir (name ∷ names) =
    let path = dir ++ b'/' ∷ name in
    let rest = first_png memory dir names in
    if is_png name then (if memory path then some path else none) else rest

-- find_first_png, with what readdir lists if the directory can be opened.
unfoldable pub find_first_png : (Bytes → Bool) → Bytes → Option (List Bytes) → Option Bytes
unfolding first_png
find_first_png memory dir none = none
find_first_png memory dir (some names) = first_png memory dir names

-- What is drawn for an output: the brand color, or the image, with its size and the output's. Its
-- scale is computed in doubles, which are not modelled.
pub data Picture : Type 0 where
  brand : Picture
  cover : ℕ → ℕ → ℕ → ℕ → Picture

pub record WallpaperOutput : Type 0 where
  pub wlr_output : ℕ
  pub picture : Picture

-- src_image: its width and height
pub record WallpaperState : Type 0 where
  pub src_image : Option (ℕ × ℕ)
  pub outputs : List WallpaperOutput

pub record Wallpapers : Type 0 where
  pub wallpaper_tree : Bool
  pub state : Option WallpaperState
  pub states : ℕ
  pub images : ℕ
  pub structs : ℕ
  pub surfaces : ℕ
  pub contexts : ℕ
  pub buffers : ℕ
  pub nodes : ℕ

abbrev pub pred : ℕ → ℕ
pred zero = zero
pred (suc n) = n

-- Which of the steps of a rendering succeed.
pub record Makes : Type 0 where
  pub struct_ : Bool
  pub surface : Bool
  pub context : Bool
  pub buffer : Bool
  pub node : Bool

abbrev draw : Option (ℕ × ℕ) → ℕ → ℕ → Picture
draw none out_w out_h = brand
draw (some (img_w, img_h)) out_w out_h = cover img_w img_h out_w out_h

-- The failures' end: the surface and the struct go.
give_up : Wallpapers → Wallpapers × Bool
give_up s = (record s { surfaces = pred s.surfaces; structs = pred s.structs }, false)

-- The scene node, and the place on the list.
make_node : Makes → WallpaperState → WallpaperOutput → Wallpapers → Wallpapers × Bool
unfolding give_up
make_node m w o s =
    if m.node
    then (
      record s { nodes = suc s.nodes; state = some (record w { outputs = o ∷ w.outputs }) },
      true,
    )
    else give_up (record s { buffers = pred s.buffers })

-- The drawing is done, and the buffer is made.
make_buffer : Makes → WallpaperState → WallpaperOutput → Wallpapers → Wallpapers × Bool
unfolding give_up make_node
make_buffer m w o s =
    let drawn = record s { contexts = pred s.contexts } in
    if m.buffer
    then make_node m w o (record drawn { buffers = suc drawn.buffers })
    else give_up drawn

make_context : Makes → WallpaperState → WallpaperOutput → Wallpapers → Wallpapers × Bool
unfolding give_up make_buffer
make_context m w o s =
    let made = record s { contexts = suc s.contexts } in
    if m.context
    then make_buffer m w o made
    else give_up (record made { contexts = pred made.contexts })

make_surface : Makes → WallpaperState → WallpaperOutput → Wallpapers → Wallpapers × Bool
unfolding give_up make_context
make_surface m w o s =
    let made = record s { surfaces = suc s.surfaces } in
    if m.surface then make_context m w o made else give_up made

-- render_output_internal
unfoldable pub render_output_internal :
    Makes → WallpaperState → ℕ → ℤ → ℤ → Wallpapers → Wallpapers × Bool
unfolding make_surface
render_output_internal m w output out_w out_h s =
    if not (is_pos out_w) || not (is_pos out_h)
    then (s, false)
    else if not m.struct_
    then (s, false)
    else make_surface m w
        (record {
          wlr_output = output;
          picture = draw w.src_image (pos_part out_w) (pos_part out_h);
        })
        (record s { structs = suc s.structs })

pub rendered : Makes → Option WallpaperState → ℕ → ℤ → ℤ → Wallpapers → Wallpapers × Bool
unfolding render_output_internal
rendered m none output out_w out_h s = (s, false)
rendered m (some w) output out_w out_h s =
    if s.wallpaper_tree then render_output_internal m w output out_w out_h s else (s, false)

-- zen_wallpaper_render_output
unfoldable pub wallpaper_render_output : Makes → ℕ → ℤ → ℤ → Wallpapers → Wallpapers × Bool
unfolding rendered
wallpaper_render_output m output out_w out_h s = rendered m s.state output out_w out_h s

-- cairo_image_surface_create_from_png, for each path: the size of what it loads. An image that is in
-- error is destroyed at once.
loaded : Option (ℕ × ℕ) → Wallpapers → Wallpapers × Option (ℕ × ℕ)
loaded none made = (record made { images = pred made.images }, none)
loaded (some size) made = (made, some size)

load : (Bytes → Option (ℕ × ℕ)) → Option Bytes → Wallpapers → Wallpapers × Option (ℕ × ℕ)
unfolding loaded
load png_size none s = (s, none)
load png_size (some path) s =
    let made = record s { images = suc s.images } in loaded (png_size path) made

abbrev or_else : Option Bytes → Option Bytes → Option Bytes
or_else none b = b
or_else (some a) b = some a

-- The rest of zen_wallpaper_init, with the path of the theme.
init_with : (Bytes → Option (ℕ × ℕ)) → Option Bytes → Option Bytes → Wallpapers → Wallpapers
unfolding load
init_with png_size theme fallback s =
    let l = load png_size (or_else theme fallback) s in
    record l.0 { state = some (record { src_image = l.1; outputs = [] }) }

-- zen_wallpaper_init: the memory and file of the theme, the fallback's directory, the images, and
-- whether the state and the tree can be made.
unfoldable pub wallpaper_init :
    Memory
    → Option ConfigFile
    → (Bytes → Bool)
    → Option (List Bytes)
    → (Bytes → Option (ℕ × ℕ))
    → Bool
    → Bool
    → Wallpapers
    → Scan (Wallpapers × Bool)
unfolding init_with load loaded parse_wallpaper_path find_first_png
wallpaper_init mem file path_memory dir png_size has_state has_tree s =
    let allocated = record s { states = suc s.states } in
    let treed = record allocated { wallpaper_tree = true } in
    if not has_state
    then done (s, false)
    else if has_tree
    then (parse_wallpaper_path mem file >>= λ theme.
        done (init_with png_size theme (find_first_png path_memory wallpaper_dir dir) treed, true))
    else done (record allocated { wallpaper_tree = false; states = pred allocated.states }, false)

drop_outputs : List WallpaperOutput → Wallpapers → Wallpapers
drop_outputs [] s = s
drop_outputs (o ∷ os) s =
    drop_outputs os
      (record s { nodes = pred s.nodes; surfaces = pred s.surfaces; structs = pred s.structs })

drop_image : Option (ℕ × ℕ) → Wallpapers → Wallpapers
drop_image none s = s
drop_image (some size) s = record s { images = pred s.images }

destroyed : Option WallpaperState → Wallpapers → Wallpapers
unfolding drop_outputs drop_image
destroyed none s = s
destroyed (some w) s =
    let d = drop_image w.src_image (drop_outputs w.outputs s) in
    record d { states = pred d.states; state = none }

-- zen_wallpaper_destroy
unfoldable pub wallpaper_destroy : Wallpapers → Wallpapers
unfolding destroyed
wallpaper_destroy s = destroyed s.state s
