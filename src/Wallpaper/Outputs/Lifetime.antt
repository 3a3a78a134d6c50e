-- ===== src/Wallpaper/Outputs/Lifetime.antt =====
-- src/compositor/src/wallpaper.c: what is made and given back, from zen_wallpaper_init to
-- zen_wallpaper_destroy.
use zen_os.Base.{
  suc, ℕ, Bool, true, false, Option, none, some, List, [], ◌∷◌, Bytes, ◌≡◌, refl, ap, ◌∙◌, length,
  is_some,
}
use zen_os.Base.Int.{ℤ}
use zen_os.Base.Scan.{Scan, done, fault, no_fuel, ◌>>=◌}
use zen_os.Keybinds.Fields.{Memory}
use zen_os.Keybinds.Config.{ConfigFile}
use zen_os.Wallpaper.{parse_wallpaper_path}
use zen_os.Wallpaper.Theme.{Returns, parse_wallpaper_path-Returns}
use zen_os.Wallpaper.Outputs.{
  WallpaperOutput, WallpaperState, Wallpapers, pred, Makes, wallpaper_render_output, wallpaper_init,
  wallpaper_destroy, destroyed, drop_outputs, drop_image, load, loaded, init_with, or_else,
  find_first_png, wallpaper_dir,
}
use zen_os.Wallpaper.Outputs.Counts.{
  bit, Counts, counted, outputs_of, SoundState, Sound, rendered-Sound,
}

-- zen_wallpaper_render_output, for each output that comes.
pub record Arrival : Type 0 where
  pub makes : Makes
  pub output : ℕ
  pub width : ℤ
  pub height : ℤ

unfoldable pub render_all : List Arrival → Wallpapers → Wallpapers
unfolding wallpaper_render_output
render_all [] s = s
render_all (a ∷ rest) s =
    render_all rest (wallpaper_render_output a.makes a.output a.width a.height s).0

render_all-Sound : (as_ : List Arrival) (s : Wallpapers) → Sound s → Sound (render_all as_ s)
unfolding render_all wallpaper_render_output
render_all-Sound [] s h = h
render_all-Sound (a ∷ rest) s h =
    render_all-Sound rest (wallpaper_render_output a.makes a.output a.width a.height s).0
      (rendered-Sound a.makes s.state a.output a.width a.height s refl h)

abbrev pub nothing_yet : Wallpapers
nothing_yet = record {
  wallpaper_tree = false;
  state = none;
  states = 0;
  images = 0;
  structs = 0;
  surfaces = 0;
  contexts = 0;
  buffers = 0;
  nodes = 0;
}

-- It returns, with a result that has the property.
abbrev pub Yields : {A : Type 0} → (A → Type 0) → Scan A → Type 0
Yields P (done a) = P a
Yields P fault = ⊥
Yields P no_fuel = ⊥

init_with-Sound :
    (png_size : Bytes → Option (ℕ × ℕ)) (path : Option Bytes)
    → Sound (
        let l = load png_size path (record nothing_yet { states = 1; wallpaper_tree = true }) in
        record l.0 { state = some (record { src_image = l.1; outputs = [] }) })
unfolding load
init_with-Sound png_size none = (counted refl refl refl refl refl refl, refl)
init_with-Sound png_size (some path) = by_size (png_size path)
  where
    by_size :
        (size : Option (ℕ × ℕ))
        → Sound (
            let l =
              loaded size (record nothing_yet { states = 1; wallpaper_tree = true; images = 1 }) in
            record l.0 { state = some (record { src_image = l.1; outputs = [] }) })
    by_size none = (counted refl refl refl refl refl refl, refl)
    by_size (some size) = (counted refl refl refl refl refl refl, refl)

-- What zen_wallpaper_destroy leaves of a state: nothing but the buffers.
pub record Leaves (buffers : ℕ) (s : Wallpapers) : Type 0 where
  pub no_state : s.state ≡ none
  pub counts : Counts 0 0 0 s
  pub buffers_left : s.buffers ≡ buffers

drop_outputs-Counts :
    (os : List WallpaperOutput) (states images : ℕ) (s : Wallpapers)
    → Counts (length os) states images s
    → Counts 0 states images (drop_outputs os s) × ((drop_outputs os s).buffers ≡ s.buffers)
unfolding drop_outputs
drop_outputs-Counts [] states images s c = (c, refl)
drop_outputs-Counts (o ∷ os) states images s c =
    drop_outputs-Counts os states images
      (record s { nodes = pred s.nodes; surfaces = pred s.surfaces; structs = pred s.structs })
      (counted c.states_live c.images_live (ap pred c.structs_live) (ap pred c.surfaces_live)
        c.contexts_live (ap pred c.nodes_live))

-- The image and the state, when the outputs are gone.
drop_image-Leaves :
    (image : Option (ℕ × ℕ)) (b : ℕ) (s : Wallpapers)
    → Counts 0 1 (bit (is_some image)) s
    → s.buffers ≡ b
    → Leaves b (let d = drop_image image s in record d { states = pred d.states; state = none })
unfolding drop_image
drop_image-Leaves none b s c e = record {
  no_state = refl;
  counts =
      counted (ap pred c.states_live) c.images_live c.structs_live c.surfaces_live c.contexts_live
        c.nodes_live;
  buffers_left = e;
}
drop_image-Leaves (some size) b s c e = record {
  no_state = refl;
  counts =
      counted (ap pred c.states_live) (ap pred c.images_live) c.structs_live c.surfaces_live
        c.contexts_live c.nodes_live;
  buffers_left = e;
}

destroyed-Leaves :
    (w : Option WallpaperState) (s : Wallpapers)
    → s.state ≡ w
    → SoundState w s
    → Leaves (length (outputs_of w)) (destroyed w s)
unfolding destroyed
destroyed-Leaves none s e (c, b) = record { no_state = e; counts = c; buffers_left = b }
destroyed-Leaves (some w) s e (c, b) =
    let d = drop_outputs-Counts w.outputs 1 (bit (is_some w.src_image)) s c in
    drop_image-Leaves w.src_image (length w.outputs) (drop_outputs w.outputs s) d.0 (d.1 ∙ b)

-- After zen_wallpaper_init, any outputs come, and zen_wallpaper_destroy is called.
abbrev pub LeavesBuffers : List Arrival → Wallpapers × Bool → Type 0
LeavesBuffers arrivals r =
    let s = render_all arrivals r.0 in Leaves (length (outputs_of s.state)) (wallpaper_destroy s)

render_all-LeavesBuffers :
    (arrivals : List Arrival) (s : Wallpapers) (ok : Bool)
    → Sound s
    → LeavesBuffers arrivals (s, ok)
unfolding wallpaper_destroy
render_all-LeavesBuffers arrivals s ok h =
    let t = render_all arrivals s in destroyed-Leaves t.state t refl (render_all-Sound arrivals s h)

start-Sound : Sound nothing_yet
start-Sound = (counted refl refl refl refl refl refl, refl)

bind-Yields :
    {B : Type 0} (P : B → Type 0) (r : Scan (Option Bytes)) (f : Option Bytes → B)
    → Returns r
    → ((theme : Option Bytes) → P (f theme))
    → Yields P (r >>= λ theme. done (f theme))
bind-Yields P (done theme) f h k = k theme
bind-Yields P fault f h k = absurd h
bind-Yields P no_fuel f h k = absurd h

-- When nothing has been made before, and however zen_wallpaper_init goes, it returns; and after any
-- renderings of outputs then, successful or not, zen_wallpaper_destroy leaves no state, image,
-- struct, surface, drawing context or scene node, but a buffer that is not dropped for each output
-- that was rendered.
pub wallpaper_init-LeavesBuffers :
    (mem : Memory) (file : Option ConfigFile) (path_memory : Bytes → Bool)
    (dir : Option (List Bytes)) (png_size : Bytes → Option (ℕ × ℕ)) (has_state has_tree : Bool)
    (arrivals : List Arrival)
    → Yields
        (LeavesBuffers arrivals)
        (wallpaper_init mem file path_memory dir png_size has_state has_tree nothing_yet)
unfolding wallpaper_init init_with
wallpaper_init-LeavesBuffers mem file path_memory dir png_size false has_tree arrivals =
    render_all-LeavesBuffers arrivals nothing_yet false start-Sound
wallpaper_init-LeavesBuffers mem file path_memory dir png_size true false arrivals =
    render_all-LeavesBuffers arrivals nothing_yet false start-Sound
wallpaper_init-LeavesBuffers mem file path_memory dir png_size true true arrivals =
    let treed = record nothing_yet { states = 1; wallpaper_tree = true } in
    bind-Yields (LeavesBuffers arrivals) (parse_wallpaper_path mem file)
      (λ theme.
        (init_with png_size theme (find_first_png path_memory wallpaper_dir dir) treed, true))
      (parse_wallpaper_path-Returns mem file)
      (λ theme.
        render_all-LeavesBuffers arrivals
          (init_with png_size theme (find_first_png path_memory wallpaper_dir dir) treed) true
          (init_with-Sound png_size (or_else theme (find_first_png path_memory wallpaper_dir dir))))

destroyed-none :
    (w : Option WallpaperState) (s : Wallpapers) → s.state ≡ w → (destroyed w s).state ≡ none
unfolding destroyed
destroyed-none none s e = e
destroyed-none (some w) s e = refl

-- Whatever the state was, there is none then.
pub wallpaper_destroy-none : (s : Wallpapers) → (wallpaper_destroy s).state ≡ none
unfolding wallpaper_destroy
wallpaper_destroy-none s = destroyed-none s.state s refl

-- A state that has just been made has no outputs.
abbrev pub NoOutputs : Scan (Wallpapers × Bool) → Type 0
NoOutputs (done (w, true)) = outputs_of w.state ≡ []
NoOutputs (done (w, false)) = Unit
NoOutputs fault = Unit
NoOutputs no_fuel = ⊥

init_with-NoOutputs :
    (r : Scan (Option Bytes)) (png_size : Bytes → Option (ℕ × ℕ)) (fallback : Option Bytes)
    (s : Wallpapers)
    → Returns r
    → NoOutputs (r >>= λ theme. done (init_with png_size theme fallback s, true))
unfolding init_with
init_with-NoOutputs (done theme) png_size fallback s h = refl
init_with-NoOutputs fault png_size fallback s h = tt
init_with-NoOutputs no_fuel png_size fallback s h = absurd h

pub wallpaper_init-NoOutputs :
    (mem : Memory) (file : Option ConfigFile) (path_memory : Bytes → Bool)
    (dir : Option (List Bytes)) (png_size : Bytes → Option (ℕ × ℕ)) (has_state has_tree : Bool)
    (s : Wallpapers)
    → NoOutputs (wallpaper_init mem file path_memory dir png_size has_state has_tree s)
unfolding wallpaper_init
wallpaper_init-NoOutputs mem file path_memory dir png_size false has_tree s = tt
wallpaper_init-NoOutputs mem file path_memory dir png_size true false s = tt
wallpaper_init-NoOutputs mem file path_memory dir png_size true true s =
    init_with-NoOutputs (parse_wallpaper_path mem file) png_size
      (find_first_png path_memory wallpaper_dir dir)
      (record s { states = suc s.states; wallpaper_tree = true })
      (parse_wallpaper_path-Returns mem file)
