-- ===== src/Wallpaper/Outputs/Counts.antt =====
-- src/compositor/src/wallpaper.c: what there is for the outputs, and what a rendering adds.
use zen_os.Base.{
  ℕ, suc, Bool, true, false, not, ◌||◌, Option, none, some, List, [], ◌∷◌, ◌≡◌, ◌⊎◌, inl, inr, refl,
  sym, subst, ap, if◌then◌else◌, Bool-cases, length, is_some,
}
use zen_os.Base.Int.{ℤ, is_pos}
use zen_os.Wallpaper.Outputs.{
  WallpaperOutput, WallpaperState, Wallpapers, Makes, render_output_internal, make_surface,
  rendered,
}

abbrev pub bit : Bool → ℕ
bit true = 1
bit false = 0

-- The things of a state with so many outputs and, maybe, an image.
pub record Counts (n states images : ℕ) (s : Wallpapers) : Type 0 where
  pub states_live : s.states ≡ states
  pub images_live : s.images ≡ images
  pub structs_live : s.structs ≡ n
  pub surfaces_live : s.surfaces ≡ n
  pub contexts_live : s.contexts ≡ 0
  pub nodes_live : s.nodes ≡ n

pub counted :
    {n states images : ℕ} {s : Wallpapers}
    → s.states ≡ states
    → s.images ≡ images
    → s.structs ≡ n
    → s.surfaces ≡ n
    → s.contexts ≡ 0
    → s.nodes ≡ n
    → Counts n states images s
counted a b c d e f = record {
  states_live = a;
  images_live = b;
  structs_live = c;
  surfaces_live = d;
  contexts_live = e;
  nodes_live = f;
}

abbrev pub outputs_of : Option WallpaperState → List WallpaperOutput
outputs_of none = []
outputs_of (some w) = w.outputs

abbrev pub SoundState : Option WallpaperState → Wallpapers → Type 0
SoundState none s = Counts 0 0 0 s × (s.buffers ≡ 0)
SoundState (some w) s =
    Counts (length w.outputs) 1 (bit (is_some w.src_image)) s × (s.buffers ≡ length w.outputs)

-- A rendering that succeeds.
abbrev with_output : WallpaperState → WallpaperOutput → Wallpapers → Wallpapers
with_output w o s = record s {
  structs = suc s.structs;
  surfaces = suc s.surfaces;
  buffers = suc s.buffers;
  nodes = suc s.nodes;
  state = some (record w { outputs = o ∷ w.outputs });
}

-- A rendering that fails leaves no trace.
abbrev Rendered : WallpaperState → Wallpapers → Wallpapers × Bool → Type 0
Rendered w s r = (r ≡ (s, false)) ⊎ ((o : WallpaperOutput) × (r ≡ (with_output w o s, true)))

surface-Rendered :
    (a b c d e : Bool) (w : WallpaperState) (o : WallpaperOutput) (s : Wallpapers)
    → Rendered w s (
        make_surface
          (record { struct_ = a; surface = b; context = c; buffer = d; node = e })
          w
          o
          (record s { structs = suc s.structs }))
unfolding make_surface
surface-Rendered a false c d e w o s = inl refl
surface-Rendered a true false d e w o s = inl refl
surface-Rendered a true true false e w o s = inl refl
surface-Rendered a true true true false w o s = inl refl
surface-Rendered a true true true true w o s = inr (o, refl)

internal-Rendered :
    (m : Makes) (w : WallpaperState) (output : ℕ) (out_w out_h : ℤ) (s : Wallpapers)
    → Rendered w s (render_output_internal m w output out_w out_h s)
unfolding render_output_internal
internal-Rendered m w output out_w out_h s =
    elim (Bool-cases (not (is_pos out_w) || not (is_pos out_h))) [
      | inl e ↦ rw (e, render_output_internal) (inl refl)
      | inr e ↦ elim (Bool-cases m.struct_) [
        | inr i ↦ rw (e, i, render_output_internal) (inl refl)
        | inl i ↦
            rw (e, i, render_output_internal)
              (surface-Rendered true m.surface m.context m.buffer m.node w _ s)
      ]
    ]

abbrev pub Sound : Wallpapers → Type 0
Sound s = SoundState s.state s

output-Sound :
    (w : WallpaperState) (o : WallpaperOutput) (s : Wallpapers)
    → SoundState (some w) s
    → Sound (with_output w o s)
output-Sound w o s (c, b) = (
  counted c.states_live c.images_live (ap suc c.structs_live) (ap suc c.surfaces_live)
      c.contexts_live (ap suc c.nodes_live),
  ap suc b,
)

if_Sound :
    (t : Bool) (x y : Wallpapers × Bool)
    → Sound x.0
    → Sound y.0
    → Sound (if◌then◌else◌ {A = Wallpapers × Bool} t x y).0
if_Sound true x y h k = h
if_Sound false x y h k = k

internal-Sound :
    (w : WallpaperState) (s : Wallpapers) (r : Wallpapers × Bool)
    → s.state ≡ some w
    → Sound s
    → Rendered w s r
    → Sound r.0
internal-Sound w s r e h (inl i) = subst (λ x. Sound x.0) (sym i) h
internal-Sound w s r e h (inr (o, i)) =
    subst (λ x. Sound x.0) (sym i) (output-Sound w o s (subst (λ x. SoundState x s) e h))

pub rendered-Sound :
    (m : Makes) (w : Option WallpaperState) (output : ℕ) (out_w out_h : ℤ) (s : Wallpapers)
    → s.state ≡ w
    → Sound s
    → Sound (rendered m w output out_w out_h s).0
unfolding rendered
rendered-Sound m none output out_w out_h s e h = h
rendered-Sound m (some w) output out_w out_h s e h =
    let r = render_output_internal m w output out_w out_h s in
    if_Sound s.wallpaper_tree r (s, false)
      (internal-Sound w s r e h (internal-Rendered m w output out_w out_h s)) h
