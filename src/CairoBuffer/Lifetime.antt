-- ===== src/CairoBuffer/Lifetime.antt =====
-- src/compositor/src/cairo_buffer.c: the life of what the code makes, as a log of operations that are
-- allowed or not.
use zen_os.Base.{
  ℕ, zero, suc, Bool, true, false, not, ◌&&◌, ◌||◌, Option, none, some, List, [], ◌∷◌, ◌≡◌, refl,
  ap, ◌∙◌, ◌==◌, if◌then◌else◌, inl, inr, Bool-cases,
}
use zen_os.Base.Int.{ℤ, is_pos}
use zen_os.CairoBuffer.{
  Resource, surface, context, layout, raw_buffer, scene_node, Op, acquires, releases, uses, State,
  null_buffer, Makes, destroy, create, submit, make_surface,
}

abbrev pub index : Resource → ℕ
index surface = 0
index context = 1
index layout = 2
index raw_buffer = 3
index scene_node = 4

-- What something stands on: a layout on its context, that on its surface; a scene node on its buffer,
-- whose pixels are the surface's.
abbrev pub base : Resource → Option Resource
base surface = none
base context = some surface
base layout = some context
base raw_buffer = some surface
base scene_node = some raw_buffer

abbrev pub is_live : Resource → List Resource → Bool
is_live r [] = false
is_live r (x ∷ xs) = index r == index x || is_live r xs

abbrev pub based : Option Resource → List Resource → Bool
based none live = true
based (some r) live = is_live r live

abbrev pub stands_on : Resource → Option Resource → Bool
stands_on r none = false
stands_on r (some q) = index r == index q

abbrev pub is_base : Resource → List Resource → Bool
is_base r [] = false
is_base r (x ∷ xs) = stands_on r (base x) || is_base r xs

abbrev pub remove : Resource → List Resource → List Resource
remove r [] = []
remove r (x ∷ xs) = if index r == index x then xs else x ∷ remove r xs

-- What is live after an operation, if it was allowed: nothing is made twice or on what is gone, given
-- back under what stands on it, or used when it is gone.
abbrev pub allowed : Op → List Resource → Option (List Resource)
allowed (acquires r) live =
    if based (base r) live && not (is_live r live) then some (r ∷ live) else none
allowed (releases r) live =
    if is_live r live && not (is_base r live) then some (remove r live) else none
allowed (uses r) live = if is_live r live && based (base r) live then some live else none

abbrev pub then_allowed : Op → Option (List Resource) → Option (List Resource)
then_allowed op none = none
then_allowed op (some live) = allowed op live

unfoldable pub live_after : List Op → Option (List Resource)
live_after [] = some []
live_after (op ∷ ops) = then_allowed op (live_after ops)

abbrev pub fresh : State
fresh = record { buf = null_buffer; ops = [] }

-- zen_cairo_buffer_submit, that many times.
unfoldable pub submit_all : ℕ → State → State
submit_all zero s = s
submit_all (suc n) s = submit_all n (submit s).0

-- Everything that the libraries can make, live.
abbrev pub everything : List Resource
everything = scene_node ∷ raw_buffer ∷ layout ∷ context ∷ surface ∷ []

-- Nothing is live, and no pointer is set.
pub record Gone (s : State) : Type 0 where
  pub nothing_live : live_after s.ops ≡ some []
  pub surface_null : s.buf.surface ≡ false
  pub cr_null : s.buf.cr ≡ false
  pub layout_null : s.buf.pango_layout ≡ false
  pub wlr_buf_null : s.buf.wlr_buf ≡ false
  pub scene_null : s.buf.scene_buffer ≡ false

-- Everything is live, and all pointers are set.
pub record Ready (s : State) : Type 0 where
  pub all_live : live_after s.ops ≡ some everything
  pub surface_set : s.buf.surface ≡ true
  pub cr_set : s.buf.cr ≡ true
  pub layout_set : s.buf.pango_layout ≡ true
  pub wlr_buf_set : s.buf.wlr_buf ≡ true
  pub scene_set : s.buf.scene_buffer ≡ true

abbrev pub Created : State × Bool → Type 0
Created (s, true) = Ready s
Created (s, false) = Gone s

abbrev is_gone :
    {s : State}
    → live_after s.ops ≡ some []
    → s.buf.surface ≡ false
    → s.buf.cr ≡ false
    → s.buf.pango_layout ≡ false
    → s.buf.wlr_buf ≡ false
    → s.buf.scene_buffer ≡ false
    → Gone s
is_gone a b c d e f = record {
  nothing_live = a;
  surface_null = b;
  cr_null = c;
  layout_null = d;
  wlr_buf_null = e;
  scene_null = f;
}

-- All the ways in which the libraries can fail.
made :
    (a b c d e : Bool) (w h : ℤ)
    → Created (
        make_surface
          (record { surface = a; context = b; layout = c; raw_buffer = d; scene_node = e })
          (record { buf = record null_buffer { width = w; height = h }; ops = [] }))
unfolding make_surface live_after
made false b c d e w h = is_gone refl refl refl refl refl refl
made true false c d e w h = is_gone refl refl refl refl refl refl
made true true false d e w h = is_gone refl refl refl refl refl refl
made true true true false e w h = is_gone refl refl refl refl refl refl
made true true true true false w h = is_gone refl refl refl refl refl refl
made true true true true true w h = record {
  all_live = refl;
  surface_set = refl;
  cr_set = refl;
  layout_set = refl;
  wlr_buf_set = refl;
  scene_set = refl;
}

-- However the libraries fail, zen_cairo_buffer_create on an empty struct either returns 0 with
-- everything made and its pointers set, or it fails with nothing live and all pointers NULL.
pub create-Created :
    (m : Makes) (parent : Bool) (width height : ℤ) → Created (create m parent width height fresh)
unfolding create destroy live_after
create-Created m parent width height =
    elim (Bool-cases (not parent || not (is_pos width) || not (is_pos height))) [
      | inl e ↦ rw (e, create) (is_gone refl refl refl refl refl refl)
      | inr e ↦
          rw (e, create) (made m.surface m.context m.layout m.raw_buffer m.scene_node width height)
    ]

abbrev full : ℤ → ℤ → List Op → State
full w h ops = record {
  buf = record {
    surface = true;
    cr = true;
    pango_layout = true;
    wlr_buf = true;
    scene_buffer = true;
    width = w;
    height = h;
  };
  ops = ops;
}

Ready-full : (s : State) → Ready s → s ≡ full s.buf.width s.buf.height s.ops
Ready-full s r = rw (r.surface_set, r.cr_set, r.layout_set, r.wlr_buf_set, r.scene_set)

submit-full :
    (w h : ℤ) (ops : List Op) → live_after ops ≡ some everything → Ready (submit (full w h ops)).0
unfolding submit live_after
submit-full w h ops e = record {
  all_live = rw (e, live_after);
  surface_set = refl;
  cr_set = refl;
  layout_set = refl;
  wlr_buf_set = refl;
  scene_set = refl;
}

destroy-full :
    (w h : ℤ) (ops : List Op) → live_after ops ≡ some everything → Gone (destroy (full w h ops))
unfolding destroy live_after
destroy-full w h ops e = record {
  nothing_live = rw (e, live_after);
  surface_null = refl;
  cr_null = refl;
  layout_null = refl;
  wlr_buf_null = refl;
  scene_null = refl;
}

submit-Gone : (s : State) → Gone s → (submit s).0 ≡ s
unfolding submit
submit-Gone s g = rw (g.surface_null, submit)

submit_all-Ready : (n : ℕ) (s : State) → Ready s → Ready (submit_all n s)
unfolding submit_all
submit_all-Ready zero s r = r
submit_all-Ready (suc n) s r =
    submit_all-Ready n (submit s).0
      (rw (Ready-full s r) (submit-full s.buf.width s.buf.height s.ops r.all_live))

submit_all-Gone : (n : ℕ) (s : State) → Gone s → submit_all n s ≡ s
unfolding submit_all submit
submit_all-Gone zero s g = refl
submit_all-Gone (suc n) s g = ap (submit_all n) (submit-Gone s g) ∙ submit_all-Gone n s g

destroy-Gone : (s : State) → Gone s → destroy s ≡ s
unfolding destroy
destroy-Gone s g =
    rw (g.surface_null, g.cr_null, g.layout_null, g.wlr_buf_null, g.scene_null, destroy)

lifetime : (n : ℕ) (r : State × Bool) → Created r → Gone (destroy (submit_all n r.0))
lifetime n (s, true) c =
    let r = submit_all-Ready n s c in
    let t = submit_all n s in
    rw (Ready-full t r) (destroy-full t.buf.width t.buf.height t.ops r.all_live)
lifetime n (s, false) g = rw (submit_all-Gone n s g, destroy-Gone s g) g

-- From zen_cairo_buffer_create on an empty struct, successful or not, over any number of submits
-- to zen_cairo_buffer_destroy: nothing is used or built on after it is gone, nothing is given back
-- twice or under what stands on it, and in the end nothing is live and all pointers are NULL.
pub lifetime-Gone :
    (m : Makes) (parent : Bool) (width height : ℤ) (n : ℕ)
    → Gone (destroy (submit_all n (create m parent width height fresh).0))
lifetime-Gone m parent width height n =
    lifetime n (create m parent width height fresh) (create-Created m parent width height)
