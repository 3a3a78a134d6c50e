-- ===== src/Lock/Picture.antt =====
-- src/compositor/src/lock.c: what render_lock_ui draws behind its guards. Colours are in hundredths,
-- angles in quarter turns. How large Pango makes a text is a parameter.
pub mod Layout
pub mod Masked
use zen_os.Base.{
  ℕ, zero, suc, ◌+◌, Bool, true, false, ltb, if◌then◌else◌, List, [], ◌∷◌, ◌++◌, Bytes, set,
}
use zen_os.Base.Int.{ℤ, pos, negsuc, ◌+ℤ◌, ◌-ℤ◌, quot}
use zen_os.Compositor.{LockState, LockScreen}
use zen_os.Lock.{c_string}

pub data Font : Type 0 where
  sans_bold_48 monospace_16 sans_14 : Font

-- pango_layout_get_pixel_size: the width and the height.
abbrev pub Measure : Type 0
Measure = Font → Bytes → ℕ × ℕ

pub data Draw : Type 0 where
  set_source_rgba : ℕ → ℕ → ℕ → ℕ → Draw
  paint fill new_sub_path close_path submit : Draw
  rectangle : ℤ → ℤ → ℕ → ℕ → Draw
  -- the centre, the radius, and the angles
  arc : ℤ → ℤ → ℕ → ℤ → ℤ → Draw
  -- cairo_move_to and pango_cairo_show_layout
  show_text : Font → Bytes → ℤ → ℤ → Draw

-- ZEN_LOCK_AVATAR_SIZE, ZEN_LOCK_PASS_W, ZEN_LOCK_PASS_H
abbrev pub avatar_size : ℕ
avatar_size = 80

abbrev pub pass_w : ℕ
pass_w = 300

abbrev pub pass_h : ℕ
pass_h = 40

-- A text in the middle of a width that begins at `left`.
abbrev pub centred : ℤ → ℤ → ℕ → ℤ
centred left width tw = left +ℤ quot (width -ℤ pos tw) 2

-- The time, which localtime and strftime give.
unfoldable pub draw_clock : Measure → Bytes → ℤ → ℤ → List Draw
draw_clock measure time_str w h =
    let size = measure sans_bold_48 time_str in
    set_source_rgba 100 100 100 100
    ∷ show_text sans_bold_48 time_str (quot (w -ℤ pos size.0) 2) (quot h 4 -ℤ quot (pos size.1) 2)
    ∷ []

unfoldable pub draw_avatar : ℤ → ℤ → List Draw
draw_avatar w h =
    set_source_rgba 40 40 40 100
    ∷ rectangle (quot (w -ℤ pos avatar_size) 2) (quot h 2 -ℤ pos avatar_size -ℤ pos 20) avatar_size
        avatar_size
    ∷ fill
    ∷ []

-- The field's rounded corners, for its left upper corner.
unfoldable pub draw_field : ℤ → ℤ → List Draw
draw_field px py =
    set_source_rgba 20 20 20 90
    ∷ new_sub_path
    ∷ arc (px +ℤ pos pass_w -ℤ pos 8) (py +ℤ pos 8) 8 (negsuc 0) (pos 0)
    ∷ arc (px +ℤ pos pass_w -ℤ pos 8) (py +ℤ pos pass_h -ℤ pos 8) 8 (pos 0) (pos 1)
    ∷ arc (px +ℤ pos 8) (py +ℤ pos pass_h -ℤ pos 8) 8 (pos 1) (pos 2)
    ∷ arc (px +ℤ pos 8) (py +ℤ pos 8) 8 (pos 2) (pos 3)
    ∷ close_path
    ∷ fill
    ∷ []

-- A write behind the end changes nothing.
unfoldable pub memset : ℕ → ℕ → Bytes → Bytes
memset c zero xs = xs
memset c (suc n) [] = []
memset c (suc n) (x ∷ xs) = c ∷ memset c n xs

-- The array `masked`, from what was on the stack, for a length of the password.
unfoldable pub masked : Bytes → ℕ → Bytes
masked stack len = set (memset b'*' len stack) len 0

unfoldable pub draw_dots : Measure → Bytes → ℕ → ℤ → ℤ → List Draw
unfolding masked
draw_dots measure stack len px py =
    let stars = c_string (masked stack len) in
    let size = measure monospace_16 stars in
    if ltb 0 len
    then set_source_rgba 100 100 100 100
      ∷ show_text monospace_16 stars (centred px (pos pass_w) size.0)
          (centred py (pos pass_h) size.1)
      ∷ []
    else []

abbrev pub incorrect_password : Bytes
incorrect_password =
    b'I' ∷ b'n' ∷ b'c' ∷ b'o' ∷ b'r' ∷ b'r' ∷ b'e' ∷ b'c' ∷ b't' ∷ b' ' ∷ b'p' ∷ b'a' ∷ b's' ∷ b's'
    ∷ b'w' ∷ b'o' ∷ b'r' ∷ b'd' ∷ []

unfoldable pub draw_error : Measure → Bool → ℤ → ℤ → List Draw
draw_error measure show_error w h =
    let size = measure sans_14 incorrect_password in
    if show_error
    then set_source_rgba 100 20 20 100
      ∷ show_text sans_14 incorrect_password (quot (w -ℤ pos size.0) 2)
          (quot h 2 +ℤ pos pass_h +ℤ pos 20)
      ∷ []
    else []

-- render_lock_ui, with the time and what is on the stack.
unfoldable pub lock_picture : Measure → Bytes → Bytes → LockState → List Draw
lock_picture measure time_str stack l =
    let w = l.screen.width in
    let h = l.screen.height in
    let px = quot (w -ℤ pos pass_w) 2 in
    let py = quot h 2 +ℤ pos 10 in
    (set_source_rgba 0 0 0 85 ∷ paint ∷ [])
    ++ (draw_clock measure time_str w h
        ++ (draw_avatar w h
            ++ (draw_field px py
                ++ (draw_dots measure stack l.password_len px py
                    ++ (draw_error measure l.screen.show_error w h ++ submit ∷ [])))))
