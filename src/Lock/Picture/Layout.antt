-- ===== src/Lock/Picture/Layout.antt =====
-- src/compositor/src/lock.c: where the parts of the lock screen stand.
use zen_os.Base.{
  ℕ, ◌+◌, ◌-◌, ◌*◌, ◌/◌, ◌≤◌, ◌≡◌, refl, arith, List, [], ◌∷◌, ◌++◌, Bytes, Bool, true, false, ltb,
  Bool-cases, inl, inr,
}
use zen_os.Base.Int.{ℤ, pos, ◌+ℤ◌, ◌-ℤ◌, quot}
use zen_os.Compositor.{LockState}
use zen_os.Lock.{c_string}
use zen_os.Lock.Picture.{
  Measure, Font, sans_bold_48, monospace_16, sans_14, Draw, rectangle, arc, show_text, draw_clock,
  draw_avatar, draw_field, draw_dots, draw_error, masked, incorrect_password, lock_picture,
}

-- A box of that size at a point lies on the screen.
abbrev pub Within : ℕ → ℕ → ℤ → ℤ → ℕ → ℕ → Type 0
Within w h x y bw bh = (a : ℕ) × (b : ℕ) × (x ≡ pos a) × (y ≡ pos b) × (a + bw ≤ w) × (b + bh ≤ h)

-- What is drawn lies on the screen, the whole circle of an arc included.
abbrev pub Inside : Measure → ℕ → ℕ → Draw → Type 0
Inside measure w h (rectangle x y bw bh) = Within w h x y bw bh
Inside measure w h (arc x y r from to) = Within w h (x -ℤ pos r) (y -ℤ pos r) (2 * r) (2 * r)
Inside measure w h (show_text f s x y) = Within w h x y (measure f s).0 (measure f s).1
Inside measure w h _ = Unit {0}

abbrev pub AllInside : Measure → ℕ → ℕ → List Draw → Type 0
AllInside measure w h [] = Unit {0}
AllInside measure w h (d ∷ ds) = Inside measure w h d × AllInside measure w h ds

AllInside-append :
    (measure : Measure) (w h : ℕ) (xs ys : List Draw)
    → AllInside measure w h xs
    → AllInside measure w h ys
    → AllInside measure w h (xs ++ ys)
AllInside-append measure w h [] ys p q = q
AllInside-append measure w h (x ∷ xs) ys p q = (p.0, AllInside-append measure w h xs ys p.1 q)

sub_pos : (a b : ℕ) → b ≤ a → pos a -ℤ pos b ≡ pos (a - b)
unfolding ◌-ℤ◌
sub_pos a b h = ground arith

add_pos : (a b : ℕ) → pos a +ℤ pos b ≡ pos (a + b)
unfolding ◌+ℤ◌
add_pos a b = ground arith

half_left : (w t : ℕ) → t ≤ w → quot (pos w -ℤ pos t) 2 ≡ pos ((w - t) / 2)
unfolding quot
half_left w t h = rw (sub_pos w t h) refl

field_top : (h : ℕ) → quot (pos h) 2 +ℤ pos 10 ≡ pos (h / 2 + 10)
unfolding quot
field_top h = add_pos (h / 2) 10

-- A text that fits.
abbrev pub Fits : Measure → Font → Bytes → ℕ → ℕ → Type 0
Fits measure f s w h = ((measure f s).0 ≤ w) × ((measure f s).1 ≤ h)

-- The box of the circle of a corner, at the end of a side and at its start.
corner_end : (p side : ℕ) → 16 ≤ side → pos p +ℤ pos side -ℤ pos 8 -ℤ pos 8 ≡ pos (p + side - 8 - 8)
corner_end p side h =
    rw (add_pos p side, sub_pos (p + side) 8 (omega arith)) (sub_pos (p + side - 8) 8 (omega arith))

corner_start : (p : ℕ) → pos p +ℤ pos 8 -ℤ pos 8 ≡ pos (p + 8 - 8)
corner_start p = rw (add_pos p 8) (sub_pos (p + 8) 8 (omega arith))

module _ (measure : Measure) (w h : ℕ) (wide : 300 ≤ w) (high : 320 ≤ h) where
  draw_clock-AllInside :
      (s : Bytes)
      → Fits measure sans_bold_48 s 300 100
      → AllInside measure w h (draw_clock measure s (pos w) (pos h))
  unfolding draw_clock quot
  draw_clock-AllInside s fits =
      let t = measure sans_bold_48 s in
      (
        tt,
        (
          (
            (w - t.0) / 2,
            h / 4 - t.1 / 2,
            half_left w t.0 (omega arith),
            sub_pos (h / 4) (t.1 / 2) (omega arith),
            omega arith,
            omega arith,
          ),
          tt,
        ),
      )

  draw_avatar-AllInside : AllInside measure w h (draw_avatar (pos w) (pos h))
  unfolding draw_avatar quot
  draw_avatar-AllInside = (
    tt,
    (
      (
        (w - 80) / 2,
        h / 2 - 80 - 20,
        half_left w 80 (omega arith),
        rw (sub_pos (h / 2) 80 (omega arith)) (sub_pos (h / 2 - 80) 20 (omega arith)),
        omega arith,
        omega arith,
      ),
      (tt, tt),
    ),
  )

  draw_error-AllInside :
      (b : Bool)
      → Fits measure sans_14 incorrect_password 300 100
      → AllInside measure w h (draw_error measure b (pos w) (pos h))
  unfolding draw_error quot
  draw_error-AllInside false fits = tt
  draw_error-AllInside true fits =
      let t = measure sans_14 incorrect_password in
      (
        tt,
        (
          (
            (w - t.0) / 2,
            h / 2 + 40 + 20,
            half_left w t.0 (omega arith),
            rw (add_pos (h / 2) 40) (add_pos (h / 2 + 40) 20),
            omega arith,
            omega arith,
          ),
          tt,
        ),
      )

  module _ (p q : ℕ) (across : p + 300 ≤ w) (down : q + 40 ≤ h) where
    draw_field-AllInside : AllInside measure w h (draw_field (pos p) (pos q))
    unfolding draw_field
    draw_field-AllInside =
        let right = corner_end p 300 (omega arith) in
        let bottom = corner_end q 40 (omega arith) in
        let left = corner_start p in
        let top = corner_start q in
        (
          tt,
          (
            tt,
            (
              (p + 300 - 8 - 8, q + 8 - 8, right, top, omega arith, omega arith),
              (
                (p + 300 - 8 - 8, q + 40 - 8 - 8, right, bottom, omega arith, omega arith),
                (
                  (p + 8 - 8, q + 40 - 8 - 8, left, bottom, omega arith, omega arith),
                  ((p + 8 - 8, q + 8 - 8, left, top, omega arith, omega arith), (tt, (tt, tt))),
                ),
              ),
            ),
          ),
        )

    draw_dots-AllInside :
        (stack : Bytes) (n : ℕ)
        → Fits measure monospace_16 (c_string (masked stack n)) 300 40
        → AllInside measure w h (draw_dots measure stack n (pos p) (pos q))
    unfolding draw_dots quot
    draw_dots-AllInside stack n fits = elim (Bool-cases (ltb 0 n)) [
      | inl e ↦ rw e (
        tt,
        (
          (
            p + (300 - t.0) / 2,
            q + (40 - t.1) / 2,
            rw (half_left 300 t.0 (omega arith)) (add_pos p ((300 - t.0) / 2)),
            rw (half_left 40 t.1 (omega arith)) (add_pos q ((40 - t.1) / 2)),
            omega arith,
            omega arith,
          ),
          tt,
        ),
      )
      | inr e ↦ rw e tt
    ]
      where
        t : ℕ × ℕ
        t = measure monospace_16 (c_string (masked stack n))

-- On a screen of at least 300 by 320 pixels, the clock, the avatar, the password's field with its
-- stars and the error are drawn wholly on the screen, when Pango makes each of the texts at most 300
-- pixels wide and 100 high, and the stars at most 40 high.
pub lock_picture-AllInside :
    (measure : Measure) (time_str stack : Bytes) (l : LockState) (w h : ℕ)
    → l.screen.width ≡ pos w
    → l.screen.height ≡ pos h
    → 300 ≤ w
    → 320 ≤ h
    → Fits measure sans_bold_48 time_str 300 100
    → Fits measure sans_14 incorrect_password 300 100
    → Fits measure monospace_16 (c_string (masked stack l.password_len)) 300 40
    → AllInside measure w h (lock_picture measure time_str stack l)
unfolding lock_picture
lock_picture-AllInside measure time_str stack l w h ew eh wide high fits_clock fits_error
      fits_stars =
    let p = (w - 300) / 2 in
    let q = h / 2 + 10 in
    let append = AllInside-append measure w h in
    rw (ew, eh, half_left w 300 (omega arith), field_top h)
      (
        tt,
        (
          tt,
          append _ _ (draw_clock-AllInside measure w h wide high time_str fits_clock) (
              append _ _ (draw_avatar-AllInside measure w h wide high) (
                append _ _
                  (draw_field-AllInside measure w h wide high p q (omega arith) (omega arith))
                  (append _ _
                    (draw_dots-AllInside measure w h wide high p q (omega arith) (omega arith) stack
                      l.password_len fits_stars)
                    (append _ _
                      (draw_error-AllInside measure w h wide high l.screen.show_error fits_error)
                      (tt, tt))))),
        ),
      )
