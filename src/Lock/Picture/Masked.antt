-- ===== src/Lock/Picture/Masked.antt =====
-- src/compositor/src/lock.c: what the lock screen's picture shows of the password.
use zen_os.Base.{
  ℕ, zero, suc, ◌<◌, ◌≡◌, refl, sym, ap, ◌∙◌, arith, [], ◌∷◌, Bytes, length, replicate,
}
use zen_os.Compositor.{LockState}
use zen_os.Lock.{c_string}
use zen_os.Lock.Password.{Holds}
use zen_os.Lock.Picture.{Measure, memset, masked, draw_dots, lock_picture}

-- In an array that is longer than the text, the stars and the NUL fit, whatever it held.
masked_lem :
    (n : ℕ) (stack : Bytes) → n < length stack → c_string (masked stack n) ≡ replicate n b'*'
unfolding masked memset c_string
masked_lem zero [] h = absurd (omega arith)
masked_lem zero (x ∷ stack) h = refl
masked_lem (suc n) [] h = absurd (omega arith)
masked_lem (suc n) (x ∷ stack) h = ap (◌∷◌ b'*') (masked_lem n stack (omega arith))

-- The picture is the same for any two texts of the same length in the password's buffer, on screens
-- of the same size and error flag, whatever was on the stack; and the text in the field is as many
-- stars as characters were typed.
pub lock_picture-Masked :
    (measure : Measure) (time_str stack old_stack : Bytes) (s t : Bytes) (l k : LockState)
    → Holds s l
    → Holds t k
    → length s ≡ length t
    → l.screen ≡ k.screen
    → length stack ≡ 256
    → length old_stack ≡ 256
    → (lock_picture measure time_str stack l ≡ lock_picture measure time_str old_stack k)
      × (c_string (masked stack l.password_len) ≡ replicate (length s) b'*')
unfolding lock_picture draw_dots
lock_picture-Masked measure time_str stack old_stack s t l k hs ht e screens n m =
    let stars = masked_lem (length s) stack (omega (arith, hs.fits)) in
    let old_stars = masked_lem (length s) old_stack (omega (arith, hs.fits)) in
    (
      rw (screens, hs.len, ht.len, sym e, stars, old_stars) refl,
      ap (λ n. c_string (masked stack n)) hs.len ∙ stars,
    )
