-- ===== src/Tests/Picture.antt =====
-- The picture of the lock screen at concrete states.
use zen_os.Base.{[], ◌∷◌, Bytes, ◌≡◌, refl, arith, replicate}
use zen_os.Compositor.{LockState}
use zen_os.Lock
use zen_os.Lock.{edit_key, c_string}
use zen_os.Lock.Password.{edit_key-Holds}
use zen_os.Lock.Picture.{Measure, masked, lock_picture}
use zen_os.Lock.Picture.Masked.{lock_picture-Masked}
use zen_os.Lock.Picture.Layout.{AllInside, lock_picture-AllInside}
use zen_os.Tests.Lock.{shut, shut-Implements}

-- Every text is drawn 100 pixels wide and 20 high.
abbrev equal_size : Measure
equal_size f s = (100, 20)

abbrev noon : Bytes
noon = b'1' ∷ b'2' ∷ b':' ∷ b'0' ∷ b'0' ∷ []

abbrev typed_a : LockState
typed_a = (edit_key b'a' shut).lock

abbrev typed_b : LockState
typed_b = (edit_key b'b' shut).lock

lock_picture-Masked_example :
    (lock_picture equal_size noon (replicate 256 7) typed_a
      ≡ lock_picture equal_size noon (replicate 256 0) typed_b)
    × (c_string (masked (replicate 256 7) typed_a.password_len) ≡ b'*' ∷ [])
unfolding edit_key Lock.render_lock_ui Lock.activate
lock_picture-Masked_example =
    lock_picture-Masked equal_size noon (replicate 256 7) (replicate 256 0) (b'a' ∷ []) (b'b' ∷ [])
      typed_a typed_b (edit_key-Holds b'a' [] shut shut-Implements.1)
      (edit_key-Holds b'b' [] shut shut-Implements.1) refl refl refl refl

lock_picture-AllInside_example :
    AllInside equal_size 1920 1080 (lock_picture equal_size noon (replicate 256 7) typed_a)
unfolding edit_key Lock.render_lock_ui Lock.activate
lock_picture-AllInside_example =
    lock_picture-AllInside equal_size noon (replicate 256 7) typed_a 1920 1080 refl refl
      (omega arith) (omega arith) (omega arith, omega arith) (omega arith, omega arith)
      (omega arith, omega arith)
