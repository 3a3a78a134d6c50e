-- ===== src/Tests/Models.antt =====
-- models.c on a heap with one application's strings, and dbus-errors.c on two codes.
use zen_os.Base.{[], ◌∷◌, ◌≡◌, refl, arith, ◌==◌, ◌||◌}
use zen_os.Base.Int.{pos}
use zen_os.Base.Scan.{done}
use zen_os.Models.{Heap}
use zen_os.Models.Structs.{null_app_info}
use zen_os.Models.Cleanup.{Model, app_info, cleanup, null}
use zen_os.Models.Live.{has}
use zen_os.Models.Frees.{Owns, Frees, cleanup-Frees}
use zen_os.Models.Init.{init, cleanup-init}

-- A name at 1, no icon, and two categories at 2 and 3, in an array at 4.
abbrev browser : Model
browser = app_info (record null_app_info { name = 1; categories = 4; categories_count = pos 2 })

abbrev small_heap : Heap
small_heap = record {
  live = λ p. p == 1 || p == 2 || p == 3 || p == 4 || p == 9;
  pointers = λ p. 2 ∷ 3 ∷ [];
}

browser-Owns : Owns browser small_heap
unfolding has
browser-Owns = record {
  long = (tt, (tt, (tt, (tt, ((λ n. omega arith), tt)))));
  live = (refl, refl, (refl, refl, (refl, refl, (refl, refl, tt))));
}

cleanup-Frees_example : Frees browser small_heap
cleanup-Frees_example = cleanup-Frees browser small_heap browser-Owns

cleanup-init_example : cleanup (init browser) small_heap ≡ done (small_heap, null browser)
cleanup-init_example = cleanup-init browser small_heap
