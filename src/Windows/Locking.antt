-- ===== src/Windows/Locking.antt =====
-- src/compositor/src/xdg.c: the handlers and the state of the lock screen.
use zen_os.Base.{ℕ, true, false, Option, ◌≡◌, refl, arith}
use zen_os.Compositor.{Compositor}
use zen_os.Compositor.World.{World}
use zen_os.Windows.{
  focus_toplevel, handle_map, handle_unmap, handle_destroy, handle_request_move,
  handle_request_maximize, handle_request_fullscreen, handle_set_title, handle_set_app_id,
  handle_new_toplevel,
}
use zen_os.Windows.History.{
  Event, maps, unmaps, destroys, moves, maximizes, goes_fullscreen, retitles, changes_app_id,
  handle, Step, event, opens, opens_no_memory,
}

pub record SameLock (c d : Compositor) : Type 0 where
  pub locked : d.locked ≡ c.locked
  pub lock : d.lock ≡ c.lock

pub SameLock-focus_toplevel :
    (w : World) (o : Option ℕ) (c : Compositor) → SameLock c (focus_toplevel w o c)
unfolding focus_toplevel
SameLock-focus_toplevel w o c = record { locked = ground arith; lock = ground arith }

SameLock-handle : (e : Event) (w : World) (t : ℕ) (c : Compositor) → SameLock c (handle e w t c)
unfolding handle_map handle_unmap handle_destroy handle_request_move handle_request_maximize
    handle_request_fullscreen handle_set_title handle_set_app_id focus_toplevel
SameLock-handle maps w t c = record { locked = ground arith; lock = ground arith }
SameLock-handle unmaps w t c = record { locked = ground arith; lock = ground arith }
SameLock-handle destroys w t c = record { locked = ground arith; lock = ground arith }
SameLock-handle moves w t c = record { locked = ground arith; lock = ground arith }
SameLock-handle maximizes w t c = record { locked = ground arith; lock = ground arith }
SameLock-handle goes_fullscreen w t c = record { locked = ground arith; lock = ground arith }
SameLock-handle retitles w t c = record { locked = refl; lock = refl }
SameLock-handle changes_app_id w t c = record { locked = refl; lock = refl }

pub SameLock-Step : {c d : Compositor} → Step c d → SameLock c d
unfolding handle_new_toplevel
SameLock-Step {c} (event w t e h) = SameLock-handle e w t c
SameLock-Step {c} (opens t true h) = record { locked = refl; lock = refl }
SameLock-Step {c} (opens t false h) = record { locked = refl; lock = refl }
SameLock-Step {c} (opens_no_memory s) = record { locked = refl; lock = refl }
