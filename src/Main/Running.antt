-- ===== src/Main/Running.antt =====
-- src/compositor/src/main.c: the event loop, between zen_compositor_create and
-- zen_compositor_destroy.
use zen_os.Base.{true, ◌≡◌, subst}
use zen_os.Base.Scan.{done}
use zen_os.Compositor.{Compositor}
use zen_os.Windows.Invariant.{Inv}
use zen_os.Lock.Session.{Screen, open_screen, Implements}
use zen_os.Input.History.{Reach, here, next, interleaving-Inv}
use zen_os.Input.Locked.{screen_after, Step-Implements}
use zen_os.Main.{Process, compositor, Starts, compositor_create}
use zen_os.Main.Steps.{boot, Ends}
use zen_os.Main.Calm.{Calm-Inv, Calm-Implements}
use zen_os.Main.Startup.{Started, compositor_create-Ends}

-- The screen after the events, from an open one.
abbrev pub screen_of : {c d : Compositor} → Reach c d → Screen
screen_of here = open_screen
screen_of (next r st) = screen_after st (screen_of r)

interleaving-Implements :
    {c d : Compositor} → Implements open_screen c → (r : Reach c d) → Implements (screen_of r) d
interleaving-Implements i here = i
interleaving-Implements i (next r st) =
    Step-Implements st (screen_of r) (interleaving-Implements i r)

created-Started : (s : Starts) {p : Process} → compositor_create s boot ≡ done (p, true) → Started p
created-Started s e = subst (Ends Started) e (compositor_create-Ends s)

-- After zen_compositor_create has returned 0, whatever the libraries made, and then any interleaving
-- of the events of windows, keyboards, the pointer and devices, the idle timer, logind's Lock signal,
-- clients' requests for a cursor or a lock, and D-Bus method calls: the windows in the list are
-- distinct, focus and grab are NULL or point into the list, the listeners left are those of the
-- windows in the list, and a window is activated exactly if it has focus; and the lock screen is open,
-- with nothing left of a password, or shut, with the text in it that the keys typed since it was shut
-- have made in the text field of the specification.
pub Reach-Sane :
    (s : Starts) (p : Process) (d : Compositor)
    → compositor_create s boot ≡ done (p, true)
    → (r : Reach (compositor p) d) → Inv d × Implements (screen_of r) d
Reach-Sane s p d e r =
    let calm = (created-Started s e).1 in
    (interleaving-Inv (Calm-Inv calm) r, interleaving-Implements (Calm-Implements calm) r)
