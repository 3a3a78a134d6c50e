-- ===== src/Tests/Windows.antt =====
-- xdg.c on two windows.
use zen_os.Base.{true, false, some, ◌≡◌, ◌≢◌, ◌⊎◌, refl}
use zen_os.Base.Links.{has, to_front}
use zen_os.Compositor.{Compositor, address_of}
use zen_os.Windows.{
  self, focus_toplevel, handle_map, handle_unmap, handle_new_toplevel, xdg_init, xdg_destroy,
}
use zen_os.Windows.Invariant.{Inv, handle_new_toplevel-Inv, handle_map-Inv}
use zen_os.Windows.History.{xdg_init-Inv}
use zen_os.Windows.Order.{IsNextMapped, MovesToFront, focus_toplevel_front, handle_unmap_focus}
use zen_os.Windows.Faults.{xdg_destroy_dangles}
use zen_os.Tests.Fixtures.{desktop, booted}

-- The first window is opened and mapped, the second is opened.
abbrev started : Compositor
started = (xdg_init true booted).0

abbrev opened_one : Compositor
opened_one = handle_new_toplevel (some 1) true started

abbrev mapped_one : Compositor
mapped_one = handle_map desktop 1 opened_one

abbrev opened_two : Compositor
opened_two = handle_new_toplevel (some 2) true mapped_one

one-Inv : Inv opened_one
unfolding xdg_init has
one-Inv = handle_new_toplevel-Inv 1 true started (xdg_init-Inv true booted refl refl refl refl) refl

mapped_one-Inv : Inv mapped_one
unfolding handle_new_toplevel has
mapped_one-Inv = handle_map-Inv desktop 1 opened_one one-Inv refl

focus_toplevel_front_example :
    ((focus_toplevel desktop (some 2) opened_two).focused_toplevel ≡ some 2)
    × MovesToFront 2 opened_two.toplevels (focus_toplevel desktop (some 2) opened_two).toplevels
unfolding focus_toplevel handle_map handle_new_toplevel xdg_init has to_front
focus_toplevel_front_example = focus_toplevel_front desktop 2 opened_two refl refl

handle_unmap_focus_example :
    ((opened_two.focused_toplevel ≡ some 1)
      × IsNextMapped desktop 1 opened_two.toplevels
          (handle_unmap desktop 1 opened_two).focused_toplevel)
    ⊎ ((opened_two.focused_toplevel ≢ some 1)
        × ((handle_unmap desktop 1 opened_two).focused_toplevel ≡ opened_two.focused_toplevel))
handle_unmap_focus_example = handle_unmap_focus desktop 1 opened_two

xdg_destroy_dangles_example :
    (has address_of 1 (xdg_destroy mapped_one).toplevels ≡ false)
    × (has self 1 (xdg_destroy mapped_one).listening ≡ true)
unfolding focus_toplevel handle_map handle_new_toplevel xdg_init has to_front
xdg_destroy_dangles_example = xdg_destroy_dangles mapped_one 1 mapped_one-Inv refl
