-- ===== src/Lib.antt =====
-- Zen OS: the compositor with its windows, lock screen, key bindings, input routing, layers, X11 windows,
-- Cairo buffers, bus interface, wallpaper and start-up; the session manager; the shared models.
--
-- The compositor is one process. wlroots calls its listeners one after the other, and each changes
-- one struct ZenCompositor and calls wlroots, Cairo, PAM or the bus. Here a listener is a function
-- from a Compositor to a Compositor. What the libraries' state is at that moment is an argument (a
-- World, a Hit, an Auth, whether a constructor succeeds), and what is asked of them is added to the
-- `calls` that the state carries.
--
--   Compositor   src/compositor/include/zen/compositor.h, xdg.h, keybinds.h: the structs, with the
--                static variables of lock.c. Compositor.Calls has the calls, Compositor.World what
--                the listeners read of the libraries.
--   Windows      src/compositor/src/xdg.c. zen_xdg_focus_toplevel is focus_toplevel, and
--                handle_toplevel_map is handle_map, and so on; a wl_list is a List, its first element
--                behind the head. A toplevel is known by its address. Windows.Invariant and
--                Windows.History have the invariant, Windows.Order the order of focus,
--                Windows.Faults two further cases, Windows.Untouched and Windows.Locking
--                what other code leaves alone.
--   Lock         src/compositor/src/lock.c. zen_lock_handle_key is handle_key, zen_lock_activate is
--                activate, zen_lock_deactivate is deactivate. Lock.Password compares the buffer with
--                a text, Lock.Session the screen with a text field; Lock.Picture is what
--                render_lock_ui draws, Picture.Masked and Picture.Layout are about it; Lock.Silence
--                and Lock.Windows say what the lock screen leaves alone.
--   Keybinds     src/compositor/src/keybinds.c: the registry and the actions. Keybinds.Config is the
--                loader of keybinds.json and Keybinds.Fields its fields; a pointer into the buffer
--                is what is left of it, and a read behind the buffer is a fault. Config.Ends,
--                Fields.Ends, Fields.Array and Overrides have the proofs. Config.Printed is a
--                configuration written out; Fields.Found, Fields.Passed, Config.Split, Config.Objects and
--                Config.RoundTrip are about how it is read, Configured about what its keys do.
--   Input        src/compositor/src/input.c. It calls Lock.handle_key on a locked screen,
--                Keybinds.handle_key on an open one, and Windows.focus_toplevel on a click.
--                Input.Keys and Input.Pointer say where events go, Input.History and Input.Locked
--                what holds under any interleaving of events, Input.Asides which events leave the
--                windows and the lock screen alone.
--   CairoBuffer  src/compositor/src/cairo_buffer.c, with a log of what is made, used and given back.
--   Dbus         src/compositor/src/dbus.c: the methods, and the connection. Dbus.Vtable has the method
--                table, with messages as lists of typed arguments, Vtable.Typed the proofs.
--   Wallpaper    src/compositor/src/wallpaper.c: parse_wallpaper_path_from_theme, with the file as an
--                argument, as for keybinds.json. Wallpaper.Outputs has what is made for each output;
--                Outputs.Counts and Outputs.Lifetime count it.
--   Layer        src/compositor/src/layer.c, with how many listeners and structs there are for each
--                surface. Layer.History has the events, Layer.Empties their end.
--   Xwayland     src/compositor/src/xwayland.c, with the scene nodes and listeners of each window.
--                Xwayland.History, Local and Listeners are about events, Xwayland.Focus about the
--                keyboard.
--   Main         src/compositor/src/main.c: handle_new_output, and zen_compositor_create and
--                zen_compositor_destroy as steps that call the inits and destroys of the parts above.
--                Main.Steps is about a run of steps, Main.Calm about what the inits leave of the
--                windows and the lock screen, Main.Startup about the start, Main.Running about the
--                event loop, Main.Unlocking about the way out of the lock screen, Main.Overlay about
--                the test overlay.
--   Session      src/session/src/session.c: the login, the logind session and main. A PAM stack is a
--                Dialog, which may converse as often as it likes; the input is a list of bytes.
--                Session.Lines has the lines of stdin, Session.Conversation, Held, Terminal, Login,
--                Password and Logind the proofs.
--   Models       src/common/include/zen/models.h and src/common/src/models.c, over a heap where a second
--                free is a fault. Models.Structs has the structs, Models.Init and Models.Cleanup the
--                functions, Models.Live, Owned and Frees what a cleanup frees.
--   ErrorNames   src/common/src/dbus-errors.c: the two tables.
--   Base         lists with the native numbers, signed integers, intrusive lists (Base.Links), and
--                loops over a text (Base.Scan, Base.Texts).
--   Tests        the theorems at concrete states, and a run of the parser.
--
-- Bounds and fuel. Keysyms, modifiers and codes are natural numbers that the code only compares and
-- joins bit by bit; the password's bytes are taken modulo 256. Cursor coordinates are in 1/256 of a
-- pixel, the precision of the Wayland protocol, in place of doubles; the floats of the models' structs
-- are fractions. A node's coordinates do not wrap
-- around. A loop of the parser gets one round more of fuel than there are characters left, and each round
-- reads at least one.
--
-- Not modelled: logging; the scale and the crop of the wallpaper, which are doubles; the failure of
-- sd_bus_reply_method_return; the failure of fork in a key binding, which is only logged; what the
-- overlay's picture looks like; guards against a NULL compositor; frames, the socket and
-- the boot signal of main.c, which change no state; where the scene is stacked. zen_session_oobe_complete
-- only looks for a file. The shell, the daemons, the installer, the first-run setup and the bus helpers
-- are stubs. wlroots, libwayland, xkbcommon, Cairo, PAM, systemd's bus and the C library are not under
-- this repository, and stand as arguments.
pub mod Base
pub mod Compositor
pub mod Windows
pub mod Lock
pub mod Session
pub mod Models
pub mod ErrorNames
pub mod Keybinds
pub mod Input
pub mod Layer
pub mod Xwayland
pub mod Main
pub mod CairoBuffer
pub mod Dbus
pub mod Wallpaper
mod Tests
