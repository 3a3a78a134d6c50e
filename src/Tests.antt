-- ===== src/Tests.antt =====
-- The theorems at concrete states, and runs of the code.
mod Fixtures
mod CairoBuffer
mod Dbus
mod Input
mod Keys
mod Layers
mod Lock
mod Main
mod Models
mod Picture
mod Session
mod Wallpaper
mod Windows
