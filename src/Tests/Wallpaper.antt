-- ===== src/Tests/Wallpaper.antt =====
-- wallpaper.c on a small theme.
use zen_os.Base.{Bool, true, false, some, none, [], ◌∷◌, Bytes, ◌≡◌, refl, length}
use zen_os.Base.Int.{pos}
use zen_os.Base.Scan.{done}
use zen_os.Wallpaper.{find_path, parse_wallpaper_path, path_key}
use zen_os.Wallpaper.Theme.{Returns, parse_wallpaper_path-Returns}
use zen_os.Wallpaper.Path.{theme_text, find_path_lem}
use zen_os.Wallpaper.Outputs.{wallpaper_init}
use zen_os.Wallpaper.Outputs.Lifetime.{
  Arrival, Yields, LeavesBuffers, nothing_yet, wallpaper_init-LeavesBuffers,
}
use zen_os.Tests.Fixtures.{plenty}

-- `{`, the key, ` : "/a"` and `}`
abbrev small_theme : Bytes
small_theme = theme_text (b'{' ∷ []) (b' ' ∷ []) (b' ' ∷ []) (b'/' ∷ b'a' ∷ []) (b'}' ∷ 0 ∷ [])

find_path_lem_example : find_path small_theme ≡ done (some (b'/' ∷ b'a' ∷ []))
find_path_lem_example =
    find_path_lem (b'{' ∷ []) (b' ' ∷ []) (b' ' ∷ []) (b'/' ∷ b'a' ∷ []) (b'}' ∷ 0 ∷ []) refl refl
      refl refl

-- A file that ends behind the key.
parse_wallpaper_path-Returns_example : Returns (
    parse_wallpaper_path plenty
      (some (record { seeks = true; size = pos (length path_key); contents = path_key })))
parse_wallpaper_path-Returns_example =
    parse_wallpaper_path-Returns plenty
      (some (record { seeks = true; size = pos (length path_key); contents = path_key }))

abbrev arrival : Bool → Arrival
arrival node = record {
  makes = record { struct_ = true; surface = true; context = true; buffer = true; node = node };
  output = 1;
  width = pos 16;
  height = pos 9;
}

-- Two outputs, of which the second gets no scene node.
wallpaper_init-LeavesBuffers_example :
    Yields
      (LeavesBuffers (arrival true ∷ arrival false ∷ []))
      (wallpaper_init plenty none (λ b. true) none (λ p. none) true true nothing_yet)
wallpaper_init-LeavesBuffers_example =
    wallpaper_init-LeavesBuffers plenty none (λ b. true) none (λ p. none) true true
      (arrival true ∷ arrival false ∷ [])
