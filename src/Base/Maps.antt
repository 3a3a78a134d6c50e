-- ===== src/Base/Maps.antt =====
-- Maps from addresses, as functions.
use Prim.Native.Nat.{ℕ}
use zen_os.Base.Tests.{◌==◌, if◌then◌else◌}

-- A map with another value at an address.
abbrev pub at {ℓ} : {A : Type ℓ} → ℕ → A → (ℕ → A) → ℕ → A
at a x f b = if b == a then x else f b
