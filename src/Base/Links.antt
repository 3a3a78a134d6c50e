-- ===== src/Base/Links.antt =====
-- Intrusive lists (`struct wl_list`): a list of structs, each known by its address. An element is
-- unlinked by its address, wherever it stands.
use zen_os.Base.Tests.{◌==◌, if◌then◌else◌, Bool-cases}
use Prim.Native.Nat.{ℕ}
use mathlib.Core.Path.{◌≡◌, refl, ap}
use mathlib.Core.Logic.{inl, inr}
use mathlib.Core.Bool.{Bool, true, false}
use mathlib.Core.List.{List, [], ◌∷◌, ◌++◌}
use mathlib.Core.Option.{Option, none, some}
use native.Mathlib.Omega.{arith}

module _ {A : Type 0} (address : A → ℕ) where
  unfoldable pub has : ℕ → List A → Bool
  has t [] = false
  has t (x ∷ xs) = if t == address x then true else has t xs

  pub find : ℕ → List A → Option A
  find t [] = none
  find t (x ∷ xs) = if t == address x then some x else find t xs

  -- wl_list_remove
  unfoldable pub unlink : ℕ → List A → List A
  unlink t [] = []
  unlink t (x ∷ xs) = if t == address x then xs else x ∷ unlink t xs

  push_found : Option A → List A → List A
  push_found none xs = xs
  push_found (some x) xs = x ∷ xs

  -- wl_list_remove, then wl_list_insert behind the head.
  unfoldable pub to_front : ℕ → List A → List A
  unfolding find push_found unlink
  to_front t xs = push_found (find t xs) (unlink t xs)

  abbrev pub Distinct : List A → Type 0
  Distinct [] = Unit {0}
  Distinct (x ∷ xs) = (has (address x) xs ≡ false) × Distinct xs

  pub has-unlink :
      (u t : ℕ) (xs : List A)
      → Distinct xs
      → has u (unlink t xs) ≡ (if u == t then false else has u xs)
  unfolding has unlink
  has-unlink u t [] d = ground arith
  has-unlink u t (x ∷ xs) d = ground (arith, has-unlink u t xs d.1)

  pub unlink-Distinct : (t : ℕ) (xs : List A) → Distinct xs → Distinct (unlink t xs)
  unfolding has unlink
  unlink-Distinct t [] d = tt
  unlink-Distinct t (x ∷ xs) d =
      ground (arith, unlink-Distinct t xs d.1, has-unlink (address x) t xs d.1)

  pub find_hit :
      (t : ℕ) (xs : List A) → has t xs ≡ true → (x : A) × (find t xs ≡ some x) × (address x ≡ t)
  unfolding has find
  find_hit t [] h = absurd (cc)
  find_hit t (x ∷ xs) h = elim (Bool-cases (t == address x)) [
    | inl e ↦ (x, ground arith, ground arith)
    | inr e ↦ let (y, f, k) = find_hit t xs (ground arith) in (y, ground arith, k)
  ]

  pub to_front_lem :
      (t : ℕ) (xs : List A)
      → has t xs ≡ true
      → (x : A) × (to_front t xs ≡ x ∷ unlink t xs) × (address x ≡ t)
  unfolding to_front
  to_front_lem t xs h = let (x, f, k) = find_hit t xs h in (x, rw (f, to_front), k)

  -- The first element of an address, with what stands before and behind it.
  Splits : ℕ → List A → Type 0
  Splits t xs =
      (before : List A) × (x : A) × (after : List A) × (xs ≡ before ++ x ∷ after)
      × (address x ≡ t)
      × (has t before ≡ false)
      × (find t xs ≡ some x)
      × (unlink t xs ≡ before ++ after)

  splits : (t : ℕ) (xs : List A) → has t xs ≡ true → Splits t xs
  unfolding has find unlink Splits
  splits t [] h = absurd (cc)
  splits t (x ∷ xs) h = elim (Bool-cases (t == address x)) [
    | inl e ↦ ([], x, xs, refl, ground arith, refl, ground arith, ground arith)
    | inr e ↦
        let (before, y, after, s, k, n, f, u) = splits t xs (ground arith) in
        (
          x ∷ before,
          y,
          after,
          ap (λ ys. x ∷ ys) s,
          k,
          ground arith,
          ground arith,
          ground (arith, u),
        )
  ]

  -- It goes to the front, and the others keep their order.
  pub to_front_splits :
      (t : ℕ) (xs : List A)
      → has t xs ≡ true
      → (before : List A) × (x : A) × (after : List A) × (xs ≡ before ++ x ∷ after)
        × (address x ≡ t)
        × (has t before ≡ false)
        × (to_front t xs ≡ x ∷ (before ++ after))
  unfolding to_front push_found Splits
  to_front_splits t xs h =
      let (before, x, after, s, k, n, f, u) = splits t xs h in
      (before, x, after, s, k, n, rw (f, to_front) (ap (λ ys. x ∷ ys) u))

  pub has-to_front :
      (u t : ℕ) (xs : List A) → Distinct xs → has t xs ≡ true → has u (to_front t xs) ≡ has u xs
  unfolding has
  has-to_front u t xs d h =
      let (x, f, k) = to_front_lem t xs h in rw (f, has) (ground (arith, has-unlink u t xs d, k))

  pub to_front-Distinct :
      (t : ℕ) (xs : List A) → Distinct xs → has t xs ≡ true → Distinct (to_front t xs)
  to_front-Distinct t xs d h =
      let (x, f, k) = to_front_lem t xs h in
      rw f (ground (arith, has-unlink (address x) t xs d, k), unlink-Distinct t xs d)
