-- ===== src/Models/Owned.antt =====
-- src/common/src/models.c: what a struct owns, as blocks and as pointers.
use zen_os.Base.{
  ℕ, zero, suc, ◌+◌, ◌≤◌, true, false, some, List, [], ◌∷◌, ◌++◌, ◌≡◌, ◌≢◌, ◌<◌, refl, subst, sym,
  ap, ◌∙◌, ◌==◌, if◌then◌else◌, length, get_elem?, take, drop, inl, inr, Bool-cases, arith,
}
use zen_os.Base.Int.{ℤ, pos_part}
use zen_os.Base.Scan.{Scan, done, fault, no_fuel, ◌>>=◌}
use zen_os.Models.Cleanup.{Block, string, strings}
use zen_os.Models.{Pointer, Heap, give_back, free, free_elements, free_string_array}
use zen_os.Models.Live.{
  has, Live, Live-append, free_all, Without, free_all-Ends, without_one, Live-without_one,
}

-- What a struct owns, as pointers that are not NULL; an array stands behind its strings.
abbrev nonnull : List Pointer → List Pointer
nonnull [] = []
nonnull (p ∷ ps) = if p == 0 then nonnull ps else p ∷ nonnull ps

abbrev pub owned : Block → (Pointer → List Pointer) → List Pointer
owned (string p) m = if p == 0 then [] else p ∷ []
owned (strings arr count) m =
    if arr == 0 then [] else nonnull (take (pos_part count) (m arr)) ++ arr ∷ []

-- Arrays are as long as their counts say.
abbrev pub Long : Block → (Pointer → List Pointer) → Type 0
Long (string p) m = Unit {0}
Long (strings arr count) m = arr ≢ 0 → pos_part count ≤ length (m arr)

unfoldable pub free_block : Block → Heap → Scan Heap
unfolding free free_string_array
free_block (string p) h = free p h
free_block (strings arr count) h = free_string_array arr count h

drop-next :
    (xs : List Pointer) (i : ℕ)
    → i < length xs
    → (p : Pointer) × (get_elem? xs i ≡ some p) × (drop i xs ≡ p ∷ drop (suc i) xs)
drop-next [] i h = absurd (omega (arith, h))
drop-next (x ∷ xs) zero h = (x, refl, refl)
drop-next (x ∷ xs) (suc i) h = drop-next xs i (omega (arith, h))

bind_assoc :
    (r : Scan Heap) (f g k : Heap → Scan Heap)
    → ((h : Heap) → k h ≡ (f h >>= g))
    → (r >>= k) ≡ (r >>= f >>= g)
bind_assoc (done h) f g k e = e h
bind_assoc fault f g k e = refl
bind_assoc no_fuel f g k e = refl

bind_same :
    (r : Scan Heap) (f g : Heap → Scan Heap) → ((h : Heap) → f h ≡ g h) → (r >>= f) ≡ (r >>= g)
bind_same (done h) f g e = e h
bind_same fault f g e = refl
bind_same no_fuel f g e = refl

bind_done : (r : Scan Heap) → (r >>= done) ≡ r
bind_done (done h) = refl
bind_done fault = refl
bind_done no_fuel = refl

free_all-append :
    (xs ys : List Pointer) (h : Heap) → free_all (xs ++ ys) h ≡ (free_all xs h >>= free_all ys)
unfolding free_all
free_all-append [] ys h = refl
free_all-append (x ∷ xs) ys h =
    bind_assoc (give_back x h) (free_all xs) (free_all ys) _ (λ g. free_all-append xs ys g)

without_one-done :
    (p : Pointer) (h : Heap) → h.live p ≡ true → give_back p h ≡ done (without_one p h)
unfolding give_back without_one
without_one-done p h a = rw (a) refl

free_string : (p : Pointer) (h : Heap) → free p h ≡ free_all (owned (string p) h.pointers) h
unfolding free free_all
free_string p h = elim (Bool-cases (p == 0)) [
  | inl e ↦ rw (e) refl
  | inr e ↦ rw (e) (sym (bind_done (give_back p h)))
]

module _ (arr : Pointer) (xs : List Pointer) where
  -- A round, for the element p, with what the others make.
  element :
      (left i : ℕ) (p : Pointer) (h : Heap)
      → ((g : Heap)
          → g.pointers arr ≡ xs
          → g.live arr ≡ true
          → suc i + left ≤ length xs
          → has arr (nonnull (take left (drop (suc i) xs))) ≡ false
          → Live (nonnull (take left (drop (suc i) xs))) g
          → free_elements arr left (suc i) g ≡ free_all (nonnull (take left (drop (suc i) xs))) g)
      → h.pointers arr ≡ xs
      → h.live arr ≡ true
      → suc i + left ≤ length xs
      → has arr (nonnull (p ∷ take left (drop (suc i) xs))) ≡ false
      → Live (nonnull (p ∷ take left (drop (suc i) xs))) h
      → (free p h >>= free_elements arr left (suc i))
        ≡ free_all (nonnull (p ∷ take left (drop (suc i) xs))) h
  unfolding free has free_all without_one
  element left i p h others e a b n l = elim (Bool-cases (p == 0)) [
    | inl z ↦ rw (z) (others h e a b (rw (z) at n) (rw (z) at l))
    | inr z ↦
        let m = rw (z) at n in
        let (live, once, ls) = rw (z) at l in
        rw (z, without_one-done p h live)
          (others (without_one p h) e (ground arith) b (ground arith)
            (Live-without_one p (nonnull (take left (drop (suc i) xs))) h once ls))
  ]

  free_elements-all :
      (left i : ℕ) (h : Heap)
      → h.pointers arr ≡ xs
      → h.live arr ≡ true
      → i + left ≤ length xs
      → has arr (nonnull (take left (drop i xs))) ≡ false
      → Live (nonnull (take left (drop i xs))) h
      → free_elements arr left i h ≡ free_all (nonnull (take left (drop i xs))) h
  unfolding free_elements free_all
  free_elements-all zero i h e a b n l = refl
  free_elements-all (suc left) i h e a b n l =
      let (p, g, d) = drop-next xs i (omega (arith, b)) in
      rw (a, e, g, d)
        (element left i p h (λ h'. free_elements-all left (suc i) h') e a (omega (arith, b))
          (subst (λ ys. has arr (nonnull (take (suc left) ys)) ≡ false) d n)
          (subst (λ ys. Live (nonnull (take (suc left) ys)) h) d l))

free_strings :
    (arr : Pointer) (count : ℤ) (h : Heap)
    → Long (strings arr count) h.pointers
    → Live (owned (strings arr count) h.pointers) h
    → free_string_array arr count h ≡ free_all (owned (strings arr count) h.pointers) h
unfolding free_string_array free has free_all
free_strings arr count h long l = elim (Bool-cases (arr == 0)) [
  | inl z ↦ rw (z) refl
  | inr z ↦
      let ps = nonnull (take (pos_part count) (h.pointers arr)) in
      let s = Live-append ps (arr ∷ []) h (rw (z) at l) in
      rw (z) (
        ap (λ r. r >>= free arr)
          (free_elements-all arr (h.pointers arr) (pos_part count) 0 h refl s.back.0
            (omega (arith, long (λ e. absurd (ground arith)))) (s.apart arr (ground arith)) s.front)
        ∙ sym (
            free_all-append ps (arr ∷ []) h
            ∙ bind_same (free_all ps h) (free_all (arr ∷ [])) (free arr)
                (λ g. rw (z) (bind_done (give_back arr g)))))
]

free_block-all :
    (b : Block) (h : Heap)
    → Long b h.pointers
    → Live (owned b h.pointers) h
    → free_block b h ≡ free_all (owned b h.pointers) h
unfolding free_block free
free_block-all (string p) h long l = free_string p h
free_block-all (strings arr count) h long l = free_strings arr count h long l

-- The frees of a cleanup, one after the other.
unfoldable pub free_blocks : List Block → Scan Heap → Scan Heap
unfolding free_block
free_blocks [] r = r
free_blocks (b ∷ bs) r = free_blocks bs (r >>= free_block b)

abbrev pub all_owned : List Block → (Pointer → List Pointer) → List Pointer
all_owned [] m = []
all_owned (b ∷ bs) m = owned b m ++ all_owned bs m

abbrev pub AllLong : List Block → (Pointer → List Pointer) → Type 0
AllLong [] m = Unit {0}
AllLong (b ∷ bs) m = Long b m × AllLong bs m

Live-Without :
    (xs ys : List Pointer) (h g : Heap)
    → Without xs h g
    → ((q : Pointer) → has q ys ≡ true → has q xs ≡ false)
    → Live ys h
    → Live ys g
unfolding has
Live-Without xs [] h g w apart l = tt
Live-Without xs (y ∷ ys) h g w apart (a, b, l) = (
  w.freed y ∙ rw (a, apart y (ground arith)) refl,
  b,
  Live-Without xs ys h g w (λ q e. apart q (ground arith)) l,
)

pub free_blocks-all :
    (bs : List Block) (h : Heap)
    → AllLong bs h.pointers
    → Live (all_owned bs h.pointers) h
    → free_blocks bs (done h) ≡ free_all (all_owned bs h.pointers) h
unfolding free_all free_blocks
free_blocks-all [] h long l = refl
free_blocks-all (b ∷ bs) h (long, longs) l =
    let xs = owned b h.pointers in
    let ys = all_owned bs h.pointers in
    let s = Live-append xs ys h l in
    let e = free_all-Ends xs h s.front in
    let k = e.without.pointers_kept in
    ap (free_blocks bs) (free_block-all b h long s.front ∙ e.returns)
    ∙ free_blocks-all bs e.after (rw (k) longs)
        (rw (k) (Live-Without xs ys h e.after e.without s.apart s.back))
    ∙ rw (k) (sym (free_all-append xs ys h ∙ ap (λ r. r >>= free_all ys) e.returns))
