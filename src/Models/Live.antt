-- ===== src/Models/Live.antt =====
-- src/common/src/models.c: which blocks are live before and after some frees.
use zen_os.Base.{
  Bool, true, false, not, ◌&&◌, ◌||◌, List, [], ◌∷◌, ◌++◌, ◌≡◌, refl, subst, ◌∙◌, ◌==◌, ==_iff,
  if◌then◌else◌, inl, inr, Bool-cases, arith,
}
use zen_os.Base.Scan.{Scan, done, ◌>>=◌}
use zen_os.Models.{Pointer, Heap, give_back}

unfoldable pub has : Pointer → List Pointer → Bool
has q [] = false
has q (p ∷ ps) = if q == p then true else has q ps

-- These pointers are live, and no two of them the same.
abbrev pub Live : List Pointer → Heap → Type 0
Live [] h = Unit {0}
Live (p ∷ ps) h = (h.live p ≡ true) × (has p ps ≡ false) × Live ps h

has-append : (q : Pointer) (xs ys : List Pointer) → has q (xs ++ ys) ≡ (has q xs || has q ys)
unfolding has
has-append q [] ys = refl
has-append q (x ∷ xs) ys = ground (arith, has-append q xs ys)

-- The two parts of what is owned.
pub record Split (xs ys : List Pointer) (h : Heap) : Type 0 where
  pub front : Live xs h
  pub back : Live ys h
  pub apart : (q : Pointer) → has q ys ≡ true → has q xs ≡ false

apart_one :
    (q x : Pointer) (xs ys : List Pointer)
    → has x (xs ++ ys) ≡ false
    → has q ys ≡ true
    → has q xs ≡ false
    → has q (x ∷ xs) ≡ false
unfolding has
apart_one q x xs ys b e f = elim (Bool-cases (q == x)) [
  | inl i ↦
      let same = (==_iff q x).0 i in
      let f = subst (λ r. has r ys ≡ true) same e in ground (arith, has-append x xs ys)
  | inr i ↦ rw (i) f
]

pub Live-append : (xs ys : List Pointer) (h : Heap) → Live (xs ++ ys) h → Split xs ys h
unfolding has
Live-append [] ys h l = record { front = tt; back = l; apart = λ q e. refl }
Live-append (x ∷ xs) ys h (a, b, l) =
    let s = Live-append xs ys h l in
    record {
      front = (a, ground (arith, has-append x xs ys), s.front);
      back = s.back;
      apart = λ q e. apart_one q x xs ys b e (s.apart q e);
    }

-- free of each of these.
unfoldable pub free_all : List Pointer → Heap → Scan Heap
unfolding give_back
free_all [] h = done h
free_all (p ∷ ps) h = give_back p h >>= free_all ps

-- A heap that is left without these blocks.
pub record Without (ps : List Pointer) (h g : Heap) : Type 0 where
  pub freed : (q : Pointer) → g.live q ≡ (h.live q && not (has q ps))
  pub pointers_kept : g.pointers ≡ h.pointers

pub record Ends (ps : List Pointer) (h : Heap) (r : Scan Heap) : Type 0 where
  pub after : Heap
  pub returns : r ≡ done after
  pub without : Without ps h after

unfoldable pub without_one : Pointer → Heap → Heap
without_one p h = record h { live = λ q. h.live q && not (q == p) }

pub Live-without_one :
    (p : Pointer) (ps : List Pointer) (h : Heap)
    → has p ps ≡ false
    → Live ps h
    → Live ps (without_one p h)
unfolding has without_one
Live-without_one p [] h n l = tt
Live-without_one p (q ∷ ps) h n (a, b, l) =
    (ground arith, b, Live-without_one p ps h (ground arith) l)

pub free_all-Ends : (ps : List Pointer) (h : Heap) → Live ps h → Ends ps h (free_all ps h)
unfolding free_all give_back has without_one
free_all-Ends [] h l = record {
  after = h;
  returns = refl;
  without = record { freed = λ q. ground arith; pointers_kept = refl };
}
free_all-Ends (p ∷ ps) h (a, b, l) =
    let e = free_all-Ends ps (without_one p h) (Live-without_one p ps h b l) in
    record {
      after = e.after;
      returns = rw (a) e.returns;
      without = record {
        freed = λ q. e.without.freed q ∙ ground arith;
        pointers_kept = e.without.pointers_kept;
      };
    }
