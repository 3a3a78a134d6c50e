-- ===== src/Models.antt =====
-- src/common/src/models.c: the heap that the shared models own strings of. A pointer is an address, 0
-- for NULL; a free of what is not live, or a read of an array that is not, is a fault.
pub mod Structs
pub mod Cleanup
pub mod Live
pub mod Owned
pub mod Frees
pub mod Init
use zen_os.Base.{
  ℕ, zero, suc, Bool, true, false, not, ◌&&◌, Option, none, some, List, [], ◌∷◌, ◌==◌,
  if◌then◌else◌, get_elem?,
}
use zen_os.Base.Int.{ℤ, Ratio, pos, pos_part}
use zen_os.Base.Scan.{Scan, done, fault, ◌>>=◌}

abbrev pub Pointer : Type 0
Pointer = ℕ

-- A float, as a fraction.
abbrev pub whole : ℕ → Ratio
whole n = record { numerator = pos n; denominator = 1 }

-- Which blocks are live, and what an array of pointers holds.
pub record Heap : Type 0 where
  pub live : Pointer → Bool
  pub pointers : Pointer → List Pointer

-- free of a pointer that is not NULL
unfoldable pub give_back : Pointer → Heap → Scan Heap
give_back p h = if h.live p then done (record h { live = λ q. h.live q && not (q == p) }) else fault

unfoldable pub free : Pointer → Heap → Scan Heap
unfolding give_back
free p h = if p == 0 then done h else give_back p h

-- free(arr[i])
unfoldable pub free_element : Option Pointer → Heap → Scan Heap
unfolding free
free_element none h = fault
free_element (some p) h = free p h

-- The loop of free_string_array, with the rounds that are left and the index.
unfoldable pub free_elements : Pointer → ℕ → ℕ → Heap → Scan Heap
unfolding free_element
free_elements arr zero i h = done h
free_elements arr (suc left) i h =
    if h.live arr
    then free_element (get_elem? (h.pointers arr) i) h >>= free_elements arr left (suc i)
    else fault

unfoldable pub free_string_array : Pointer → ℤ → Heap → Scan Heap
unfolding free_elements free
free_string_array arr count h =
    if arr == 0 then done h else free_elements arr (pos_part count) 0 h >>= free arr
