-- ===== src/Sort.antt =====
-- OpenMP/poe_sort.c, OpenMP/oe_sort.c and OpenMP/b_sort.c: odd-even transposition sort in parallel and
-- in sequence, and bubble sort. The values are `n - i`, so no `int` is negative.
pub mod Pairs
pub mod Orders
pub mod Rounds
pub mod Overrun
mod Tests
use cuda_open_mp.Common.{
  ℕ, zero, suc, ◌+◌, ◌-◌, Bool, true, false, Option, none, some, List, [], ◌∷◌, ltb, ◌==◌,
  if◌then◌else◌, length, get_or, get_elem?, set,
}

-- The array of `main`, `x[i] = n - i`: `k` cells from index `i` on.
abbrev pub descending : ℕ → ℕ → List ℕ
descending zero n = []
descending (suc k) n = n ∷ descending k (n - 1)

-- `if (x[i] > x[i+1]) { swap; ++changes; }` with both indices in the array.
unfoldable pub exchange : ℕ → List ℕ → List ℕ
exchange i x =
    let a = get_or x i 0 in
    let b = get_or x (i + 1) 0 in if ltb b a then set (set x i b) (i + 1) a else x

unfoldable pub exchanges : ℕ → List ℕ → ℕ
exchanges i x = if ltb (get_or x (i + 1) 0) (get_or x i 0) then 1 else 0

-- `for (i = start; i < n - 1; i = i + 2)` of poe_sort.c, with the sum of `changes`. The fuel is the
-- length of the array, which the index passes before it runs out.
unfoldable pub phase : ℕ → ℕ → List ℕ → ℕ → List ℕ × ℕ
phase zero i x changes = (x, changes)
phase (suc f) i x changes =
    let more = phase f (i + 2) (exchange i x) (changes + exchanges i x) in
    if ltb i (length x - 1) then more else (x, changes)

-- The parallel region: `changes = 0`, the loop from 0, the loop from 1.
unfoldable pub region : List ℕ → List ℕ × ℕ
region x = let (y, changes) = phase (length x) 0 x 0 in phase (length x) 1 y changes

-- `while (changes)`: `none` if the fuel runs out.
unfoldable pub poe_sort : ℕ → List ℕ → Option (List ℕ)
poe_sort zero x = none
poe_sort (suc f) x =
    let (y, changes) = region x in let more = poe_sort f y in if changes == 0 then some y else more

-- One step of the loops of b_sort.c and oe_sort.c, which do not stop before the last index. `none` is
-- a read behind the end of the array.
unfoldable pub checked_exchange : ℕ → List ℕ → Option (List ℕ × ℕ)
unfolding exchange exchanges
checked_exchange i x = elim (get_elem? x (i + 1)) [
  | none ↦ none
  | some b ↦ some (exchange i x, exchanges i x)
]

-- `for (i = i; i < n; i += by)` with those steps.
unfoldable pub sweep : ℕ → ℕ → ℕ → ℕ → List ℕ → ℕ → Option (List ℕ × ℕ)
sweep zero by i n x changes = some (x, changes)
sweep (suc f) by i n x changes =
    let more : Option (List ℕ × ℕ) = elim (checked_exchange i x) [
      | none ↦ none
      | some (y, c) ↦ sweep f by (i + by) n y (changes + c)
    ] in
    if ltb i n then more else some (x, changes)

-- `while (changes)` of b_sort.c: each sweep goes over one index less. The first component tells a run
-- that ended from one whose fuel ran out.
unfoldable pub b_sort : ℕ → ℕ → List ℕ → Option (Bool × List ℕ)
b_sort zero n x = some (false, x)
b_sort (suc f) n x = elim (sweep (suc n) 1 0 n x 0) [
  | none ↦ none
  | some (y, changes) ↦
      let more = b_sort f (n - 1) y in if changes == 0 then some (true, y) else more
]

-- `while (changes)` of oe_sort.c: the sweeps start at 0 and 1 in turn.
unfoldable pub oe_sort : ℕ → ℕ → ℕ → List ℕ → Option (Bool × List ℕ)
oe_sort zero even n x = some (false, x)
oe_sort (suc f) even n x = elim (sweep (suc n) 2 even n x 0) [
  | none ↦ none
  | some (y, changes) ↦
      let more = oe_sort f (1 - even) n y in if changes == 0 then some (true, y) else more
]
