-- ===== src/Cuda/Hash/Swaps.antt =====
-- The shuffle of the coordinates only rearranges them.
use mathlib.Core.List.{Perm}
use mathlib.Core.List.Perm as Perm
use native.Mathlib.Nat.{mod-lt}
use cuda_open_mp.Common.{
  ℕ, zero, suc, ◌+◌, ◌*◌, ◌%◌, ◌<◌, ◌≡◌, refl, sym, ◌∙◌, subst, some, List, [], ◌∷◌, arith, length,
  length-set, get_elem?, set, drop_at,
}
use cuda_open_mp.Cuda.Hash.{m1, u64, swap_at, shuffle}

first_swap : (xs : List ℕ) (j x y : ℕ) → get_elem? xs j ≡ some y → Perm (x ∷ xs) (y ∷ set xs j x)
first_swap [] j x y e = cc
first_swap (z ∷ zs) zero x y e =
    let same : z ≡ y = cc in subst (λ q. Perm (x ∷ z ∷ zs) (q ∷ x ∷ zs)) same (Perm.swap z x zs)
first_swap (z ∷ zs) (suc j) x y e =
    Perm.trans (Perm.swap z x zs)
      (Perm.trans (Perm.cons z (first_swap zs j x y e)) (Perm.swap y z (set zs j x)))

pub set-set-Perm :
    (xs : List ℕ) (i j x y : ℕ)
    → get_elem? xs i ≡ some x
    → get_elem? xs j ≡ some y
    → Perm xs (set (set xs i y) j x)
set-set-Perm [] i j x y e e' = cc
set-set-Perm (z ∷ zs) zero zero x y e e' =
    let same : z ≡ x = cc in subst (λ q. Perm (z ∷ zs) (q ∷ zs)) same (Perm.refl (z ∷ zs))
set-set-Perm (z ∷ zs) zero (suc j) x y e e' =
    let same : z ≡ x = cc in
    subst (λ q. Perm (q ∷ zs) (y ∷ set zs j x)) (sym same) (first_swap zs j x y e')
set-set-Perm (z ∷ zs) (suc i) zero x y e e' =
    let same : z ≡ y = cc in
    subst (λ q. Perm (q ∷ zs) (x ∷ set zs i y)) (sym same) (first_swap zs i y x e)
set-set-Perm (z ∷ zs) (suc i) (suc j) x y e e' = Perm.cons z (set-set-Perm zs i j x y e e')

swap_at-Perm :
    (i j : ℕ) (coords : List ℕ)
    → i < length coords
    → j < length coords
    → (r : List ℕ) × (swap_at i j coords ≡ some r) × (length r ≡ length coords) × Perm coords r
unfolding swap_at
swap_at-Perm i j coords hi hj =
    let (x, ex, _) = drop_at coords i hi in
    let (y, ey, _) = drop_at coords j hj in
    (
      set (set coords i y) j x,
      rw (ex, ey) refl,
      length-set (set coords i y) j x ∙ length-set coords i y,
      set-set-Perm coords i j x y ex ey,
    )

-- The shuffle stays in range, and what it leaves is a permutation of the coordinates.
pub shuffle-Perm :
    (k s : ℕ) (coords : List ℕ)
    → k < length coords
    → (r : List ℕ) × (shuffle k s coords ≡ some r) × (length r ≡ length coords) × Perm coords r
unfolding shuffle
shuffle-Perm zero s coords h = (coords, refl, refl, Perm.refl coords)
shuffle-Perm (suc k) s coords h =
    let s' = u64 (s * m1 + 1) in
    let j : s' % (suc k + 1) < suc k + 1 = mod-lt s' (omega arith) in
    let (c, e, l, p) = swap_at-Perm (suc k) (s' % (suc k + 1)) coords h (omega (arith, j)) in
    let (r, e', l', p') = shuffle-Perm k s' c (omega (arith, l)) in
    (r, rw (e) e', l' ∙ l, Perm.trans p p')
