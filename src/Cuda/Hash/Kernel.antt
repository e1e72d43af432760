-- ===== src/Cuda/Hash/Kernel.antt =====
-- k_hash_kernel and cpu_k_hash as a whole.
use mathlib.Core.List.{Perm}
use cuda_open_mp.Common.{
  ℕ, zero, suc, ◌+◌, ◌-◌, ◌*◌, ◌^◌, ◌≤◌, ◌<◌, ◌≡◌, ◌⊎◌, inl, inr, refl, ap, ◌∙◌, subst, some, List,
  arith, lt→ltb, length, length-set, get_or, get_elem?-eq-get_or, get_or-set_self, get_or-set_ne,
  set, upto, ℕ_discrete,
}
use cuda_open_mp.Cuda.Threads.{scaled_le}
use cuda_open_mp.Cuda.Hash.{num_coords, store, cpu_k_hash, put_results, k_hash, k_hash_kernel}
use cuda_open_mp.Cuda.Hash.Mask.{pow_positive}
use cuda_open_mp.Cuda.Hash.Swaps.{shuffle-Perm}
use cuda_open_mp.Cuda.Hash.Slices.{
  Slice, Kept, Kept-set, Kept-trans, store-set, Slice-set, fill-Slice, mix-Slice,
}

-- The places of the results of thread `tid`.
abbrev pub Placed : ℕ → ℕ → ℕ → List ℕ → List ℕ → List ℕ → Type 0
Placed i k tid coords results r =
    ((m : ℕ) → i ≤ m → m < i + k → get_or r (tid * 78 + m) 0 ≡ get_or coords m 0)
    × ((m : ℕ) → (m < tid * 78 + i) ⊎ (tid * 78 + (i + k) ≤ m) → get_or r m 0 ≡ get_or results m 0)

put_results-Placed :
    (size k i tid : ℕ) (coords results : List ℕ)
    → i + k ≤ length coords
    → tid * 78 + (i + k) ≤ length results
    → (r : List ℕ) × (put_results size k i tid coords results ≡ some r)
      × Placed i k tid coords results r
unfolding put_results
put_results-Placed size zero i tid coords results h h' =
    (results, refl, ((λ m ge lt. absurd (omega arith)), λ m out. refl))
put_results-Placed size (suc k) i tid coords results h h' =
    let x = get_or coords i 0 in
    let at = tid * 78 + i in
    let (r, e, (inside, outside)) =
      put_results-Placed size k (suc i) tid coords (set results at x) (omega arith)
        (omega (arith, length-set results at x)) in
    (
      r,
      rw (get_elem?-eq-get_or coords i 0 (omega arith), store-set results at x (omega arith)) e,
      (
        (λ m ge lt. elim (ℕ_discrete i m) [
          | yes same ↦
              outside (tid * 78 + m) (inl (omega (arith, same)))
              ∙ subst (λ q. get_or (set results at x) (tid * 78 + q) 0 ≡ get_or coords q 0) same
                  (get_or-set_self results at x 0 (omega arith))
          | no ne ↦ inside m (ground (arith, ne)) (omega arith)
        ]),
        λ m out.
            outside m (earlier m out)
            ∙ get_or-set_ne results at m x 0 (λ e. absurd (apart m out e)),
      ),
    )
  where
    earlier :
        (m : ℕ)
        → (m < tid * 78 + i) ⊎ (tid * 78 + (i + suc k) ≤ m)
        → (m < tid * 78 + suc i) ⊎ (tid * 78 + (suc i + k) ≤ m)
    earlier m (inl low) = inl (omega arith)
    earlier m (inr high) = inr (omega arith)

    apart : (m : ℕ) → (m < tid * 78 + i) ⊎ (tid * 78 + (i + suc k) ≤ m) → tid * 78 + i ≡ m → ⊥
    apart m (inl low) e = omega arith
    apart m (inr high) e = omega arith

first :
    (size base seed : ℕ) (big mem : List ℕ)
    → 0 < size
    → length mem ≡ size
    → base + size ≤ length big
    → (store big base seed ≡ some (set big (base + 0) seed))
      × (store mem 0 seed ≡ some (set mem 0 seed))
      × Slice size base 1 (set big (base + 0) seed) (set mem 0 seed)
first size base seed big mem pos l fits =
    let at : base ≡ base + 0 = omega arith in
    (
      store-set big base seed (omega arith) ∙ ap (λ q. some (set big q seed)) at,
      store-set mem 0 seed (omega arith),
      Slice-set size base 0 1 0 seed big mem pos (λ m lt ne. absurd (ground (arith, ne)))
          (l, fits, λ i lt. absurd (omega arith)),
    )

module _ (p size rounds : ℕ) (power : size ≡ 2 ^ p) where
  -- A thread of k_hash_kernel stays in its part of the memory and in its 78 results, which it
  -- leaves as the first 78 coordinates that cpu_k_hash computes for its seed, whatever the two
  -- memories held, if MEM_SIZE is a power of 2 and the arrays have room for `n` threads.
  pub k_hash_kernel-cpu :
      (n tid : ℕ) (seeds big results mem : List ℕ)
      → tid < n
      → length seeds ≡ n
      → n * size ≤ length big
      → n * 78 ≤ length results
      → length mem ≡ size
      → (coords : List ℕ) × (big' : List ℕ) × (results' : List ℕ) × (cpu_k_hash size rounds
            (get_or seeds tid 0)
            mem
          ≡ some coords)
        × (k_hash_kernel size rounds n tid seeds big results ≡ some (big', results'))
        × Placed 0 78 tid coords results results'
        × Kept size (tid * size) big big'
  unfolding cpu_k_hash k_hash k_hash_kernel
  k_hash_kernel-cpu n tid seeds big results mem lt ls room places lm =
      let seed = get_or seeds tid 0 in
      let base = tid * size in
      let pos : 0 < size = omega (arith, power, pow_positive p) in
      let fits : base + size ≤ length big = ground (arith, scaled_le (suc tid) n size lt) in
      let (eb, em, s) = first size base seed big mem pos lm fits in
      let (big1, mem1, eg, ec, s1, kept1) =
        fill-Slice size base (size - 1) 1 (set big (base + 0) seed) (set mem 0 seed) (omega arith)
          (omega arith) s in
      let (state, big2, eg', ec', kept2) = mix-Slice size base p power rounds 0 seed big1 mem1 s1 in
      let (coords, es, lc, perm) =
        shuffle-Perm (num_coords - 1) state (upto num_coords 0) (omega arith) in
      let (r, er, placed) =
        put_results-Placed size 78 0 tid coords results (omega (arith, lc))
          (omega (arith, scaled_le (suc tid) n 78 lt)) in
      (
        coords,
        big2,
        r,
        rw (em, ec, ec') es,
        rw (lt→ltb tid n lt, get_elem?-eq-get_or seeds tid 0 (omega arith), eb, eg, eg', es, er)
            refl,
        placed,
        Kept-trans size base big (set big (base + 0) seed) big2 (Kept-set size base big 0 seed pos)
            (Kept-trans size base (set big (base + 0) seed) big1 big2 kept1 kept2),
      )

  -- cpu_k_hash ends in range, and the coordinates that it shuffles are those from 0 to 99, each once.
  pub cpu_k_hash-Perm :
      (seed : ℕ) (mem : List ℕ)
      → length mem ≡ size
      → (coords : List ℕ) × (cpu_k_hash size rounds seed mem ≡ some coords)
        × Perm (upto num_coords 0) coords
  unfolding cpu_k_hash
  cpu_k_hash-Perm seed mem lm =
      let pos : 0 < size = omega (arith, power, pow_positive p) in
      let (eb, em, s) = first size 0 seed mem mem pos lm (omega arith) in
      let (big1, mem1, eg, ec, s1, kept1) =
        fill-Slice size 0 (size - 1) 1 (set mem (0 + 0) seed) (set mem 0 seed) (omega arith)
          (omega arith) s in
      let (state, big2, eg', ec', kept2) = mix-Slice size 0 p power rounds 0 seed big1 mem1 s1 in
      let (coords, es, lc, perm) =
        shuffle-Perm (num_coords - 1) state (upto num_coords 0) (omega arith) in
      (coords, rw (em, ec, ec') es, perm)
