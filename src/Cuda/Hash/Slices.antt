-- ===== src/Cuda/Hash/Slices.antt =====
-- A thread of k_hash_kernel, on its part of the memory, against cpu_k_hash on a memory of its own.
use Prim.Native.Nat.{bit_and, bit_xor}
use native.Mathlib.Nat.{mod-lt}
use cuda_open_mp.Common.{
  ℕ, zero, suc, ◌+◌, ◌-◌, ◌*◌, ◌%◌, ◌^◌, ◌≤◌, ◌<◌, ◌≡◌, ◌≢◌, ◌⊎◌, inl, inr, refl, sym, ap, ◌∙◌,
  subst, some, List, arith, lt→ltb, length, length-set, get_or, get_elem?-eq-get_or,
  get_or-set_self, get_or-set_ne, set, ℕ_discrete,
}
use cuda_open_mp.Cuda.Hash.{m1, a1, m2, u64, store, cpu_fill, cpu_mix, gpu_fill, gpu_mix}
use cuda_open_mp.Cuda.Hash.Mask.{bit_and-mask, pow_positive}

pub store-set : (v : List ℕ) (i x : ℕ) → i < length v → store v i x ≡ some (set v i x)
unfolding store
store-set v i x h = rw (lt→ltb i (length v) h) refl

module _ (size base : ℕ) where
  -- The first `q` elements of the part are those of the memory `mem`.
  abbrev pub Slice : ℕ → List ℕ → List ℕ → Type 0
  Slice q big mem =
      (length mem ≡ size)
      × (base + size ≤ length big)
      × ((i : ℕ) → i < q → get_or big (base + i) 0 ≡ get_or mem i 0)

  -- Outside the part nothing has changed.
  abbrev pub Kept : List ℕ → List ℕ → Type 0
  Kept big big' =
      (length big' ≡ length big)
      × ((m : ℕ) → (m < base) ⊎ (base + size ≤ m) → get_or big' m 0 ≡ get_or big m 0)

  pub Kept-set : (big : List ℕ) (i x : ℕ) → i < size → Kept big (set big (base + i) x)
  Kept-set big i x h = (
    length-set big (base + i) x,
    λ m out. get_or-set_ne big (base + i) m x 0 (λ e. absurd (outside m out e)),
  )
    where
      outside : (m : ℕ) → (m < base) ⊎ (base + size ≤ m) → base + i ≡ m → ⊥
      outside m (inl low) e = omega arith
      outside m (inr high) e = omega arith

  pub Kept-trans : (x y z : List ℕ) → Kept x y → Kept y z → Kept x z
  Kept-trans x y z (l, h) (l', h') = (l' ∙ l, λ m out. h' m out ∙ h m out)

  pub Slice-set :
      (q q' i x : ℕ) (big mem : List ℕ)
      → i < size
      → ((m : ℕ) → m < q' → i ≢ m → m < q)
      → Slice q big mem
      → Slice q' (set big (base + i) x) (set mem i x)
  Slice-set q q' i x big mem h new (l, fits, same) = (
    length-set mem i x ∙ l,
    omega (arith, length-set big (base + i) x),
    λ m lt. elim (ℕ_discrete i m) [
      | yes e ↦
          subst (λ j. get_or (set big (base + i) x) (base + j) 0 ≡ get_or (set mem i x) j 0) e
            (get_or-set_self big (base + i) x 0 (omega arith)
              ∙ sym (get_or-set_self mem i x 0 (omega arith)))
      | no ne ↦
          get_or-set_ne big (base + i) (base + m) x 0 (λ e. ne (omega arith))
          ∙ same m (new m lt ne)
          ∙ sym (get_or-set_ne mem i m x 0 ne)
    ],
  )

  pub fill-Slice :
      (k i : ℕ) (big mem : List ℕ)
      → 0 < i
      → i + k ≡ size
      → Slice i big mem
      → (big' : List ℕ) × (mem' : List ℕ) × (gpu_fill size k i base big ≡ some big')
        × (cpu_fill size k i mem ≡ some mem')
        × Slice size big' mem'
        × Kept big big'
  unfolding gpu_fill cpu_fill
  fill-Slice zero i big mem pos e s =
      let at : i ≡ size = omega arith in
      (big, mem, refl, refl, subst (λ q. Slice q big mem) at s, (refl, λ m out. refl))
  fill-Slice (suc k) i big mem pos e (l, fits, same) =
      let x = get_or mem (i - 1) 0 in
      let v = u64 (x * m1 + a1) in
      let read : get_or big (base + (i - 1)) 0 ≡ x = same (i - 1) (omega arith) in
      let (big', mem', eg, ec, s, kept) =
        fill-Slice k (suc i) (set big (base + i) v) (set mem i v) (omega arith) (omega arith) (
          Slice-set i (suc i) i v big mem (omega arith) (λ m lt ne. ground (arith, ne))
            (l, fits, same)) in
      (
        big',
        mem',
        rw
            (
              get_elem?-eq-get_or big (base + (i - 1)) 0 (omega arith),
              read,
              store-set big (base + i) v (omega arith),
            )
            eg,
        rw (get_elem?-eq-get_or mem (i - 1) 0 (omega arith), store-set mem i v (omega arith)) ec,
        s,
        Kept-trans big (set big (base + i) v) big' (Kept-set big i v (omega arith)) kept,
      )

  module _ (p : ℕ) (power : size ≡ 2 ^ p) where
    mask-index : (state : ℕ) → (bit_and state (size - 1) ≡ state % size) × (state % size < size)
    mask-index state = (
      ap (λ q. bit_and state (q - 1)) power
          ∙ bit_and-mask state p
          ∙ ap (λ q. state % q) (sym power),
      mod-lt state (omega (arith, power, pow_positive p)),
    )

    pub mix-Slice :
        (k r state : ℕ) (big mem : List ℕ)
        → Slice size big mem
        → (state' : ℕ) × (big' : List ℕ) × (gpu_mix size k r state base big ≡ some (state', big'))
          × (cpu_mix size k r state mem ≡ some state')
          × Kept big big'
    unfolding gpu_mix cpu_mix
    mix-Slice zero r state big mem s = (state, big, refl, refl, (refl, λ m out. refl))
    mix-Slice (suc k) r state big mem (l, fits, same) =
        let (idx, low) = mask-index state in
        let i = state % size in
        let x = get_or mem i 0 in
        let v = u64 (bit_xor state x * m2 + r) in
        let read : get_or big (base + i) 0 ≡ x = same i low in
        let (state', big', eg, ec, kept) =
          mix-Slice k (suc r) v (set big (base + i) v) (set mem i v)
            (Slice-set size size i v big mem low (λ m lt ne. lt) (l, fits, same)) in
        (
          state',
          big',
          rw
              (
                idx,
                get_elem?-eq-get_or big (base + i) 0 (omega (arith, low)),
                read,
                store-set big (base + i) v (omega (arith, low)),
              )
              eg,
          rw
              (
                get_elem?-eq-get_or mem i 0 (omega (arith, low)),
                store-set mem i v (omega (arith, low)),
              )
              ec,
          Kept-trans big (set big (base + i) v) big' (Kept-set big i v low) kept,
        )
