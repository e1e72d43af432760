-- ===== src/Cuda/Strides.antt =====
-- The loops of CUDA_sample/vec_add.cu's kernels: the cells that one thread writes. The fuel bounds
-- the rounds, and `none` is a loop that has not ended by then.
use cuda_open_mp.Common.{
  ℕ, zero, suc, ◌+◌, ◌*◌, ◌%◌, ◌^◌, ◌≤◌, ◌<◌, ◌≡◌, inl, inr, refl, Option, none, some, List, [],
  ◌∷◌, true, arith, ltb, lt→ltb, ltb→lt, Bool-cases, if◌then◌else◌, ◌>>=◌,
}
use cuda_open_mp.Cuda.Launch.{Safe, Hits}

-- An `unsigned int`, which wraps around.
unfoldable pub u32 : ℕ → ℕ
u32 x = x % 2 ^ 32

pub u32-small : (x : ℕ) → x < 2 ^ 32 → u32 x ≡ x
unfolding u32
u32-small x h = ground arith

-- `for (unsigned int i = idx; i < n; i += stride)`, which writes cell `i`.
unfoldable pub grid_stride : ℕ → ℕ → ℕ → ℕ → Option (List ℕ)
grid_stride zero n stride i = none
grid_stride (suc fuel) n stride i =
    let rest = grid_stride fuel n stride (u32 (i + stride)) in
    if ltb i n then (rest >>= (λ l. some (i ∷ l))) else some []

-- `for (int i = 0; i < n; i += step) if (i + u < n)`, which writes cell `i + u`. The test adds
-- unsigned numbers, and where it holds `i + j`, with the `int` `j` of the bits of `u`, is their sum.
unfoldable pub guarded : ℕ → ℕ → ℕ → ℕ → ℕ → Option (List ℕ)
guarded zero n step u i = none
guarded (suc fuel) n step u i =
    let rest = guarded fuel n step u (i + step) in
    if ltb i n
    then (rest >>= (λ l. some (if ltb (u32 (i + u)) n then u32 (i + u) ∷ l else l)))
    else some []

module _ (n stride : ℕ) (moves : 0 < stride) where
  grid_stride-step :
      (fuel i j : ℕ) (l : List ℕ)
      → ltb i n ≡ true
      → u32 (i + stride) ≡ j
      → grid_stride fuel n stride j ≡ some l
      → grid_stride (suc fuel) n stride i ≡ some (i ∷ l)
  unfolding grid_stride
  grid_stride-step fuel i j l t next e = rw (t, next, e) refl

  pub grid_stride-Safe :
      (fuel i : ℕ)
      → n + stride ≤ 2 ^ 32
      → 0 < fuel
      → n < i + fuel
      → Safe n (grid_stride fuel n stride i)
  unfolding grid_stride
  grid_stride-Safe zero i fits f h = absurd (omega arith)
  grid_stride-Safe (suc fuel) i fits f h = elim (Bool-cases (ltb i n)) [
    | inl t ↦
        let lt = ltb→lt i n t in
        let next : u32 (i + stride) ≡ i + stride = u32-small (i + stride) (omega arith) in
        let (l, e, w) = grid_stride-Safe fuel (i + stride) fits (omega arith) (omega arith) in
        (i ∷ l, grid_stride-step fuel i (i + stride) l t next e, (lt, w))
    | inr out ↦ ([], rw (out) refl, tt)
  ]

  pub grid_stride-Hits :
      (fuel i m q : ℕ)
      → n + stride ≤ 2 ^ 32
      → n < i + fuel
      → m ≡ i + q * stride
      → m < n
      → Hits (grid_stride fuel n stride i) m
  unfolding grid_stride
  grid_stride-Hits zero i m q fits h e lt = absurd (ground arith)
  grid_stride-Hits (suc fuel) i m zero fits h e lt =
      let t = lt→ltb i n (ground arith) in
      let next : u32 (i + stride) ≡ i + stride = u32-small (i + stride) (ground arith) in
      let (l, el, w) = grid_stride-Safe fuel (i + stride) fits (ground arith) (ground arith) in
      (i ∷ l, grid_stride-step fuel i (i + stride) l t next el, inl (ground arith))
  grid_stride-Hits (suc fuel) i m (suc q) fits h e lt =
      let t = lt→ltb i n (ground arith) in
      let next : u32 (i + stride) ≡ i + stride = u32-small (i + stride) (ground arith) in
      let (l, el, a) =
        grid_stride-Hits fuel (i + stride) m q fits (ground arith) (ground arith) lt in
      (i ∷ l, grid_stride-step fuel i (i + stride) l t next el, inr a)

module _ (n step u : ℕ) (moves : 0 < step) where
  pub guarded-Safe : (fuel i : ℕ) → 0 < fuel → n < i + fuel → Safe n (guarded fuel n step u i)
  unfolding guarded
  guarded-Safe zero i f h = absurd (omega arith)
  guarded-Safe (suc fuel) i f h = elim (Bool-cases (ltb i n)) [
    | inl t ↦
        let lt = ltb→lt i n t in
        let (l, e, w) = guarded-Safe fuel (i + step) (omega arith) (omega arith) in
        elim (Bool-cases (ltb (u32 (i + u)) n)) [
          | inl t' ↦ (u32 (i + u) ∷ l, rw (t, e, t') refl, (ltb→lt _ n t', w))
          | inr out ↦ (l, rw (t, e, out) refl, w)
        ]
    | inr out ↦ ([], rw (out) refl, tt)
  ]

  pub guarded-Hits :
      (fuel i m q : ℕ)
      → n + u ≤ 2 ^ 32
      → n < i + fuel
      → m ≡ i + q * step + u
      → m < n
      → Hits (guarded fuel n step u i) m
  unfolding guarded
  guarded-Hits zero i m q fits h e lt = absurd (ground arith)
  guarded-Hits (suc fuel) i m zero fits h e lt =
      let t = lt→ltb i n (ground arith) in
      let at : u32 (i + u) ≡ i + u = u32-small (i + u) (ground arith) in
      let t' = lt→ltb (i + u) n (ground arith) in
      let (l, el, w) = guarded-Safe fuel (i + step) (ground arith) (ground arith) in
      ((i + u) ∷ l, rw (t, at, el, t') refl, inl (ground arith))
  guarded-Hits (suc fuel) i m (suc q) fits h e lt =
      let t = lt→ltb i n (ground arith) in
      let (l, el, a) = guarded-Hits fuel (i + step) m q fits (ground arith) (ground arith) lt in
      elim (Bool-cases (ltb (u32 (i + u)) n)) [
        | inl t' ↦ (u32 (i + u) ∷ l, rw (t, el, t') refl, inr a)
        | inr out ↦ (l, rw (t, el, out) refl, a)
      ]
