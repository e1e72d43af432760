-- ===== src/Cuda/VecAdd/Launches.antt =====
-- The launches of CUDA_sample/vec_add.cu against the sums of the elements.
use mathlib.Core.List.{Perm}
use cuda_open_mp.Common.{
  ℕ, zero, suc, ◌+◌, ◌*◌, ◌^◌, ◌≤◌, ◌<◌, ◌≡◌, refl, sym, ap, ap₂, ◌∙◌, Option, some, List, [], ◌∷◌,
  arith, lt→ltb, length, get_elem?, set, drop_at,
}
use cuda_open_mp.Cuda.Launch.{Safe, Hits, perform-launch_cells}
use cuda_open_mp.Cuda.Threads.{thread_of, below_scaled, le_scaled}
use cuda_open_mp.Cuda.Strides.{
  u32, u32-small, grid_stride, grid_stride-Safe, grid_stride-Hits, guarded-Safe, guarded-Hits,
}
use cuda_open_mp.Cuda.VecAdd.{
  Kernel, kernel_better, kernel_better_a, kernel_better_b, kernel_better_c, kernel_better_d,
  kernel_better_e, kernel_2_19, kernel_2_19_a, kernel_2_19_b, kernel_2_18, kernel_2_18_a,
  kernel_2_18_b, kernel_2_10, kernel_2_10_a, kernel_2_10_b, kernel_2_10_c, kernel_256_1,
  kernel_256_2, kernel_2_256, kernel_1_1, kernel_1_2, kernel_1_256, kernel_1_4096, thread_cells,
  better_cells, step_cells, block_cells, add_cell, launch,
}

-- A launch has threads enough for its kernel to reach every element.
unfoldable pub Reaches : Kernel → ℕ → ℕ → Type 0
Reaches kernel_better g b = 0 < g * b
Reaches kernel_better_a g b = 0 < g * b
Reaches kernel_better_b g b = 0 < g * b
Reaches kernel_better_c g b = 0 < g * b
Reaches kernel_better_d g b = 0 < g * b
Reaches kernel_better_e g b = 0 < g * b
Reaches kernel_2_19 g b = 1024 * 512 ≤ g * b
Reaches kernel_2_19_a g b = 1024 * 512 ≤ g * b
Reaches kernel_2_19_b g b = 1024 * 512 ≤ g * b
Reaches kernel_2_18 g b = 1024 * 256 ≤ g * b
Reaches kernel_2_18_a g b = 1024 * 256 ≤ g * b
Reaches kernel_2_18_b g b = 1024 * 256 ≤ g * b
Reaches kernel_2_10 g b = 1024 ≤ g * b
Reaches kernel_2_10_a g b = 1024 ≤ g * b
Reaches kernel_2_10_b g b = 1024 ≤ g * b
Reaches kernel_2_10_c g b = 1024 ≤ g * b
Reaches kernel_256_1 g b = 256 ≤ g * b
Reaches kernel_256_2 g b = 512 ≤ g * b
Reaches kernel_2_256 g b = 512 ≤ g * b
Reaches kernel_1_1 g b = (0 < g) × (0 < b)
Reaches kernel_1_2 g b = (0 < g) × (2 ≤ b)
Reaches kernel_1_256 g b = (0 < g) × (256 ≤ b)
Reaches kernel_1_4096 g b = (0 < g) × (4096 ≤ b)

-- The threads of a launch end, stay below `n`, and one of them writes any given cell.
abbrev Covers : ℕ → ℕ → ℕ → (ℕ → ℕ → Option (List ℕ)) → Type 0
Covers n g b body =
    ((bid tid : ℕ) → bid < g → tid < b → Safe n (body bid tid))
    × ((m : ℕ) → m < n → (bid : ℕ) × (tid : ℕ) × (bid < g) × (tid < b) × Hits (body bid tid) m)

module _ (n g b : ℕ) (fits : n + g * b < 2 ^ 32) where
  step-Covers :
      (step : ℕ) → 0 < step → step ≤ g * b → Covers n g b (λ bid tid. step_cells n g b bid tid step)
  unfolding step_cells
  step-Covers step moves h = (
    (λ bid tid lb lt.
        guarded-Safe n step (u32 (b * bid + tid)) moves (suc n) 0 (omega arith) (omega arith)),
    λ m lt.
        let (q, u, lq, lu, e) = thread_of (suc m) step m (below_scaled m step moves) in
        let (bid, tid, lb, lt', eu) = thread_of g b u (omega arith) in
        let at : u32 (b * bid + tid) ≡ u = u32-small (b * bid + tid) (omega (arith, eu)) ∙ sym eu in
        (
          bid,
          tid,
          lb,
          lt',
          guarded-Hits n step (u32 (b * bid + tid)) moves (suc n) 0 m q (omega (arith, at, eu))
              (omega arith) (ground (arith, at, e)) lt,
        ),
  )

  block-Covers :
      (step : ℕ)
      → 0 < step
      → 0 < g
      → step ≤ b
      → Covers n g b (λ bid tid. block_cells n g b bid tid step)
  unfolding block_cells
  block-Covers step moves hg h = (
    (λ bid tid lb lt. guarded-Safe n step tid moves (suc n) 0 (omega arith) (omega arith)),
    λ m lt.
        let (q, u, lq, lu, e) = thread_of (suc m) step m (below_scaled m step moves) in
        (
          0,
          u,
          hg,
          omega arith,
          guarded-Hits n step u moves (suc n) 0 m q (omega (arith, le_scaled g b hg)) (omega arith)
              (ground (arith, e)) lt,
        ),
  )

  better-Covers : 0 < g * b → Covers n g b (λ bid tid. better_cells n g b bid tid)
  unfolding better_cells
  better-Covers h =
      let commuted : b * g ≡ g * b = ground arith in
      let stride : u32 (b * g) ≡ b * g = u32-small (b * g) (omega (arith, commuted)) in
      let moves : 0 < u32 (b * g) = omega (arith, stride, commuted) in
      (
        (λ bid tid lb lt.
            grid_stride-Safe n (u32 (b * g)) moves (suc n) (u32 (b * bid + tid))
              (omega (arith, stride, commuted)) (omega arith) (omega arith)),
        λ m lt.
            let (q, u, lq, lu, e) = thread_of (suc m) (g * b) m (below_scaled m (g * b) h) in
            let (bid, tid, lb, lt', eu) = thread_of g b u lu in
            let at : u32 (b * bid + tid) ≡ u =
              u32-small (b * bid + tid) (omega (arith, eu)) ∙ sym eu in
            (
              bid,
              tid,
              lb,
              lt',
              grid_stride-Hits n (u32 (b * g)) moves (suc n) (u32 (b * bid + tid)) m q
                  (omega (arith, stride, commuted)) (omega arith)
                  (rw (at, stride, commuted) (ground (arith, e))) lt,
            ),
      )

  single-Covers : (0 < g) × (0 < b) → Covers n g b (λ bid tid. grid_stride (suc n) n 1 0)
  single-Covers (hg, hb) =
      let small : n + 1 ≤ 2 ^ 32 = omega (arith, le_scaled g b hg) in
      (
        (λ bid tid lb lt.
            grid_stride-Safe n 1 (omega arith) (suc n) 0 small (omega arith) (omega arith)),
        λ m lt. (
          0,
          0,
          hg,
          hb,
          grid_stride-Hits n 1 (omega arith) (suc n) 0 m m small (omega arith) (ground arith) lt,
        ),
      )

  kernel-Covers :
      (k : Kernel) → Reaches k g b → Covers n g b (λ bid tid. thread_cells n g b bid tid k)
  unfolding Reaches thread_cells
  kernel-Covers kernel_better r = better-Covers r
  kernel-Covers kernel_better_a r = better-Covers r
  kernel-Covers kernel_better_b r = better-Covers r
  kernel-Covers kernel_better_c r = better-Covers r
  kernel-Covers kernel_better_d r = better-Covers r
  kernel-Covers kernel_better_e r = better-Covers r
  kernel-Covers kernel_2_19 r = step-Covers (1024 * 512) (omega arith) r
  kernel-Covers kernel_2_19_a r = step-Covers (1024 * 512) (omega arith) r
  kernel-Covers kernel_2_19_b r = step-Covers (1024 * 512) (omega arith) r
  kernel-Covers kernel_2_18 r = step-Covers (1024 * 256) (omega arith) r
  kernel-Covers kernel_2_18_a r = step-Covers (1024 * 256) (omega arith) r
  kernel-Covers kernel_2_18_b r = step-Covers (1024 * 256) (omega arith) r
  kernel-Covers kernel_2_10 r = step-Covers 1024 (omega arith) r
  kernel-Covers kernel_2_10_a r = step-Covers 1024 (omega arith) r
  kernel-Covers kernel_2_10_b r = step-Covers 1024 (omega arith) r
  kernel-Covers kernel_2_10_c r = step-Covers 1024 (omega arith) r
  kernel-Covers kernel_256_1 r = step-Covers 256 (omega arith) r
  kernel-Covers kernel_256_2 r = step-Covers 512 (omega arith) r
  kernel-Covers kernel_2_256 r = step-Covers 512 (omega arith) r
  kernel-Covers kernel_1_1 r = single-Covers r
  kernel-Covers kernel_1_2 r = block-Covers 2 (omega arith) r.0 r.1
  kernel-Covers kernel_1_256 r = block-Covers 256 (omega arith) r.0 r.1
  kernel-Covers kernel_1_4096 r = block-Covers 4096 (omega arith) r.0 r.1

-- The independent description: the sums of the elements.
module _ {F : Type 0} (plus : F → F → F) where
  abbrev pub sums : List F → List F → List F
  sums [] b = []
  sums (x ∷ a) [] = []
  sums (x ∷ a) (y ∷ b) = plus y x ∷ sums a b

  pub length-sums : (a b : List F) → length a ≡ length b → length (sums a b) ≡ length a
  length-sums [] b l = refl
  length-sums (x ∷ a) [] l = omega arith
  length-sums (x ∷ a) (y ∷ b) l = ap suc (length-sums a b (omega arith))

  get_elem?-sums :
      (a b : List F) (i : ℕ) (x y : F)
      → get_elem? a i ≡ some x
      → get_elem? b i ≡ some y
      → get_elem? (sums a b) i ≡ some (plus y x)
  get_elem?-sums [] b i x y e e' = cc
  get_elem?-sums (x' ∷ a) [] i x y e e' = cc
  get_elem?-sums (x' ∷ a) (y' ∷ b) zero x y e e' =
      let left : x' ≡ x = cc in let right : y' ≡ y = cc in ap some (ap₂ plus right left)
  get_elem?-sums (x' ∷ a) (y' ∷ b) (suc i) x y e e' = get_elem?-sums a b i x y e e'

  module _ (n : ℕ) (a b : List F) (la : length a ≡ n) (lb : length b ≡ n) where
    pub add_cell-sums :
        (i : ℕ) (c : List F)
        → i < n
        → length c ≡ n
        → (v : F) × (get_elem? (sums a b) i ≡ some v) × (add_cell plus a b i c ≡ some (set c i v))
    unfolding add_cell
    add_cell-sums i c lt l =
        let (x, ex, dx) = drop_at a i (omega arith) in
        let (y, ey, dy) = drop_at b i (omega arith) in
        (
          plus y x,
          get_elem?-sums a b i x y ex ey,
          rw (ey, ex, lt→ltb i (length c) (omega arith)) refl,
        )

    -- A launch with threads enough, on arrays of `n` elements and with fewer than 2 ^ 32 elements
    -- and threads together, ends and leaves in `c` the sums of the elements, whatever the kernel
    -- and the order of its threads' writes.
    pub launch-sums :
        IsSet F
        → (schedule : List ℕ → List ℕ) → ((l : List ℕ) → Perm l (schedule l))
        → (k : Kernel) (g block : ℕ) → n + g * block < 2 ^ 32
        → Reaches k g block
        → (c : List F) → length c ≡ n
        → launch plus schedule k n g block a b c ≡ some (sums a b)
    unfolding launch
    launch-sums F_set schedule perm k g block fits r c l =
        let (safe, hits) = kernel-Covers n g block fits k r in
        perform-launch_cells n (add_cell plus a b) (sums a b) (length-sums a b (la ∙ sym lb) ∙ la)
          add_cell-sums F_set schedule perm (λ bid tid. thread_cells n g block bid tid k) g block
          safe hits c l
