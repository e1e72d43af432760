-- ===== src/Cuda/Hash.antt =====
-- hash.cu and hash_cpu.cpp of CUDA_sample/test: a hash that fills a memory,
-- mixes it, and shuffles the coordinates 0 to 99. MEM_SIZE and ROUNDS are the parameters `size` and
-- `rounds`; `none` is an index out of range. The memory of hash_cpu.cpp starts with any contents.
mod Tests
pub mod Mask
pub mod Swaps
pub mod Slices
pub mod Kernel
use Prim.Native.Nat.{bit_and, bit_xor}
use cuda_open_mp.Common.{
  ℕ, zero, suc, ◌+◌, ◌-◌, ◌*◌, ◌%◌, ◌^◌, Option, none, some, List, [], ◌∷◌, ltb, if◌then◌else◌,
  length, get_elem?, set, upto, ◌>>=◌,
}

abbrev pub m1 : ℕ
m1 = 6364136223846793005

abbrev pub a1 : ℕ
a1 = 1442695040888963407

abbrev pub m2 : ℕ
m2 = 2654435761

abbrev pub num_coords : ℕ
num_coords = 100

-- A `uint64_t`, which wraps around.
unfoldable pub u64 : ℕ → ℕ
u64 x = x % 2 ^ 64

-- `v[i] = x`, in range.
unfoldable pub store : List ℕ → ℕ → ℕ → Option (List ℕ)
store v i x = if ltb i (length v) then some (set v i x) else none

-- The swap of two coordinates.
unfoldable pub swap_at : ℕ → ℕ → List ℕ → Option (List ℕ)
swap_at i j coords = do
  temp ← get_elem? coords i
  y ← get_elem? coords j
  some (set (set coords i y) j temp)

-- `for (int i = k; i > 0; i--)`, the shuffle, with the generator's state `s`.
unfoldable pub shuffle : ℕ → ℕ → List ℕ → Option (List ℕ)
shuffle zero s coords = some coords
shuffle (suc k) s coords = do
  coords' ← swap_at (suc k) (u64 (s * m1 + 1) % (suc k + 1)) coords
  shuffle k (u64 (s * m1 + 1)) coords'

module _ (size : ℕ) where
  -- `k` rounds of the first loop of hash_cpu.cpp, from `i` on.
  unfoldable pub cpu_fill : ℕ → ℕ → List ℕ → Option (List ℕ)
  cpu_fill zero i mem = some mem
  cpu_fill (suc k) i mem = do
    x ← get_elem? mem (i - 1)
    mem' ← store mem i (u64 (x * m1 + a1))
    cpu_fill k (suc i) mem'

  -- `k` rounds of the mixing loop of hash_cpu.cpp, from `r` on; the state it ends with.
  unfoldable pub cpu_mix : ℕ → ℕ → ℕ → List ℕ → Option ℕ
  cpu_mix zero r state mem = some state
  cpu_mix (suc k) r state mem = do
    x ← get_elem? mem (state % size)
    mem' ← store mem (state % size) (u64 (bit_xor state x * m2 + r))
    cpu_mix k (suc r) (u64 (bit_xor state x * m2 + r)) mem'

  unfoldable pub cpu_k_hash : ℕ → ℕ → List ℕ → Option (List ℕ)
  cpu_k_hash rounds seed mem = do
    mem0 ← store mem 0 seed
    mem1 ← cpu_fill (size - 1) 1 mem0
    state ← cpu_mix rounds 0 seed mem1
    shuffle (num_coords - 1) state (upto num_coords 0)

  -- The loops of k_hash_kernel on the part of `d_big_mem` from `base` on.
  unfoldable pub gpu_fill : ℕ → ℕ → ℕ → List ℕ → Option (List ℕ)
  gpu_fill zero i base mem = some mem
  gpu_fill (suc k) i base mem = do
    x ← get_elem? mem (base + (i - 1))
    mem' ← store mem (base + i) (u64 (x * m1 + a1))
    gpu_fill k (suc i) base mem'

  unfoldable pub gpu_mix : ℕ → ℕ → ℕ → ℕ → List ℕ → Option (ℕ × List ℕ)
  gpu_mix zero r state base mem = some (state, mem)
  gpu_mix (suc k) r state base mem = do
    x ← get_elem? mem (base + bit_and state (size - 1))
    mem' ← store mem (base + bit_and state (size - 1)) (u64 (bit_xor state x * m2 + r))
    gpu_mix k (suc r) (u64 (bit_xor state x * m2 + r)) base mem'

  -- `for (int i = 0; i < 78; i++) d_results[tid * 78 + i] = coords[i]`, `k` rounds from `i` on.
  unfoldable pub put_results : ℕ → ℕ → ℕ → List ℕ → List ℕ → Option (List ℕ)
  put_results zero i tid coords results = some results
  put_results (suc k) i tid coords results = do
    x ← get_elem? coords i
    results' ← store results (tid * 78 + i) x
    put_results k (suc i) tid coords results'

  -- What a thread `tid` of k_hash_kernel below `n` does.
  unfoldable pub k_hash : ℕ → ℕ → List ℕ → List ℕ → List ℕ → Option (List ℕ × List ℕ)
  k_hash rounds tid seeds mem results = do
    seed ← get_elem? seeds tid
    mem0 ← store mem (tid * size) seed
    mem1 ← gpu_fill (size - 1) 1 (tid * size) mem0
    mixed ← gpu_mix rounds 0 seed (tid * size) mem1
    coords ← shuffle (num_coords - 1) mixed.0 (upto num_coords 0)
    results' ← put_results 78 0 tid coords results
    some (mixed.1, results')

  -- The thread `tid` of k_hash_kernel; the memory and the results it leaves.
  unfoldable pub k_hash_kernel : ℕ → ℕ → ℕ → List ℕ → List ℕ → List ℕ → Option (List ℕ × List ℕ)
  k_hash_kernel rounds n tid seeds mem results =
      if ltb tid n then k_hash rounds tid seeds mem results else some (mem, results)
