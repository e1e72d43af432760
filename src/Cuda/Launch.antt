-- ===== src/Cuda/Launch.antt =====
-- The threads of a launch <<<grid, block>>> of CUDA_sample's kernels, and the writes of cells that
-- they make, one after the other in some order.
mod Cells
mod Writes
mod Blocks
unfoldable pub use cuda_open_mp.Cuda.Launch.Cells.*
unfoldable pub use cuda_open_mp.Cuda.Launch.Writes.*
unfoldable pub use cuda_open_mp.Cuda.Launch.Blocks.*
