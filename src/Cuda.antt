-- ===== src/Cuda.antt =====
-- CUDA launches as the CUDA programs use them: a kernel's threads, told apart by blockIdx.x and
-- threadIdx.x, each with the cells of an array that it writes, and the writes of a launch in some
-- order.
pub mod Launch
pub mod Threads
pub mod Strides
pub mod VecAdd
pub mod Reduction
pub mod InnerProduct
pub mod Hash
pub mod Cipher
pub mod MatMul
pub mod RowProduct
