-- ===== src/Lib.antt =====
-- A model of the programs of this repository: threads over shared memory (Pthread), parallel loops
-- (OpenMP), a multithreaded web server (Pthread/pthreads-web-server-master), and programs for a GPU
-- (CUDA_sample, TensorCore). Each program or family of programs has a module: its definitions
-- follow the functions of the source, and its children hold the theorems. All numbers are natural
-- numbers of the kernel; the wrap-around of an unsigned type is written out. The values of an `int`
-- stay in its range at the bounds given; where they can leave it, that is written out too.
--
-- Common: names of the libraries, C arrays as lists (Lists), Boolean tests (Tests), integers (Ints),
--   any number of threads that interleave one access at a time (Threads), what a thread relies on of
--   a lock, with the mutex and the semaphore that give it (Lock), and the rounds of a parallel loop in
--   any order (Orders).
-- Server: Pthread/pthreads-web-server-master/server.c. A round of a worker is `accept` and the
--   request id under `accept_mutex` (Workers), then the received bytes go through `read_command`
--   (Parse), the tests and the choice of the method in `process_requests` (Request), and
--   `sendHeader`, `process_GET`, `process_HEAD`, `process_OPTIONS`, `process_TRACE` (Respond).
--   `read_config` is Config, and `%d` and `atoi` on numbers without a sign are Text.Decimal. A C
--   string is the list of its bytes before the NUL. The files, whether `fstat`, `fgets`,
--   `send` and `fputs` succeed, the clock and whether a log file opens are parameters. `none` or
--   `undefined` stands for an access outside a buffer or to memory that was not written, for an `int`
--   that overflows, and for a loop that does not end, so a theorem that gives a value also says that
--   this does not happen. What goes to the terminal is left out. The loop of `process_GET` runs on the
--   number of bytes of the file as fuel: each round takes at least one.
-- Products: Pthread/condition.c. `Produce` and `Consume` on the ring of BUFFER_SIZE cells
--   (Products), and the two threads with the mutex, the waits, the signals and spurious wake-ups as
--   a step relation (Threads). The accesses to the ring between two calls of the pthread interface
--   are one step, as they run under the mutex. Pthread/condition_no_cond.c, whose loops spin, is Spin.
-- SemQueue: Pthread/condition_sem1.c, the ring of NUM cells with its two semaphores, as a step
--   relation; `printf` is a list of what was printed.
-- Counter: Pthread/thread_with_mutex.c, thread_with_sem.c, 2thread_count.c, thread_no_sem.c,
--   2thread_error_count.c and 2thread_error_count_1.c. Each load, increment and store of `count` is
--   a step; the programs with a lock are one relation over the interface of Common.Lock, for any
--   number NITER of rounds.
-- Mailbox: Pthread/reader_writer.c, reader_writer_no_mutex.c, reader_writer_diff_mutex.c,
--   reader_writer_delay.c, reader_writer_delay1.c and deadlock.c as one step relation that depends
--   on the locks that each thread takes and on a delay behind its round. Each access to `buffer` and
--   to `buffer_has_item` is a step. Busy loops, and prints of the branches that do nothing else, are
--   left out.
-- CondMailbox: Pthread/reader_writer_cond.c as a step relation, with waits that a signal or nothing
--   ends; what stands between two calls of the pthread interface is one step, under the mutex.
-- IncDec: Pthread/inc_dec.c, inc_dec_cond.c, inc_dec_mutex.c, inc_dec1.c, inc_dec2.c and
--   dotprod_mutex.c as one step relation that depends on what `decrement_count` does at zero.
-- Sort: OpenMP/poe_sort.c, oe_sort.c and b_sort.c. The loops over indices have the length of the
--   array as fuel, which the index passes first; `while (changes)` has fuel of its own.
-- Matrix: `mxv` and `omp_mxv` of OpenMP/matrix_times.c and OpenMP/matrix_times_omp.c over any type
--   of elements with any addition and multiplication, as floating-point numbers are not modelled.
-- FileCopy: OpenMP/FileIO/Thread_FileCopy.c, with `char` signed, over any files; a file and its copy
--   are lists of bytes.
-- Cuda: a grid of threads, each with the cells that it writes (Cuda.Launch). A launch collects the
--   writes of all threads and makes them in the order that a parameter `schedule` puts them in, any
--   permutation; a write beyond an array is `none`, and so is a loop that has not ended when its
--   fuel, the number of elements and one more, has run out. Cuda.Threads and Cuda.Strides count the
--   threads of a grid and the steps of a loop that strides over it. The type of the elements and its
--   operations are parameters, as floating-point numbers are not modelled; the laws that a theorem
--   needs, such as commutativity, are its hypotheses. Wrap-around of 32 and 64 bits is written out.
--   VecAdd is CUDA_sample/vec_add.cu: the kernels with the cells of their threads, `vecAdd_cpu`,
--   `check_result`, and the tests of main. InnerProduct is CUDA_sample/inner_product.cu
--   and inner_product1.cu; the blocks of the latter write into the array that they read, nothing
--   orders them, and their order is a parameter of what main computes. Reduction holds the sums of a block between barriers of
--   inner_product1.cu, and recursiveReduce of ParallelReduction.cu: the threads of each round run in
--   any order. Hash is hash.cu with hash_cpu.cpp, Cipher is cipher_breaker.cu. MatMul is the
--   `matMultCUDA` of CUDA_sample/second_cuda1.cu and second_cuda2.cu with `matmult`, whose sums may
--   have a wider type, and `gemm_cuda_core_kernel` of TensorCore/four_compare/gemm_compare.cu.
--   RowProduct is CUDA_sample/second_cuda3.cu, whose blocks run in any order. The leading
--   dimensions of both are main's, all `n`, for which the indices stay in the range of `int`.
--
-- Memory is sequentially consistent: every access is a step that the others see at once. A thread
-- that waits for a lock takes it only while it is free, and which of them goes on next is left
-- open. The rounds of a parallel loop run one after the other, in any order; that is all of their
-- behaviours where no two rounds touch the same cell, as in Sort, Matrix and FileCopy. The store
-- `changes = 0` that every thread of the region of OpenMP/poe_sort.c makes is taken to come before
-- its loops.
--
-- Not modelled: the Tensor Core, cuBLAS and CUTLASS products; the other CUDA samples, their image
-- filters and the searches of CUDA_sample/test among them, and the copies of vec_add.cu; the
-- programs that only show what a directive or a call does and print it; the client and the sockets
-- of the web server; the other programs on conditions, barriers, read-write locks, tasks and file
-- reading.
pub mod Common
pub mod Server
pub mod Products
pub mod SemQueue
pub mod Sort
pub mod Counter
pub mod Mailbox
pub mod CondMailbox
pub mod Matrix
pub mod IncDec
pub mod Cuda
pub mod FileCopy
