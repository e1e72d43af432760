-- ===== src/Products/Threads.antt =====
-- `ProducerThread` and `ConsumerThread` of Pthread/condition.c, interleaved. The statements between a
-- lock and its unlock that touch the buffer are one step: they run under the mutex.
use cuda_open_mp.Common.{ℕ, ◌+◌, ◌≡◌, true, false, List, [], ◌∷◌, ◌++◌, ltb, if◌then◌else◌}
use cuda_open_mp.Products.{
  ℤ, pos, end_flag, is_end_flag, Products, products, buffer_is_full, buffer_is_empty, write_item,
  read_item, drop_item,
}

-- The owner of `locker`.
pub data Owner : Type 0 where
  free by_producer by_consumer : Owner

-- Where the producer stands in the call of `Produce` for its `i`-th item; the items 0 to 15 come from
-- the loop, and the sixteenth is END_FLAG.
pub data ProducerPc : Type 0 where
  produce : ℕ → ProducerPc  -- before `pthread_mutex_lock`
  test_full : ℕ → ProducerPc  -- the `while`
  wait_not_full : ℕ → ProducerPc  -- asleep in `pthread_cond_wait`
  woken : ℕ → ProducerPc  -- awake in it, without the mutex
  write : ℕ → ProducerPc
  signal_not_empty : ℕ → ProducerPc
  unlock_producer : ℕ → ProducerPc
  produced_all : ProducerPc

pub data ConsumerPc : Type 0 where
  consume : ConsumerPc  -- before `pthread_mutex_lock`
  test_empty : ConsumerPc  -- the `while`
  wait_not_empty : ConsumerPc
  awake : ConsumerPc
  read : ConsumerPc
  signal_not_full : ℤ → ConsumerPc  -- the item is in `item`
  unlock_consumer : ℤ → ConsumerPc
  test_end : ℤ → ConsumerPc  -- behind `Consume`
  consumed_all : ConsumerPc

-- `printed` is what the consumer has printed.
pub record State : Type 0 where
  pub shared : Products
  pub owner : Owner
  pub producer : ProducerPc
  pub consumer : ConsumerPc
  pub printed : List ℤ

-- The argument of the `i`-th call of `Produce`.
abbrev pub item : ℕ → ℤ
item i = if ltb i 16 then pos i else end_flag

-- Behind the `i`-th call.
abbrev pub next_call : ℕ → ProducerPc
next_call i = if ltb i 16 then produce (i + 1) else produced_all

-- `pthread_cond_signal` wakes the thread that waits for the condition, if it does.
abbrev pub wake_consumer : ConsumerPc → ConsumerPc
wake_consumer wait_not_empty = awake
wake_consumer c = c

abbrev pub wake_producer : ProducerPc → ProducerPc
wake_producer (wait_not_full i) = woken i
wake_producer p = p

-- One step of the producer at `p`, which wakes no thread without a signal.
pub data Produces (s : State) : ProducerPc → State → Type 0 where
  lock :
      {i : ℕ}
      → s.owner ≡ free
      → Produces s (produce i) (record s { owner = by_producer; producer = test_full i })
  is_full :
      {i : ℕ}
      → buffer_is_full s.shared ≡ true
      → Produces s (test_full i) (record s { owner = free; producer = wait_not_full i })
  has_room :
      {i : ℕ}
      → buffer_is_full s.shared ≡ false
      → Produces s (test_full i) (record s { producer = write i })
  relock :
      {i : ℕ}
      → s.owner ≡ free
      → Produces s (woken i) (record s { owner = by_producer; producer = test_full i })
  write_it :
      {i : ℕ}
      → Produces s
          (write i)
          (record s { shared = write_item (item i) s.shared; producer = signal_not_empty i })
  signal :
      {i : ℕ}
      → Produces s
          (signal_not_empty i)
          (record s { producer = unlock_producer i; consumer = wake_consumer s.consumer })
  unlock :
      {i : ℕ} → Produces s (unlock_producer i) (record s { owner = free; producer = next_call i })

-- One step of the consumer at `c`.
pub data Consumes (s : State) : ConsumerPc → State → Type 0 where
  lock :
      s.owner ≡ free → Consumes s consume (record s { owner = by_consumer; consumer = test_empty })
  is_empty :
      buffer_is_empty s.shared ≡ true
      → Consumes s test_empty (record s { owner = free; consumer = wait_not_empty })
  has_item : buffer_is_empty s.shared ≡ false → Consumes s test_empty (record s { consumer = read })
  relock :
      s.owner ≡ free → Consumes s awake (record s { owner = by_consumer; consumer = test_empty })
  read_it :
      Consumes s read
        (record s { shared = drop_item s.shared; consumer = signal_not_full (read_item s.shared) })
  signal :
      {x : ℤ}
      → Consumes s
          (signal_not_full x)
          (record s { consumer = unlock_consumer x; producer = wake_producer s.producer })
  unlock :
      {x : ℤ} → Consumes s (unlock_consumer x) (record s { owner = free; consumer = test_end x })
  ends :
      {x : ℤ}
      → is_end_flag x ≡ true
      → Consumes s (test_end x) (record s { consumer = consumed_all })
  prints :
      {x : ℤ}
      → is_end_flag x ≡ false
      → Consumes s (test_end x) (record s { consumer = consume; printed = s.printed ++ (x ∷ []) })

-- A step of the program. The last two are spurious wake-ups, which POSIX allows.
pub data Step (s : State) : State → Type 0 where
  producer_step : {t : State} → Produces s s.producer t → Step s t
  consumer_step : {t : State} → Consumes s s.consumer t → Step s t
  producer_wakes : {i : ℕ} → s.producer ≡ wait_not_full i → Step s (record s { producer = woken i })
  consumer_wakes : s.consumer ≡ wait_not_empty → Step s (record s { consumer = awake })

abbrev pub init : State
init = record {
  shared = products;
  owner = free;
  producer = produce 0;
  consumer = consume;
  printed = [];
}

pub data Reach : State → Type 0 where
  start : Reach init
  later : {s t : State} → Reach s → Step s t → Reach t
