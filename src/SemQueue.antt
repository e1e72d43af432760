-- ===== src/SemQueue.antt =====
-- The bounded buffer with two semaphores of Pthread/condition_sem1.c: each statement of a thread that
-- touches shared memory is a step. A step that reads or writes outside the queue does not exist, so
-- a theorem that some step exists also says that this does not happen.
pub mod Contents
pub mod Kept
pub mod Delivery
mod Tests
use cuda_open_mp.Common.{
  ℕ, zero, suc, ◌+◌, ◌%◌, ◌<◌, ◌≡◌, some, List, [], ◌∷◌, ◌++◌, length, get_elem?, set, replicate,
  if◌then◌else◌, ◌==◌,
}

abbrev pub num : ℕ
num = 100

pub data ProducerPc : Type 0 where
  waiting : ProducerPc
  filling : ProducerPc
  printing : ProducerPc
  posting : ProducerPc
  advancing : ProducerPc

pub data ConsumerPc : Type 0 where
  waiting : ConsumerPc
  reading : ConsumerPc
  clearing : ConsumerPc
  posting : ConsumerPc
  advancing : ConsumerPc

-- The globals, the locals of both threads, and what each has printed so far.
pub record State : Type 0 where
  queue : List ℕ
  blank_number : ℕ
  product_number : ℕ
  producer : ProducerPc
  p : ℕ
  item : ℕ
  produced : List ℕ
  consumer : ConsumerPc
  c : ℕ
  consumed : List ℕ

-- `item++; if (item == 1000) item = 0`.
unfoldable pub item_behind : ℕ → ℕ
item_behind item = if item + 1 == 1000 then 0 else item + 1

pub data Step : State → State → Type 0 where
  produce_wait :
      {s : State} {k : ℕ}
      → s.producer ≡ ProducerPc.waiting
      → s.blank_number ≡ suc k
      → Step s (record s { blank_number = k; producer = ProducerPc.filling })
  fill :
      {s : State}
      → s.producer ≡ ProducerPc.filling
      → s.p < length s.queue
      → Step s (record s {
        queue = set s.queue s.p s.item;
        item = item_behind s.item;
        producer = ProducerPc.printing;
      })
  print_produced :
      {s : State} {v : ℕ}
      → s.producer ≡ ProducerPc.printing
      → get_elem? s.queue s.p ≡ some v
      → Step s (record s { produced = s.produced ++ (v ∷ []); producer = ProducerPc.posting })
  produce_post :
      {s : State}
      → s.producer ≡ ProducerPc.posting
      → Step s (record s { product_number = suc s.product_number; producer = ProducerPc.advancing })
  produce_advance :
      {s : State}
      → s.producer ≡ ProducerPc.advancing
      → Step s (record s { p = (s.p + 1) % num; producer = ProducerPc.waiting })
  consume_wait :
      {s : State} {k : ℕ}
      → s.consumer ≡ ConsumerPc.waiting
      → s.product_number ≡ suc k
      → Step s (record s { product_number = k; consumer = ConsumerPc.reading })
  print_consumed :
      {s : State} {v : ℕ}
      → s.consumer ≡ ConsumerPc.reading
      → get_elem? s.queue s.c ≡ some v
      → Step s (record s { consumed = s.consumed ++ (v ∷ []); consumer = ConsumerPc.clearing })
  clear :
      {s : State}
      → s.consumer ≡ ConsumerPc.clearing
      → s.c < length s.queue
      → Step s (record s { queue = set s.queue s.c 0; consumer = ConsumerPc.posting })
  consume_post :
      {s : State}
      → s.consumer ≡ ConsumerPc.posting
      → Step s (record s { blank_number = suc s.blank_number; consumer = ConsumerPc.advancing })
  consume_advance :
      {s : State}
      → s.consumer ≡ ConsumerPc.advancing
      → Step s (record s { c = (s.c + 1) % num; consumer = ConsumerPc.waiting })

abbrev pub init : State
init = record {
  queue = replicate num 0;
  blank_number = num;
  product_number = 0;
  producer = ProducerPc.waiting;
  p = 0;
  item = 0;
  produced = [];
  consumer = ConsumerPc.waiting;
  c = 0;
  consumed = [];
}

-- The states that the two threads reach together.
pub data Reach : State → Type 0 where
  start : Reach init
  next : {s t : State} → Reach s → Step s t → Reach t
