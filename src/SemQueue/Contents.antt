-- ===== src/SemQueue/Contents.antt =====
-- The queue holds the items that were stored and not yet taken.
use cuda_open_mp.Common.{
  ℕ, zero, suc, ◌+◌, ◌%◌, ◌≤◌, ◌<◌, ◌≡◌, ◌≢◌, refl, ◌∙◌, some, List, [], ◌∷◌, ◌++◌, arith, length,
  get_elem?, get_elem?-set_ne, set,
}
use cuda_open_mp.SemQueue.{num, ProducerPc, ConsumerPc, State, item_behind, init}

-- The first `k` items that the producer makes.
abbrev pub items : ℕ → List ℕ
items zero = []
items (suc k) = items k ++ ((k % 1000) ∷ [])

-- A blank place that the producer has taken and not yet filled.
abbrev pub taken_blank : ProducerPc → ℕ
taken_blank ProducerPc.waiting = 0
taken_blank ProducerPc.filling = 1
taken_blank ProducerPc.printing = 0
taken_blank ProducerPc.posting = 0
taken_blank ProducerPc.advancing = 0

-- An item in the queue that is not printed yet.
abbrev pub unprinted : ProducerPc → ℕ
unprinted ProducerPc.waiting = 0
unprinted ProducerPc.filling = 0
unprinted ProducerPc.printing = 1
unprinted ProducerPc.posting = 0
unprinted ProducerPc.advancing = 0

-- An item in the queue that is not posted yet.
abbrev pub unposted : ProducerPc → ℕ
unposted ProducerPc.waiting = 0
unposted ProducerPc.filling = 0
unposted ProducerPc.printing = 1
unposted ProducerPc.posting = 1
unposted ProducerPc.advancing = 0

-- The place `p` is filled.
abbrev pub behind_p : ProducerPc → ℕ
behind_p ProducerPc.waiting = 0
behind_p ProducerPc.filling = 0
behind_p ProducerPc.printing = 1
behind_p ProducerPc.posting = 1
behind_p ProducerPc.advancing = 1

-- A posted item that the consumer has waited for and not yet printed.
abbrev pub taken_product : ConsumerPc → ℕ
taken_product ConsumerPc.waiting = 0
taken_product ConsumerPc.reading = 1
taken_product ConsumerPc.clearing = 0
taken_product ConsumerPc.posting = 0
taken_product ConsumerPc.advancing = 0

-- A printed place that is not blank again.
abbrev pub unfreed : ConsumerPc → ℕ
unfreed ConsumerPc.waiting = 0
unfreed ConsumerPc.reading = 0
unfreed ConsumerPc.clearing = 1
unfreed ConsumerPc.posting = 1
unfreed ConsumerPc.advancing = 0

-- The place `c` is printed.
abbrev pub behind_c : ConsumerPc → ℕ
behind_c ConsumerPc.waiting = 0
behind_c ConsumerPc.reading = 0
behind_c ConsumerPc.clearing = 1
behind_c ConsumerPc.posting = 1
behind_c ConsumerPc.advancing = 1

-- Items of the numbers from `taken` to `stored` stand in the queue, each in its place.
abbrev pub Holds : List ℕ → ℕ → ℕ → Type 0
Holds queue taken stored =
    (i : ℕ) → taken ≤ i → i < stored → get_elem? queue (i % num) ≡ some (i % 1000)

-- The producer's variables when it has written `stored` items.
pub record ByProducer (at : ProducerPc) (p item : ℕ) (produced : List ℕ) (stored : ℕ) : Type 0 where
  pub printed : ℕ
  pub at_p : (p + behind_p at) % num ≡ stored % num
  pub p_lt : p < num
  pub makes : item ≡ stored % 1000
  pub prints : produced ≡ items printed
  pub all_printed : printed + unprinted at ≡ stored

-- The consumer's variables when it has printed `taken` items.
pub record ByConsumer (at : ConsumerPc) (c : ℕ) (consumed : List ℕ) (taken : ℕ) : Type 0 where
  pub at_c : (c + behind_c at) % num ≡ taken % num
  pub c_lt : c < num
  pub prints : consumed ≡ items taken

-- `stored` items were written into the queue and `taken` were printed from it.
pub record Inv (s : State) : Type 0 where
  pub stored : ℕ
  pub taken : ℕ
  pub room : length s.queue ≡ num
  pub posted : s.product_number + taken_product s.consumer + taken + unposted s.producer ≡ stored
  pub freed : s.blank_number + taken_blank s.producer + stored + unfreed s.consumer ≡ num + taken
  pub holds : Holds s.queue taken stored
  pub by_producer : ByProducer s.producer s.p s.item s.produced stored
  pub by_consumer : ByConsumer s.consumer s.c s.consumed taken

pub item_behind-mod : (k : ℕ) → item_behind (k % 1000) ≡ suc k % 1000
unfolding item_behind
item_behind-mod k = ground arith

-- A write beside the items keeps them.
pub Holds-set :
    (queue : List ℕ) (taken stored at v : ℕ)
    → ((i : ℕ) → taken ≤ i → i < stored → at ≢ i % num)
    → Holds queue taken stored
    → Holds (set queue at v) taken stored
Holds-set queue taken stored at v apart h i lo hi =
    get_elem?-set_ne queue at (i % num) v (apart i lo hi) ∙ h i lo hi

pub Inv-init : Inv init
Inv-init = record {
  stored = 0;
  taken = 0;
  room = refl;
  posted = refl;
  freed = refl;
  holds = λ i lo hi. absurd (omega arith);
  by_producer = record {
    printed = 0;
    at_p = refl;
    p_lt = omega arith;
    makes = refl;
    prints = refl;
    all_printed = refl;
  };
  by_consumer = record { at_c = refl; c_lt = omega arith; prints = refl };
}
