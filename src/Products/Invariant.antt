-- ===== src/Products/Invariant.antt =====
-- What holds of the producer and the consumer of Pthread/condition.c in every reachable state.
mod Producer
mod Consumer
pub mod Kept
use cuda_open_mp.Common.{
  ℕ, zero, suc, ◌+◌, ◌-◌, ◌≤◌, ◌<◌, ◌≡◌, ◌≢◌, refl, sym, ap, ◌∙◌, ◌⊎◌, inl, inr, Bool, true, false,
  Option, none, some, List, [], ◌∷◌, ◌++◌, arith, ltb, ◌==◌, if◌then◌else◌, length, append_assoc,
  append-nil,
}
use cuda_open_mp.Products.{
  buffer_size, ℤ, pos, negsuc, end_flag, is_end_flag, Products, products, buffer_is_full,
  buffer_is_empty, write_item, read_item, drop_item,
}
use cuda_open_mp.Products.Contents.{
  IsValid, contents, products-IsValid, write_item-IsValid, drop_item-IsValid, contents-write_item,
  contents-read_item, buffer_is_full-length, buffer_is_empty-length,
}
use cuda_open_mp.Products.Threads.{
  Owner, free, by_producer, by_consumer, ProducerPc, produce, test_full, wait_not_full, woken,
  write, signal_not_empty, unlock_producer, produced_all, ConsumerPc, consume, test_empty,
  wait_not_empty, awake, read, signal_not_full, unlock_consumer, test_end, consumed_all, State,
  item, next_call, wake_consumer, wake_producer, Produces, Consumes, Step, producer_step,
  consumer_step, producer_wakes, consumer_wakes, init, Reach, start, later,
}

-- Who must own the mutex, where the threads stand.
abbrev pub producer_holds : ProducerPc → Bool
producer_holds (test_full i) = true
producer_holds (write i) = true
producer_holds (signal_not_empty i) = true
producer_holds (unlock_producer i) = true
producer_holds _ = false

abbrev pub consumer_holds : ConsumerPc → Bool
consumer_holds test_empty = true
consumer_holds read = true
consumer_holds (signal_not_full x) = true
consumer_holds (unlock_consumer x) = true
consumer_holds _ = false

-- The calls of `Produce` that are still to write: `n` of them, from the `i`-th on.
abbrev pub calls : ℕ → ℕ → List ℤ
calls zero i = []
calls (suc n) i = item i ∷ calls n (i + 1)

abbrev pub to_write : ProducerPc → List ℤ
to_write (produce i) = calls (17 - i) i
to_write (test_full i) = calls (17 - i) i
to_write (wait_not_full i) = calls (17 - i) i
to_write (woken i) = calls (17 - i) i
to_write (write i) = calls (17 - i) i
to_write (signal_not_empty i) = calls (16 - i) (i + 1)
to_write (unlock_producer i) = calls (16 - i) (i + 1)
to_write produced_all = []

abbrev pub InLoop : ProducerPc → Type 0
InLoop (produce i) = i ≤ 16
InLoop (test_full i) = i ≤ 16
InLoop (wait_not_full i) = i ≤ 16
InLoop (woken i) = i ≤ 16
InLoop (write i) = i ≤ 16
InLoop (signal_not_empty i) = i ≤ 16
InLoop (unlock_producer i) = i ≤ 16
InLoop produced_all = Unit

-- What the consumer has taken and not printed.
abbrev pub in_hand : ConsumerPc → List ℤ
in_hand (signal_not_full x) = x ∷ []
in_hand (unlock_consumer x) = x ∷ []
in_hand (test_end x) = x ∷ []
in_hand consumed_all = end_flag ∷ []
in_hand _ = []

-- A thread sleeps only while its condition fails, or the other is about to signal.
abbrev pub ProducerSleeps : State → Type 0
ProducerSleeps s =
    (i : ℕ)
    → s.producer ≡ wait_not_full i
    → (buffer_is_full s.shared ≡ true) ⊎ ((x : ℤ) × (s.consumer ≡ signal_not_full x))

abbrev pub ConsumerSleeps : State → Type 0
ConsumerSleeps s =
    s.consumer ≡ wait_not_empty
    → (buffer_is_empty s.shared ≡ true) ⊎ ((i : ℕ) × (s.producer ≡ signal_not_empty i))

pub record Inv (s : State) : Type 0 where
  pub valid : IsValid s.shared
  pub producer_owns : producer_holds s.producer ≡ true → s.owner ≡ by_producer
  pub consumer_owns : consumer_holds s.consumer ≡ true → s.owner ≡ by_consumer
  pub owned_by_producer : s.owner ≡ by_producer → producer_holds s.producer ≡ true
  pub owned_by_consumer : s.owner ≡ by_consumer → consumer_holds s.consumer ≡ true
  pub in_loop : InLoop s.producer
  pub room : (i : ℕ) → s.producer ≡ write i → buffer_is_full s.shared ≡ false
  pub some_left : s.consumer ≡ read → buffer_is_empty s.shared ≡ false
  pub producer_sleeps : ProducerSleeps s
  pub consumer_sleeps : ConsumerSleeps s
  pub delivered :
      s.printed ++ (in_hand s.consumer ++ (contents s.shared ++ to_write s.producer)) ≡ calls 17 0

-- The fields of the invariant that quantify over nothing.
pub record Locks (t : State) : Type 0 where
  pub producer_owns : producer_holds t.producer ≡ true → t.owner ≡ by_producer
  pub consumer_owns : consumer_holds t.consumer ≡ true → t.owner ≡ by_consumer
  pub owned_by_producer : t.owner ≡ by_producer → producer_holds t.producer ≡ true
  pub owned_by_consumer : t.owner ≡ by_consumer → consumer_holds t.consumer ≡ true
  pub in_loop : InLoop t.producer
  pub some_left : t.consumer ≡ read → buffer_is_empty t.shared ≡ false

pub init-Inv : Inv init
init-Inv = record {
  valid = products-IsValid;
  producer_owns = λ h. cc;
  consumer_owns = λ h. cc;
  owned_by_producer = λ h. cc;
  owned_by_consumer = λ h. cc;
  in_loop = omega arith;
  room = λ i h. cc;
  some_left = λ h. cc;
  producer_sleeps = λ i h. cc;
  consumer_sleeps = λ h. cc;
  delivered = refl;
}

pub calls-suc : (i : ℕ) → i ≤ 16 → calls (17 - i) i ≡ item i ∷ calls (16 - i) (i + 1)
calls-suc i h = ap (λ n. calls n i) {y = suc (16 - i)} (omega arith)

-- The premise of a step.
abbrev pub ProducesGuard : {s t : State} {p : ProducerPc} → Produces s p t → Type 0
ProducesGuard {s} (Produces.lock _) = s.owner ≡ free
ProducesGuard {s} (Produces.is_full _) = buffer_is_full s.shared ≡ true
ProducesGuard {s} (Produces.has_room _) = buffer_is_full s.shared ≡ false
ProducesGuard {s} (Produces.relock _) = s.owner ≡ free
ProducesGuard _ = Unit

pub produces_guard : {s t : State} {p : ProducerPc} (mv : Produces s p t) → ProducesGuard mv
produces_guard (Produces.lock g) = g
produces_guard (Produces.is_full g) = g
produces_guard (Produces.has_room g) = g
produces_guard (Produces.relock g) = g
produces_guard _ = tt

abbrev pub ConsumesGuard : {s t : State} {c : ConsumerPc} → Consumes s c t → Type 0
ConsumesGuard {s} (Consumes.lock _) = s.owner ≡ free
ConsumesGuard {s} (Consumes.is_empty _) = buffer_is_empty s.shared ≡ true
ConsumesGuard {s} (Consumes.has_item _) = buffer_is_empty s.shared ≡ false
ConsumesGuard {s} (Consumes.relock _) = s.owner ≡ free
ConsumesGuard (Consumes.ends {x} _) = is_end_flag x ≡ true
ConsumesGuard (Consumes.prints {x} _) = is_end_flag x ≡ false
ConsumesGuard _ = Unit

pub consumes_guard : {s t : State} {c : ConsumerPc} (mv : Consumes s c t) → ConsumesGuard mv
consumes_guard (Consumes.lock g) = g
consumes_guard (Consumes.is_empty g) = g
consumes_guard (Consumes.has_item g) = g
consumes_guard (Consumes.relock g) = g
consumes_guard (Consumes.ends g) = g
consumes_guard (Consumes.prints g) = g
consumes_guard _ = tt
