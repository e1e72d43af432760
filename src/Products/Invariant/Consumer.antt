-- ===== src/Products/Invariant/Consumer.antt =====
-- The invariant under the steps of the consumer of Pthread/condition.c.
use cuda_open_mp.Common.{ℕ, ◌≡◌, refl, inr, true, false, [], ◌∷◌, ◌++◌, arith, append_assoc}
use cuda_open_mp.Products.{ℤ, end_flag, is_end_flag, buffer_is_full, read_item}
use cuda_open_mp.Products.Contents.{IsValid, contents, drop_item-IsValid, contents-read_item}
use cuda_open_mp.Products.Threads.{write, ConsumerPc, State, Consumes}
use cuda_open_mp.Products.Invariant.{
  calls, to_write, in_hand, ProducerSleeps, ConsumerSleeps, Inv, Locks, consumes_guard,
}

module _ {s : State} (inv : Inv s) where
  pub Consumes-IsValid :
      {t : State} {c : ConsumerPc} → Consumes s c t → s.consumer ≡ c → IsValid t.shared
  Consumes-IsValid Consumes.read_it e = drop_item-IsValid inv.valid
  Consumes-IsValid mv e = inv.valid

  pub Consumes-Locks : {t : State} {c : ConsumerPc} → Consumes s c t → s.consumer ≡ c → Locks t
  Consumes-Locks (Consumes.lock g) e = ground (
    arith, inv.producer_owns, inv.consumer_owns, inv.owned_by_producer, inv.owned_by_consumer,
    inv.in_loop, inv.some_left,
  )
  Consumes-Locks mv e = ground (
    arith,
    consumes_guard mv,
    inv.producer_owns,
    inv.consumer_owns,
    inv.owned_by_producer,
    inv.owned_by_consumer,
    inv.in_loop,
    inv.some_left,
  )

  pub Consumes-room :
      {t : State} {c : ConsumerPc}
      → Consumes s c t
      → s.consumer ≡ c
      → (i : ℕ) → t.producer ≡ write i
      → buffer_is_full t.shared ≡ false
  Consumes-room (Consumes.lock g) e i q = ground (arith, inv.room i)
  Consumes-room mv e i q =
      ground (arith, consumes_guard mv, inv.room i, inv.producer_owns, inv.consumer_owns)

  pub Consumes-ProducerSleeps :
      {t : State} {c : ConsumerPc} → Consumes s c t → s.consumer ≡ c → ProducerSleeps t
  Consumes-ProducerSleeps (Consumes.lock g) e i q = ground (arith, inv.producer_sleeps i)
  Consumes-ProducerSleeps Consumes.read_it e i q = inr (read_item s.shared, refl)
  Consumes-ProducerSleeps mv e i q = ground (arith, consumes_guard mv, inv.producer_sleeps i)

  pub Consumes-ConsumerSleeps :
      {t : State} {c : ConsumerPc} → Consumes s c t → s.consumer ≡ c → ConsumerSleeps t
  Consumes-ConsumerSleeps (Consumes.lock g) e q = ground (arith, inv.consumer_sleeps)
  Consumes-ConsumerSleeps mv e q = ground (arith, consumes_guard mv, inv.consumer_sleeps)

  is_end_flag-eq : (x : ℤ) → is_end_flag x ≡ true → x ≡ end_flag
  is_end_flag-eq x h = ground arith

  pub Consumes-delivered :
      {t : State} {c : ConsumerPc}
      → Consumes s c t
      → s.consumer ≡ c
      → t.printed ++ (in_hand t.consumer ++ (contents t.shared ++ to_write t.producer)) ≡ calls 17 0
  Consumes-delivered Consumes.read_it e =
      ground (arith, inv.delivered, inv.some_left, contents-read_item inv.valid)
  Consumes-delivered (Consumes.ends {x} g) e = ground (arith, inv.delivered, is_end_flag-eq x g)
  Consumes-delivered (Consumes.prints {x} g) e = ground (
    arith,
    inv.delivered,
    append_assoc s.printed (x ∷ []) (contents s.shared ++ to_write s.producer),
  )
  Consumes-delivered mv e = ground (arith, inv.delivered)
