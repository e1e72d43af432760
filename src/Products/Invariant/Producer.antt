-- ===== src/Products/Invariant/Producer.antt =====
-- The invariant under the steps of the producer of Pthread/condition.c.
use cuda_open_mp.Common.{ℕ, ◌+◌, ◌-◌, ◌≡◌, false, [], ◌∷◌, ◌++◌, arith, append_assoc}
use cuda_open_mp.Products.{buffer_is_full}
use cuda_open_mp.Products.Contents.{IsValid, contents, write_item-IsValid, contents-write_item}
use cuda_open_mp.Products.Threads.{ProducerPc, write, State, item, Produces}
use cuda_open_mp.Products.Invariant.{
  calls, to_write, in_hand, ProducerSleeps, ConsumerSleeps, Inv, calls-suc, Locks, produces_guard,
}

module _ {s : State} (inv : Inv s) where
  pub Produces-IsValid :
      {t : State} {p : ProducerPc} → Produces s p t → s.producer ≡ p → IsValid t.shared
  Produces-IsValid (Produces.write_it {i}) e = write_item-IsValid (item i) inv.valid
  Produces-IsValid mv e = inv.valid

  pub Produces-Locks : {t : State} {p : ProducerPc} → Produces s p t → s.producer ≡ p → Locks t
  Produces-Locks (Produces.lock g) e = ground (
    arith, inv.producer_owns, inv.consumer_owns, inv.owned_by_producer, inv.owned_by_consumer,
    inv.in_loop, inv.some_left,
  )
  Produces-Locks mv e = ground (
    arith,
    produces_guard mv,
    inv.producer_owns,
    inv.consumer_owns,
    inv.owned_by_producer,
    inv.owned_by_consumer,
    inv.in_loop,
    inv.some_left,
  )

  pub Produces-room :
      {t : State} {p : ProducerPc}
      → Produces s p t
      → s.producer ≡ p
      → (i : ℕ) → t.producer ≡ write i
      → buffer_is_full t.shared ≡ false
  Produces-room (Produces.lock g) e i q = ground (arith, inv.room i)
  Produces-room mv e i q = ground (arith, produces_guard mv, inv.room i)

  pub Produces-ProducerSleeps :
      {t : State} {p : ProducerPc} → Produces s p t → s.producer ≡ p → ProducerSleeps t
  Produces-ProducerSleeps (Produces.lock g) e i q = ground (arith, inv.producer_sleeps i)
  Produces-ProducerSleeps mv e i q = ground (arith, produces_guard mv, inv.producer_sleeps i)

  pub Produces-ConsumerSleeps :
      {t : State} {p : ProducerPc} → Produces s p t → s.producer ≡ p → ConsumerSleeps t
  Produces-ConsumerSleeps (Produces.lock g) e q = ground (arith, inv.consumer_sleeps)
  Produces-ConsumerSleeps mv e q = ground (arith, produces_guard mv, inv.consumer_sleeps)

  pub Produces-delivered :
      {t : State} {p : ProducerPc}
      → Produces s p t
      → s.producer ≡ p
      → t.printed ++ (in_hand t.consumer ++ (contents t.shared ++ to_write t.producer)) ≡ calls 17 0
  Produces-delivered (Produces.write_it {i}) e = ground (
    arith,
    inv.delivered,
    inv.in_loop,
    inv.room i,
    calls-suc i,
    contents-write_item (item i) inv.valid,
    append_assoc (contents s.shared) (item i ∷ []) (calls (16 - i) (i + 1)),
  )
  Produces-delivered mv e = ground (arith, inv.delivered, inv.in_loop)
