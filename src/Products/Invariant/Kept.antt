-- ===== src/Products/Invariant/Kept.antt =====
-- The invariant in the reachable states of Pthread/condition.c.
use cuda_open_mp.Common.{refl, arith}
use cuda_open_mp.Products.Threads.{
  State, Step, producer_step, consumer_step, producer_wakes, consumer_wakes, Reach, start, later,
}
use cuda_open_mp.Products.Invariant.{Inv}
use cuda_open_mp.Products.Invariant.{init-Inv}
use cuda_open_mp.Products.Invariant.Producer.{
  Produces-IsValid, Produces-Locks, Produces-room, Produces-ProducerSleeps, Produces-ConsumerSleeps,
  Produces-delivered,
}
use cuda_open_mp.Products.Invariant.Consumer.{
  Consumes-IsValid, Consumes-Locks, Consumes-room, Consumes-ProducerSleeps, Consumes-ConsumerSleeps,
  Consumes-delivered,
}

Step-Inv : {s t : State} → Inv s → Step s t → Inv t
Step-Inv inv (producer_step mv) =
    let locks = Produces-Locks inv mv refl in
    record {
      valid = Produces-IsValid inv mv refl;
      producer_owns = locks.producer_owns;
      consumer_owns = locks.consumer_owns;
      owned_by_producer = locks.owned_by_producer;
      owned_by_consumer = locks.owned_by_consumer;
      in_loop = locks.in_loop;
      room = Produces-room inv mv refl;
      some_left = locks.some_left;
      producer_sleeps = Produces-ProducerSleeps inv mv refl;
      consumer_sleeps = Produces-ConsumerSleeps inv mv refl;
      delivered = Produces-delivered inv mv refl;
    }
Step-Inv inv (consumer_step mv) =
    let locks = Consumes-Locks inv mv refl in
    record {
      valid = Consumes-IsValid inv mv refl;
      producer_owns = locks.producer_owns;
      consumer_owns = locks.consumer_owns;
      owned_by_producer = locks.owned_by_producer;
      owned_by_consumer = locks.owned_by_consumer;
      in_loop = locks.in_loop;
      room = Consumes-room inv mv refl;
      some_left = locks.some_left;
      producer_sleeps = Consumes-ProducerSleeps inv mv refl;
      consumer_sleeps = Consumes-ConsumerSleeps inv mv refl;
      delivered = Consumes-delivered inv mv refl;
    }
Step-Inv {s} inv (producer_wakes {i} e) = record {
  valid = inv.valid;
  producer_owns = λ h. cc;
  consumer_owns = inv.consumer_owns;
  owned_by_producer = ground (arith, inv.owned_by_producer);
  owned_by_consumer = inv.owned_by_consumer;
  in_loop = ground (arith, inv.in_loop);
  room = λ j h. cc;
  some_left = inv.some_left;
  producer_sleeps = λ j h. cc;
  consumer_sleeps = ground (arith, inv.consumer_sleeps);
  delivered = ground (arith, inv.delivered);
}
Step-Inv {s} inv (consumer_wakes e) = record {
  valid = inv.valid;
  producer_owns = inv.producer_owns;
  consumer_owns = λ h. cc;
  owned_by_producer = inv.owned_by_producer;
  owned_by_consumer = ground (arith, inv.owned_by_consumer);
  in_loop = inv.in_loop;
  room = inv.room;
  some_left = λ h. cc;
  producer_sleeps = λ i h. ground (arith, inv.producer_sleeps i);
  consumer_sleeps = λ h. cc;
  delivered = ground (arith, inv.delivered);
}

-- In every reachable state the buffer is valid, the mutex has the owner that the threads believe,
-- a thread sleeps only while its condition fails or a signal is due, and what the consumer has
-- printed and holds, the buffer and what the producer still has to write make up the calls of
-- `Produce` in order.
pub Reach-Inv : {s : State} → Reach s → Inv s
Reach-Inv start = init-Inv
Reach-Inv (later r st) = Step-Inv (Reach-Inv r) st
