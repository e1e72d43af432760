-- ===== src/SemQueue/Tests.antt =====
-- The bounded buffer with two semaphores behind its first item.
use cuda_open_mp.Common.{◌+◌, ◌≤◌, ◌≡◌, refl, [], ◌∷◌, arith, length, replicate}
use cuda_open_mp.SemQueue.{num, ProducerPc, ConsumerPc, State, item_behind, Step, Reach}
use cuda_open_mp.SemQueue.Contents.{items}
use cuda_open_mp.SemQueue.Delivery.{delivered, never_stuck}

-- The producer has printed its first item and not yet posted it.
abbrev one_printed : State
one_printed = record {
  queue = replicate num 0;
  blank_number = 99;
  product_number = 0;
  producer = ProducerPc.posting;
  p = 0;
  item = 1;
  produced = 0 ∷ [];
  consumer = ConsumerPc.waiting;
  c = 0;
  consumed = [];
}

reach_one : Reach one_printed
unfolding item_behind
reach_one =
    Reach.next
      (Reach.next (Reach.next Reach.start (Step.produce_wait refl refl))
        (Step.fill refl (omega arith)))
      (Step.print_produced refl refl)

delivered_example :
    (one_printed.produced ≡ items 1)
    × (one_printed.consumed ≡ items 0)
    × (length one_printed.consumed ≤ length one_printed.produced)
    × (length one_printed.produced ≤ num + length one_printed.consumed)
delivered_example = delivered reach_one

never_stuck_example : (t : State) × Step one_printed t
never_stuck_example = never_stuck reach_one
