-- ===== src/CondMailbox/Tests.antt =====
-- The mailbox with condition variables while the reader sleeps.
use cuda_open_mp.Common.{◌+◌, ◌≡◌, refl, true, [], ◌∷◌, length}
use cuda_open_mp.CondMailbox.{Place, Holder, State, Moves, Step, Reach}
use cuda_open_mp.CondMailbox.Places.{bytes, full}
use cuda_open_mp.CondMailbox.Delivery.{delivered_by_signals, never_asleep}

-- The reader has found the buffer empty, and the writer has filled it and not yet signalled.
abbrev filled : State
filled = record {
  buffer = 0;
  buffer_has_item = true;
  mutex = Holder.writer_function;
  writer = Place.signalling;
  item = 1;
  produced = 0 ∷ [];
  reader = Place.waiting;
  consumed = [];
}

reach_filled : Reach filled
reach_filled =
    Reach.next
      (Reach.next
        (Reach.next (Reach.next Reach.start (Step.moves (Moves.read_lock refl refl)))
          (Step.moves (Moves.wait_not_empty refl refl)))
        (Step.moves (Moves.write_lock refl refl)))
      (Step.moves (Moves.produce refl refl))

delivered_by_signals_example :
    (filled.produced ≡ bytes 1)
    × (filled.consumed ≡ bytes 0)
    × (full filled.buffer_has_item + length filled.consumed ≡ length filled.produced)
delivered_by_signals_example = delivered_by_signals reach_filled

never_asleep_example : (t : State) × Moves filled t
never_asleep_example = never_asleep reach_filled
