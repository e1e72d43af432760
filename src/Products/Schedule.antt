-- ===== src/Products/Schedule.antt =====
-- Reachable states of Pthread/condition.c by evaluation: the threads move in a given order.
use cuda_open_mp.Common.{ℕ, zero, suc, ◌≡◌, refl, inl, inr, Bool-cases, Option, none, some}
use cuda_open_mp.Products.{is_end_flag, buffer_is_full, buffer_is_empty}
use cuda_open_mp.Products.Threads.{
  Owner, free, by_producer, by_consumer, ProducerPc, produce, test_full, wait_not_full, woken,
  write, signal_not_empty, unlock_producer, produced_all, ConsumerPc, consume, test_empty,
  wait_not_empty, awake, read, signal_not_full, unlock_consumer, test_end, consumed_all, State,
  Produces, Consumes, producer_step, consumer_step, init, Reach, start, later,
}

is_free : (o : Owner) → Option (o ≡ free)
is_free free = some refl
is_free by_producer = none
is_free by_consumer = none

-- The next step of the producer, if it is not blocked.
producer_move : (s : State) (p : ProducerPc) → Option ((t : State) × Produces s p t)
producer_move s (produce i) = elim (is_free s.owner) [
  | none ↦ none
  | some h ↦ some (_, Produces.lock h)
]
producer_move s (test_full i) = elim (Bool-cases (buffer_is_full s.shared)) [
  | inl full ↦ some (_, Produces.is_full full)
  | inr room ↦ some (_, Produces.has_room room)
]
producer_move s (wait_not_full i) = none
producer_move s (woken i) = elim (is_free s.owner) [
  | none ↦ none
  | some h ↦ some (_, Produces.relock h)
]
producer_move s (write i) = some (_, Produces.write_it)
producer_move s (signal_not_empty i) = some (_, Produces.signal)
producer_move s (unlock_producer i) = some (_, Produces.unlock)
producer_move s produced_all = none

consumer_move : (s : State) (c : ConsumerPc) → Option ((t : State) × Consumes s c t)
consumer_move s consume = elim (is_free s.owner) [
  | none ↦ none
  | some h ↦ some (_, Consumes.lock h)
]
consumer_move s test_empty = elim (Bool-cases (buffer_is_empty s.shared)) [
  | inl none_left ↦ some (_, Consumes.is_empty none_left)
  | inr left ↦ some (_, Consumes.has_item left)
]
consumer_move s wait_not_empty = none
consumer_move s awake = elim (is_free s.owner) [
  | none ↦ none
  | some h ↦ some (_, Consumes.relock h)
]
consumer_move s read = some (_, Consumes.read_it)
consumer_move s (signal_not_full x) = some (_, Consumes.signal)
consumer_move s (unlock_consumer x) = some (_, Consumes.unlock)
consumer_move s (test_end x) = elim (Bool-cases (is_end_flag x)) [
  | inl last ↦ some (_, Consumes.ends last)
  | inr plain ↦ some (_, Consumes.prints plain)
]
consumer_move s consumed_all = none

-- A reachable state.
pub record Run : Type 0 where
  pub last : State
  pub reach : Reach last

producer_turn : Run → Run
producer_turn r = elim (producer_move r.last r.last.producer) [
  | none ↦ r
  | some (t, mv) ↦ record { last = t; reach = later r.reach (producer_step mv) }
]

consumer_turn : Run → Run
consumer_turn r = elim (consumer_move r.last r.last.consumer) [
  | none ↦ r
  | some (t, mv) ↦ record { last = t; reach = later r.reach (consumer_step mv) }
]

-- `n` rounds in which each thread moves once, if it can.
unfoldable pub rounds : ℕ → Run → Run
unfolding producer_turn consumer_turn producer_move consumer_move is_free Bool-cases buffer_is_full
    buffer_is_empty
rounds zero r = r
rounds (suc n) r = rounds n (consumer_turn (producer_turn r))

abbrev pub begin : Run
begin = record { last = init; reach = start }
