-- ===== src/Products/Spin.antt =====
-- Pthread/condition_no_cond.c: the threads of Pthread/condition.c without the waits and signals, so
-- that each `while` spins with the lock held. Its ring and its tests are those of condition.c.
mod Tests
use cuda_open_mp.Common.{
  ℕ, ◌≡◌, refl, sym, ap, subst, ◌∙◌, Bool, true, false, List, [], ◌∷◌, ◌++◌, arith,
}
use cuda_open_mp.Products.{
  ℤ, is_end_flag, buffer_is_full, buffer_is_empty, write_item, read_item, drop_item,
}
use cuda_open_mp.Products.Threads.{
  Owner, free, by_producer, by_consumer, ProducerPc, produce, test_full, wait_not_full, woken,
  write, signal_not_empty, unlock_producer, produced_all, ConsumerPc, consume, test_empty, read,
  unlock_consumer, test_end, consumed_all, State, item, next_call, init,
}

-- One step of the producer.
pub data SpinProduces (s : State) : ProducerPc → State → Type 0 where
  lock :
      {i : ℕ}
      → s.owner ≡ free
      → SpinProduces s (produce i) (record s { owner = by_producer; producer = test_full i })
  spin : {i : ℕ} → buffer_is_full s.shared ≡ true → SpinProduces s (test_full i) s
  has_room :
      {i : ℕ}
      → buffer_is_full s.shared ≡ false
      → SpinProduces s (test_full i) (record s { producer = write i })
  write_it :
      {i : ℕ}
      → SpinProduces s
          (write i)
          (record s { shared = write_item (item i) s.shared; producer = unlock_producer i })
  unlock :
      {i : ℕ}
      → SpinProduces s (unlock_producer i) (record s { owner = free; producer = next_call i })

-- One step of the consumer.
pub data SpinConsumes (s : State) : ConsumerPc → State → Type 0 where
  lock :
      s.owner ≡ free
      → SpinConsumes s consume (record s { owner = by_consumer; consumer = test_empty })
  spin : buffer_is_empty s.shared ≡ true → SpinConsumes s test_empty s
  has_item :
      buffer_is_empty s.shared ≡ false → SpinConsumes s test_empty (record s { consumer = read })
  read_it :
      SpinConsumes s read
        (record s { shared = drop_item s.shared; consumer = unlock_consumer (read_item s.shared) })
  unlock :
      {x : ℤ}
      → SpinConsumes s (unlock_consumer x) (record s { owner = free; consumer = test_end x })
  ends :
      {x : ℤ}
      → is_end_flag x ≡ true
      → SpinConsumes s (test_end x) (record s { consumer = consumed_all })
  prints :
      {x : ℤ}
      → is_end_flag x ≡ false
      → SpinConsumes s
          (test_end x)
          (record s { consumer = consume; printed = s.printed ++ (x ∷ []) })

pub data SpinStep (s : State) : State → Type 0 where
  produces : {t : State} → SpinProduces s s.producer t → SpinStep s t
  consumes : {t : State} → SpinConsumes s s.consumer t → SpinStep s t

pub data SpinReach (s : State) : State → Type 0 where
  start : SpinReach s s
  later : {t u : State} → SpinReach s t → SpinStep t u → SpinReach s u

-- The producer is between its lock and its unlock.
abbrev producing : ProducerPc → Bool
producing (test_full i) = true
producing (write i) = true
producing (unlock_producer i) = true
producing p = false

next_call-producing : (i : ℕ) → producing (next_call i) ≡ false
next_call-producing i = ground arith

abbrev consuming : ConsumerPc → Bool
consuming test_empty = true
consuming read = true
consuming (unlock_consumer x) = true
consuming c = false

record Inv (s : State) : Type 0 where
  by_p : producing s.producer ≡ true → s.owner ≡ by_producer
  by_c : consuming s.consumer ≡ true → s.owner ≡ by_consumer

SpinProduces-Inv :
    {s t : State} {p : ProducerPc} → Inv s → SpinProduces s p t → s.producer ≡ p → Inv t
SpinProduces-Inv inv (SpinProduces.unlock {i}) e = record {
  by_p = λ h. ground (arith, next_call-producing i);
  by_c = λ h. ground (arith, inv.by_p, inv.by_c);
}
SpinProduces-Inv inv (SpinProduces.lock f) e = record {
  by_p = λ h. refl;
  by_c = λ h. ground (arith, inv.by_c);
}
SpinProduces-Inv inv mv e = record {
  by_p = λ h. ground (arith, inv.by_p, inv.by_c);
  by_c = λ h. ground (arith, inv.by_p, inv.by_c);
}

SpinConsumes-Inv :
    {s t : State} {c : ConsumerPc} → Inv s → SpinConsumes s c t → s.consumer ≡ c → Inv t
SpinConsumes-Inv inv (SpinConsumes.lock f) e = record {
  by_p = λ h. ground (arith, inv.by_p);
  by_c = λ h. refl;
}
SpinConsumes-Inv inv mv e = record {
  by_p = λ h. ground (arith, inv.by_p, inv.by_c);
  by_c = λ h. ground (arith, inv.by_p, inv.by_c);
}

SpinReach-Inv : {s t : State} → Inv s → SpinReach s t → Inv t
SpinReach-Inv inv start = inv
SpinReach-Inv inv (later r (produces mv)) = SpinProduces-Inv (SpinReach-Inv inv r) mv refl
SpinReach-Inv inv (later r (consumes mv)) = SpinConsumes-Inv (SpinReach-Inv inv r) mv refl

-- The consumer holds the lock and finds the buffer empty.
pub record Starves (s : State) : Type 0 where
  pub has_lock : s.owner ≡ by_consumer
  pub at_test : s.consumer ≡ test_empty
  pub empty : buffer_is_empty s.shared ≡ true

producer_waits :
    {s t : State} {p : ProducerPc}
    → SpinProduces s p t
    → (producing p ≡ true → s.owner ≡ by_producer)
    → s.owner ≡ by_consumer
    → ⊥
producer_waits (SpinProduces.lock f) h o = cc
producer_waits mv h o = let b = h refl in cc

consumer_spins :
    {s t : State} {c : ConsumerPc}
    → SpinConsumes s c t
    → c ≡ test_empty
    → buffer_is_empty s.shared ≡ true
    → t ≡ s
consumer_spins (SpinConsumes.spin h) e b = refl
consumer_spins (SpinConsumes.has_item h) e b = absurd (ground arith)
consumer_spins mv e b = cc

-- Once the consumer holds the lock and finds the buffer empty, the program stays in that state for
-- ever: the consumer spins, and the producer waits for the lock.
pub spins_for_good : {s t : State} → SpinReach init s → Starves s → SpinReach s t → t ≡ s
spins_for_good r st start = refl
spins_for_good {s} r st (later {t} q (produces mv)) =
    let same : t ≡ s = spins_for_good r st q in
    let inv = SpinReach-Inv (SpinReach-Inv Inv-init r) q in
    absurd (producer_waits mv inv.by_p (ap (λ u. u.owner) same ∙ st.has_lock))
  where
    Inv-init : Inv init
    Inv-init = record { by_p = λ h. cc; by_c = λ h. cc }
spins_for_good {s} r st (later {t} q (consumes mv)) =
    let same : t ≡ s = spins_for_good r st q in
    consumer_spins mv (ap (λ u. u.consumer) same ∙ st.at_test)
      (ap (λ u. buffer_is_empty u.shared) same ∙ st.empty)
    ∙ same
