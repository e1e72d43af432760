-- ===== src/SemQueue/Delivery.antt =====
-- The items arrive in order, and the two threads never stop.
use cuda_open_mp.Common.{
  ℕ, zero, suc, ◌+◌, ◌%◌, ◌≤◌, ◌<◌, ◌≡◌, ◌⊎◌, inl, inr, refl, sym, ap, ◌∙◌, some, List, [], ◌∷◌,
  arith, length, get_elem?, length-snoc,
}
use cuda_open_mp.SemQueue.{num, ProducerPc, ConsumerPc, State, Step, Reach}
use cuda_open_mp.SemQueue.Contents.{
  items, taken_blank, unprinted, unposted, taken_product, unfreed, Inv,
}
use cuda_open_mp.SemQueue.Kept.{Reach-Inv}

length-items : (k : ℕ) → length (items k) ≡ k
length-items zero = refl
length-items (suc k) = sym (length-snoc (items k) (k % 1000)) ∙ omega (arith, length-items k)

counted : (l : List ℕ) (k : ℕ) → l ≡ items k → length l ≡ k
counted l k e = ap length e ∙ length-items k

-- Both threads print the items 0, 1, ..., 999, 0, ... in this order, each item once; the consumer
-- prints none before the producer has, and is at most NUM items behind.
pub delivered :
    {s : State}
    → Reach s
    → (s.produced ≡ items (length s.produced))
      × (s.consumed ≡ items (length s.consumed))
      × (length s.consumed ≤ length s.produced)
      × (length s.produced ≤ num + length s.consumed)
delivered {s} r =
    let inv = Reach-Inv r in
    let made = counted s.produced inv.by_producer.printed inv.by_producer.prints in
    let got = counted s.consumed inv.taken inv.by_consumer.prints in
    (
      inv.by_producer.prints ∙ ap items (sym made),
      inv.by_consumer.prints ∙ ap items (sym got),
      omega (arith, made, got, inv.posted, inv.by_producer.all_printed, unprinted_le s.producer),
      omega (arith, made, got, inv.freed, inv.by_producer.all_printed),
    )
  where
    unprinted_le : (at : ProducerPc) → unprinted at ≤ unposted at
    unprinted_le ProducerPc.waiting = omega arith
    unprinted_le ProducerPc.filling = omega arith
    unprinted_le ProducerPc.printing = omega arith
    unprinted_le ProducerPc.posting = omega arith
    unprinted_le ProducerPc.advancing = omega arith

-- An element in range.
element : (l : List ℕ) (i : ℕ) → i < length l → (v : ℕ) × (get_elem? l i ≡ some v)
element [] i h = absurd (omega arith)
element (x ∷ l) zero h = (x, refl)
element (x ∷ l) (suc i) h = element l i (omega arith)

predecessor : (n : ℕ) → 0 < n → (k : ℕ) × (n ≡ suc k)
predecessor zero h = absurd (omega arith)
predecessor (suc k) h = (k, refl)

module _ {s : State} (inv : Inv s) where
  -- A producer goes on, or it waits for a blank place and there is none.
  producer_goes :
      (at : ProducerPc)
      → s.producer ≡ at
      → ((t : State) × Step s t) ⊎ ((at ≡ ProducerPc.waiting) × (s.blank_number ≡ 0))
  producer_goes ProducerPc.waiting e = elim (ℕ_cases s.blank_number) [
    | inl none_left ↦ inr (refl, none_left)
    | inr (k, b) ↦ inl (_, Step.produce_wait e b)
  ]
    where
      ℕ_cases : (n : ℕ) → (n ≡ 0) ⊎ ((k : ℕ) × (n ≡ suc k))
      ℕ_cases zero = inl refl
      ℕ_cases (suc k) = inr (k, refl)
  producer_goes ProducerPc.filling e =
      inl (_, Step.fill e (omega (arith, inv.room, inv.by_producer.p_lt)))
  producer_goes ProducerPc.printing e =
      let (v, read) = element s.queue s.p (omega (arith, inv.room, inv.by_producer.p_lt)) in
      inl (_, Step.print_produced e read)
  producer_goes ProducerPc.posting e = inl (_, Step.produce_post e)
  producer_goes ProducerPc.advancing e = inl (_, Step.produce_advance e)

  -- Where the producer waits for a blank place, the consumer goes on.
  consumer_goes :
      s.producer ≡ ProducerPc.waiting
      → s.blank_number ≡ 0
      → (at : ConsumerPc) → s.consumer ≡ at
      → (t : State) × Step s t
  consumer_goes e b ConsumerPc.waiting e' =
      let (k, product) = predecessor s.product_number (
        omega (
          arith,
          inv.posted,
          inv.freed,
          ap unposted e,
          ap taken_blank e,
          ap taken_product e',
          ap unfreed e',
          b,
        )) in
      (_, Step.consume_wait e' product)
  consumer_goes e b ConsumerPc.reading e' =
      let (v, read) = element s.queue s.c (omega (arith, inv.room, inv.by_consumer.c_lt)) in
      (_, Step.print_consumed e' read)
  consumer_goes e b ConsumerPc.clearing e' =
      (_, Step.clear e' (omega (arith, inv.room, inv.by_consumer.c_lt)))
  consumer_goes e b ConsumerPc.posting e' = (_, Step.consume_post e')
  consumer_goes e b ConsumerPc.advancing e' = (_, Step.consume_advance e')

-- In every state that the threads reach one of them can go on: they never wait for each other, and
-- no access leaves the queue.
pub never_stuck : {s : State} → Reach s → (t : State) × Step s t
never_stuck {s} r =
    let inv = Reach-Inv r in
    elim (producer_goes inv s.producer refl) [
      | inl goes ↦ goes
      | inr (waits, none_left) ↦ consumer_goes inv waits none_left s.consumer refl
    ]
