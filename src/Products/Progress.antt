-- ===== src/Products/Progress.antt =====
-- When the producer and the consumer of Pthread/condition.c can go on.
use cuda_open_mp.Common.{
  ℕ, ◌+◌, ◌-◌, ◌≡◌, refl, ◌⊎◌, inl, inr, Bool-cases, subst, true, List, [], ◌∷◌, ◌++◌, arith,
  length, append-nil,
}
use cuda_open_mp.Products.{ℤ, end_flag, is_end_flag, Products, buffer_is_full, buffer_is_empty}
use cuda_open_mp.Products.Contents.{
  IsValid, contents, buffer_is_full-length, buffer_is_empty-length,
}
use cuda_open_mp.Products.Threads.{
  Owner, free, by_producer, by_consumer, ProducerPc, produce, test_full, wait_not_full, woken,
  write, signal_not_empty, unlock_producer, produced_all, ConsumerPc, consume, test_empty,
  wait_not_empty, awake, read, signal_not_full, unlock_consumer, test_end, consumed_all, State,
  item, Produces, Consumes, Reach,
}
use cuda_open_mp.Products.Invariant.{producer_holds, consumer_holds, calls, Inv, calls-suc}
use cuda_open_mp.Products.Invariant.Kept.{Reach-Inv}
use cuda_open_mp.Products.Delivery.{ArePlain, Reach-ArePlain, ended, numbers}

-- A thread can go on, with no spurious wake-up.
abbrev pub CanStep : State → Type 0
CanStep s = ((t : State) × Produces s s.producer t) ⊎ ((t : State) × Consumes s s.consumer t)

producer_goes :
    (s : State) (p : ProducerPc) → producer_holds p ≡ true → (t : State) × Produces s p t
producer_goes s (test_full i) h = elim (Bool-cases (buffer_is_full s.shared)) [
  | inl full ↦ (_, Produces.is_full full)
  | inr room ↦ (_, Produces.has_room room)
]
producer_goes s (write i) h = (_, Produces.write_it)
producer_goes s (signal_not_empty i) h = (_, Produces.signal)
producer_goes s (unlock_producer i) h = (_, Produces.unlock)
producer_goes s (produce i) h = cc
producer_goes s (wait_not_full i) h = cc
producer_goes s (woken i) h = cc
producer_goes s produced_all h = cc

consumer_goes :
    (s : State) (c : ConsumerPc) → consumer_holds c ≡ true → (t : State) × Consumes s c t
consumer_goes s test_empty h = elim (Bool-cases (buffer_is_empty s.shared)) [
  | inl none_left ↦ (_, Consumes.is_empty none_left)
  | inr left ↦ (_, Consumes.has_item left)
]
consumer_goes s read h = (_, Consumes.read_it)
consumer_goes s (signal_not_full x) h = (_, Consumes.signal)
consumer_goes s (unlock_consumer x) h = (_, Consumes.unlock)
consumer_goes s consume h = cc
consumer_goes s wait_not_empty h = cc
consumer_goes s awake h = cc
consumer_goes s (test_end x) h = cc
consumer_goes s consumed_all h = cc

not_full_and_empty :
    {p : Products} → IsValid p → buffer_is_full p ≡ true → buffer_is_empty p ≡ true → ⊥
not_full_and_empty v f e = ground (arith, buffer_is_full-length v, buffer_is_empty-length v)

append-ne-nil : (xs : List ℤ) (y : ℤ) (ys : List ℤ) → xs ++ (y ∷ ys) ≡ [] → ⊥
append-ne-nil [] y ys e = cc
append-ne-nil (x ∷ xs) y ys e = cc

nil_of_length : (xs : List ℤ) → length xs ≡ 0 → xs ≡ []
nil_of_length [] h = refl
nil_of_length (x ∷ xs) h = absurd (omega arith)

not-ArePlain-end : (xs : List ℤ) → ArePlain (xs ++ (end_flag ∷ [])) → ⊥
not-ArePlain-end [] h = cc (h.0)
not-ArePlain-end (x ∷ xs) h = not-ArePlain-end xs h.1

module _ {s : State} (r : Reach s) where
  abbrev inv : Inv s
  inv = Reach-Inv r

  -- Not both threads sleep.
  both_asleep : (i : ℕ) → s.producer ≡ wait_not_full i → s.consumer ≡ wait_not_empty → ⊥
  both_asleep i p c =
      ground (arith, inv.producer_sleeps i p, inv.consumer_sleeps c, not_full_and_empty inv.valid)

  -- The producer does not sleep when the consumer has ended.
  producer_left : (i : ℕ) → s.producer ≡ wait_not_full i → s.consumer ≡ consumed_all → ⊥
  producer_left i p c =
      append-ne-nil (contents s.shared) (item i) (calls (16 - i) (i + 1))
        (ground (arith, (ended r c).1, inv.in_loop, calls-suc i))

  -- The consumer does not sleep when the producer has ended.
  consumer_left : s.producer ≡ produced_all → s.consumer ≡ wait_not_empty → ⊥
  consumer_left p c =
      let none_left : contents s.shared ≡ [] =
        nil_of_length (contents s.shared)
          (ground (arith, inv.consumer_sleeps c, buffer_is_empty-length inv.valid)) in
      let all_printed : s.printed ≡ numbers 16 0 ++ (end_flag ∷ []) =
        ground (arith, inv.delivered, none_left, append-nil s.printed) in
      not-ArePlain-end (numbers 16 0) (subst ArePlain all_printed (Reach-ArePlain r))

  free_steps :
      (p : ProducerPc) (c : ConsumerPc)
      → s.producer ≡ p
      → s.consumer ≡ c
      → s.owner ≡ free
      → ((p ≡ produced_all) × (c ≡ consumed_all))
        ⊎ (((t : State) × Produces s p t) ⊎ ((t : State) × Consumes s c t))
  free_steps (produce i) c p q o = inr (inl (_, Produces.lock o))
  free_steps (woken i) c p q o = inr (inl (_, Produces.relock o))
  free_steps (test_full i) c p q o = inr (inl (producer_goes s (test_full i) refl))
  free_steps (write i) c p q o = inr (inl (producer_goes s (write i) refl))
  free_steps (signal_not_empty i) c p q o = inr (inl (producer_goes s (signal_not_empty i) refl))
  free_steps (unlock_producer i) c p q o = inr (inl (producer_goes s (unlock_producer i) refl))
  free_steps p consume e q o = inr (inr (_, Consumes.lock o))
  free_steps p awake e q o = inr (inr (_, Consumes.relock o))
  free_steps p test_empty e q o = inr (inr (consumer_goes s test_empty refl))
  free_steps p read e q o = inr (inr (consumer_goes s read refl))
  free_steps p (signal_not_full x) e q o = inr (inr (consumer_goes s (signal_not_full x) refl))
  free_steps p (unlock_consumer x) e q o = inr (inr (consumer_goes s (unlock_consumer x) refl))
  free_steps p (test_end x) e q o = elim (Bool-cases (is_end_flag x)) [
    | inl last ↦ inr (inr (_, Consumes.ends last))
    | inr plain ↦ inr (inr (_, Consumes.prints plain))
  ]
  free_steps (wait_not_full i) wait_not_empty p q o = absurd (both_asleep i p q)
  free_steps (wait_not_full i) consumed_all p q o = absurd (producer_left i p q)
  free_steps produced_all wait_not_empty p q o = absurd (consumer_left p q)
  free_steps produced_all consumed_all p q o = inl (refl, refl)

  owner_steps :
      (o : Owner)
      → s.owner ≡ o
      → ((s.producer ≡ produced_all) × (s.consumer ≡ consumed_all)) ⊎ CanStep s
  owner_steps free o = free_steps s.producer s.consumer refl refl o
  owner_steps by_producer o = inr (inl (producer_goes s s.producer (inv.owned_by_producer o)))
  owner_steps by_consumer o = inr (inr (consumer_goes s s.consumer (inv.owned_by_consumer o)))

  -- No deadlock and no lost wake-up: in every reachable state either both threads have ended or one
  -- of them can go on, even if no thread ever wakes without a signal.
  pub no_deadlock : ((s.producer ≡ produced_all) × (s.consumer ≡ consumed_all)) ⊎ CanStep s
  no_deadlock = owner_steps s.owner refl
