-- ===== src/SemQueue/Kept.antt =====
-- Every step of the two threads keeps the contents of the queue.
use mathlib.Core.Option.{some-injective}
use cuda_open_mp.Common.{
  ℕ, suc, ◌+◌, ◌%◌, ◌<◌, ◌≡◌, sym, ap, ap₂, ◌∙◌, subst, some, [], ◌∷◌, ◌++◌, arith, length-set,
  get_elem?, get_elem?-set_self, set, ℕ_discrete,
}
use cuda_open_mp.SemQueue.{num, ProducerPc, ConsumerPc, State, item_behind, Step, Reach}
use cuda_open_mp.SemQueue.Contents.{
  taken_blank, unprinted, unposted, behind_p, taken_product, unfreed, behind_c, Inv,
  item_behind-mod, Holds-set, Inv-init,
}

module _ {s : State} (inv : Inv s) where
  fill-Inv :
      s.producer ≡ ProducerPc.filling
      → Inv (record s {
        queue = set s.queue s.p s.item;
        item = item_behind s.item;
        producer = ProducerPc.printing;
      })
  fill-Inv e =
      let by = inv.by_producer in
      let blank : taken_blank s.producer ≡ 1 = ap taken_blank e in
      let place : s.p ≡ inv.stored % num = omega (arith, by.at_p, by.p_lt, ap behind_p e) in
      let free : inv.stored < num + inv.taken = omega (arith, inv.freed, blank) in
      record {
        stored = suc inv.stored;
        taken = inv.taken;
        room = length-set s.queue s.p s.item ∙ inv.room;
        posted = omega (arith, inv.posted, ap unposted e);
        freed = omega (arith, inv.freed, blank);
        holds = λ i lo hi. elim (ℕ_discrete i inv.stored) [
          | yes same ↦
              subst (λ q. get_elem? (set s.queue s.p s.item) (q % num) ≡ some (q % 1000)) (sym same)
                (subst (λ q. get_elem? (set s.queue s.p s.item) q ≡ some (inv.stored % 1000)) place
                  (get_elem?-set_self s.queue s.p s.item (omega (arith, inv.room, by.p_lt))
                    ∙ ap some by.makes))
          | no ne ↦
              Holds-set s.queue inv.taken inv.stored s.p s.item
                (λ j lo' hi' same. absurd (omega (arith, place, free, same, lo', hi'))) inv.holds i
                lo (omega (arith, ne, hi))
        ];
        by_producer = record {
          printed = by.printed;
          at_p = omega (arith, place);
          p_lt = by.p_lt;
          makes = ap item_behind by.makes ∙ item_behind-mod inv.stored;
          prints = by.prints;
          all_printed = omega (arith, by.all_printed, ap unprinted e);
        };
        by_consumer = inv.by_consumer;
      }

  print_produced-Inv :
      (v : ℕ)
      → s.producer ≡ ProducerPc.printing
      → get_elem? s.queue s.p ≡ some v
      → Inv (record s { produced = s.produced ++ (v ∷ []); producer = ProducerPc.posting })
  print_produced-Inv v e read =
      let by = inv.by_producer in
      let posted : unposted s.producer ≡ 1 = ap unposted e in
      let last : suc by.printed ≡ inv.stored = omega (arith, by.all_printed, ap unprinted e) in
      let place : s.p ≡ by.printed % num = omega (arith, by.at_p, by.p_lt, ap behind_p e, last) in
      let there : get_elem? s.queue (by.printed % num) ≡ some (by.printed % 1000) =
        inv.holds by.printed (omega (arith, inv.posted, posted, last)) (omega (arith, last)) in
      let value : v ≡ by.printed % 1000 =
        some-injective v (by.printed % 1000) (sym read ∙ ap (get_elem? s.queue) place ∙ there) in
      record {
        stored = inv.stored;
        taken = inv.taken;
        room = inv.room;
        posted = omega (arith, inv.posted, posted);
        freed = omega (arith, inv.freed, ap taken_blank e);
        holds = inv.holds;
        by_producer = record {
          printed = suc by.printed;
          at_p = omega (arith, by.at_p, ap behind_p e);
          p_lt = by.p_lt;
          makes = by.makes;
          prints = ap₂ (λ l x. l ++ (x ∷ [])) by.prints value;
          all_printed = omega (arith, last);
        };
        by_consumer = inv.by_consumer;
      }

  print_consumed-Inv :
      (v : ℕ)
      → s.consumer ≡ ConsumerPc.reading
      → get_elem? s.queue s.c ≡ some v
      → Inv (record s { consumed = s.consumed ++ (v ∷ []); consumer = ConsumerPc.clearing })
  print_consumed-Inv v e read =
      let by = inv.by_consumer in
      let product : taken_product s.consumer ≡ 1 = ap taken_product e in
      let place : s.c ≡ inv.taken % num = omega (arith, by.at_c, by.c_lt, ap behind_c e) in
      let there : get_elem? s.queue (inv.taken % num) ≡ some (inv.taken % 1000) =
        inv.holds inv.taken (omega arith) (omega (arith, inv.posted, product)) in
      let value : v ≡ inv.taken % 1000 =
        some-injective v (inv.taken % 1000) (sym read ∙ ap (get_elem? s.queue) place ∙ there) in
      record {
        stored = inv.stored;
        taken = suc inv.taken;
        room = inv.room;
        posted = omega (arith, inv.posted, product);
        freed = omega (arith, inv.freed, ap unfreed e);
        holds = λ i lo hi. inv.holds i (omega (arith, lo)) hi;
        by_producer = inv.by_producer;
        by_consumer = record {
          at_c = omega (arith, place);
          c_lt = by.c_lt;
          prints = ap₂ (λ l x. l ++ (x ∷ [])) by.prints value;
        };
      }

  clear-Inv :
      s.consumer ≡ ConsumerPc.clearing
      → Inv (record s { queue = set s.queue s.c 0; consumer = ConsumerPc.posting })
  clear-Inv e =
      let by = inv.by_consumer in
      let behind : behind_c s.consumer ≡ 1 = ap behind_c e in
      let unfree : unfreed s.consumer ≡ 1 = ap unfreed e in
      record {
        stored = inv.stored;
        taken = inv.taken;
        room = length-set s.queue s.c 0 ∙ inv.room;
        posted = omega (arith, inv.posted, ap taken_product e);
        freed = omega (arith, inv.freed, unfree);
        holds =
            Holds-set s.queue inv.taken inv.stored s.c 0
              (λ i lo hi same.
                absurd (omega (arith, by.at_c, behind, inv.freed, unfree, same, lo, hi)))
              inv.holds;
        by_producer = inv.by_producer;
        by_consumer = record {
          at_c = omega (arith, by.at_c, behind);
          c_lt = by.c_lt;
          prints = by.prints;
        };
      }

  -- A step of the producer that touches a semaphore or its own index only.
  producer-Inv :
      (at : ProducerPc) (p blank product : ℕ)
      → product + taken_product s.consumer + inv.taken + unposted at ≡ inv.stored
      → blank + taken_blank at + inv.stored + unfreed s.consumer ≡ num + inv.taken
      → (p + behind_p at) % num ≡ inv.stored % num
      → p < num
      → unprinted at ≡ unprinted s.producer
      → Inv (record s { producer = at; p = p; blank_number = blank; product_number = product })
  producer-Inv at p blank product posted freed at_p p_lt e =
      let by = inv.by_producer in
      record {
        stored = inv.stored;
        taken = inv.taken;
        room = inv.room;
        posted = posted;
        freed = freed;
        holds = inv.holds;
        by_producer = record {
          printed = by.printed;
          at_p = at_p;
          p_lt = p_lt;
          makes = by.makes;
          prints = by.prints;
          all_printed = omega (arith, by.all_printed, e);
        };
        by_consumer = inv.by_consumer;
      }

  -- The same of the consumer.
  consumer-Inv :
      (at : ConsumerPc) (c blank product : ℕ)
      → product + taken_product at + inv.taken + unposted s.producer ≡ inv.stored
      → blank + taken_blank s.producer + inv.stored + unfreed at ≡ num + inv.taken
      → (c + behind_c at) % num ≡ inv.taken % num
      → c < num
      → Inv (record s { consumer = at; c = c; blank_number = blank; product_number = product })
  consumer-Inv at c blank product posted freed at_c c_lt = record {
    stored = inv.stored;
    taken = inv.taken;
    room = inv.room;
    posted = posted;
    freed = freed;
    holds = inv.holds;
    by_producer = inv.by_producer;
    by_consumer = record { at_c = at_c; c_lt = c_lt; prints = inv.by_consumer.prints };
  }

pub Step-Inv : {s t : State} → Inv s → Step s t → Inv t
Step-Inv inv (Step.produce_wait {s} {k} e b) =
    producer-Inv inv ProducerPc.filling s.p k s.product_number
      (omega (arith, inv.posted, ap unposted e)) (omega (arith, inv.freed, ap taken_blank e, b))
      (omega (arith, inv.by_producer.at_p, ap behind_p e)) inv.by_producer.p_lt
      (sym (ap unprinted e))
Step-Inv inv (Step.fill e h) = fill-Inv inv e
Step-Inv inv (Step.print_produced {s} {v} e h) = print_produced-Inv inv v e h
Step-Inv inv (Step.produce_post {s} e) =
    producer-Inv inv ProducerPc.advancing s.p s.blank_number (suc s.product_number)
      (omega (arith, inv.posted, ap unposted e)) (omega (arith, inv.freed, ap taken_blank e))
      (omega (arith, inv.by_producer.at_p, ap behind_p e)) inv.by_producer.p_lt
      (sym (ap unprinted e))
Step-Inv inv (Step.produce_advance {s} e) =
    producer-Inv inv ProducerPc.waiting ((s.p + 1) % num) s.blank_number s.product_number
      (omega (arith, inv.posted, ap unposted e)) (omega (arith, inv.freed, ap taken_blank e))
      (omega (arith, inv.by_producer.at_p, ap behind_p e)) (omega arith) (sym (ap unprinted e))
Step-Inv inv (Step.consume_wait {s} {k} e b) =
    consumer-Inv inv ConsumerPc.reading s.c s.blank_number k
      (omega (arith, inv.posted, ap taken_product e, b)) (omega (arith, inv.freed, ap unfreed e))
      (omega (arith, inv.by_consumer.at_c, ap behind_c e)) inv.by_consumer.c_lt
Step-Inv inv (Step.print_consumed {s} {v} e h) = print_consumed-Inv inv v e h
Step-Inv inv (Step.clear e h) = clear-Inv inv e
Step-Inv inv (Step.consume_post {s} e) =
    consumer-Inv inv ConsumerPc.advancing s.c (suc s.blank_number) s.product_number
      (omega (arith, inv.posted, ap taken_product e)) (omega (arith, inv.freed, ap unfreed e))
      (omega (arith, inv.by_consumer.at_c, ap behind_c e)) inv.by_consumer.c_lt
Step-Inv inv (Step.consume_advance {s} e) =
    consumer-Inv inv ConsumerPc.waiting ((s.c + 1) % num) s.blank_number s.product_number
      (omega (arith, inv.posted, ap taken_product e)) (omega (arith, inv.freed, ap unfreed e))
      (omega (arith, inv.by_consumer.at_c, ap behind_c e)) (omega arith)

pub Reach-Inv : {s : State} → Reach s → Inv s
Reach-Inv Reach.start = Inv-init
Reach-Inv (Reach.next r mv) = Step-Inv (Reach-Inv r) mv
