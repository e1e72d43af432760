-- ===== src/Products/Delivery.antt =====
-- What the consumer of Pthread/condition.c prints.
use cuda_open_mp.Common.{ℕ, zero, suc, ◌+◌, ◌≡◌, refl, false, List, [], ◌∷◌, ◌++◌, arith}
use cuda_open_mp.Products.{ℤ, pos, end_flag, is_end_flag}
use cuda_open_mp.Products.Contents.{contents}
use cuda_open_mp.Products.Threads.{
  ProducerPc, ConsumerPc, consumed_all, State, Produces, Consumes, producer_step, consumer_step,
  producer_wakes, consumer_wakes, Reach, start, later,
}
use cuda_open_mp.Products.Invariant.{calls, to_write, in_hand}
use cuda_open_mp.Products.Invariant.Kept.{Reach-Inv}

-- Items that are not END_FLAG.
abbrev pub ArePlain : List ℤ → Type 0
ArePlain [] = Unit {0}
ArePlain (x ∷ xs) = (is_end_flag x ≡ false) × ArePlain xs

ArePlain-snoc :
    (xs : List ℤ) (x : ℤ) → ArePlain xs → is_end_flag x ≡ false → ArePlain (xs ++ (x ∷ []))
ArePlain-snoc [] x h k = (k, tt)
ArePlain-snoc (y ∷ xs) x h k = (h.0, ArePlain-snoc xs x h.1 k)

Produces-printed : {s t : State} {p : ProducerPc} → Produces s p t → t.printed ≡ s.printed
Produces-printed (Produces.lock g) = refl
Produces-printed mv = refl

Consumes-ArePlain :
    {s t : State} {c : ConsumerPc} → Consumes s c t → ArePlain s.printed → ArePlain t.printed
Consumes-ArePlain {s} (Consumes.prints {x} g) h = ArePlain-snoc s.printed x h g
Consumes-ArePlain mv h = h

pub Reach-ArePlain : {s : State} → Reach s → ArePlain s.printed
Reach-ArePlain start = tt
Reach-ArePlain (later r (producer_step mv)) = rw (Produces-printed mv) (Reach-ArePlain r)
Reach-ArePlain (later r (consumer_step mv)) = Consumes-ArePlain mv (Reach-ArePlain r)
Reach-ArePlain (later r (producer_wakes e)) = Reach-ArePlain r
Reach-ArePlain (later r (consumer_wakes e)) = Reach-ArePlain r

-- END_FLAG stands once in what is produced, so it splits it in one way.
split_at_end :
    (xs ys zs : List ℤ)
    → ArePlain xs
    → ArePlain ys
    → xs ++ (end_flag ∷ zs) ≡ ys ++ (end_flag ∷ [])
    → (xs ≡ ys) × (zs ≡ [])
split_at_end [] [] zs h k e = ground arith
split_at_end [] (y ∷ ys) zs h k e = ground arith
split_at_end (x ∷ xs) [] zs h k e = ground arith
split_at_end (x ∷ xs) (y ∷ ys) zs h k e = ground (arith, split_at_end xs ys zs h.1 k.1)

-- The numbers from `i` on, `n` of them.
abbrev pub numbers : ℕ → ℕ → List ℤ
numbers zero i = []
numbers (suc n) i = pos i ∷ numbers n (i + 1)

numbers-ArePlain : (n i : ℕ) → ArePlain (numbers n i)
numbers-ArePlain zero i = tt
numbers-ArePlain (suc n) i = (refl, numbers-ArePlain n (i + 1))

pub ended :
    {s : State}
    → Reach s
    → s.consumer ≡ consumed_all
    → (s.printed ≡ numbers 16 0) × (contents s.shared ++ to_write s.producer ≡ [])
ended {s} r e =
    split_at_end s.printed (numbers 16 0) (contents s.shared ++ to_write s.producer)
      (Reach-ArePlain r) (numbers-ArePlain 16 0) (ground (arith, (Reach-Inv r).delivered))

-- Whatever the interleaving, what the consumer has printed is a beginning of what the calls of
-- `Produce` pass, so no item is lost, doubled or overtaken.
pub printed-prefix : {s : State} → Reach s → (rest : List ℤ) × (s.printed ++ rest ≡ calls 17 0)
printed-prefix {s} r =
    (in_hand s.consumer ++ (contents s.shared ++ to_write s.producer), (Reach-Inv r).delivered)

-- When the consumer has ended it has printed exactly 0 to 15, in order.
pub printed-all : {s : State} → Reach s → s.consumer ≡ consumed_all → s.printed ≡ numbers 16 0
printed-all r e = (ended r e).0
