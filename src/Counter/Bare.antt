-- ===== src/Counter/Bare.antt =====
-- The count of Pthread/thread_no_sem.c and of the 2thread_error_count programs, which take no lock.
use cuda_open_mp.Common.{
  ℕ, zero, suc, ◌+◌, ◌*◌, ◌^◌, ◌≤◌, ◌<◌, ◌≡◌, ◌≢◌, refl, subst, sym, ap, ◌∙◌, arith, ℕ_discrete,
}
use cuda_open_mp.Common.Threads.{System, Reach, Reach-invariant, update}
use cuda_open_mp.Counter.{
  niter, Pc, loop, locked, loaded, incremented, stored, ended, created, BareAdd, bare_init,
}
use cuda_open_mp.Counter.Stores.{stores, total-same}
use cuda_open_mp.Counter.BareAdd.{load, increment, store, done}

-- The rounds and the `tmp` of a thread, where `total` stores have been made.
abbrev Bounded : ℕ → Pc → Type 0
Bounded total (loop k) = k ≤ niter
Bounded total (loaded k tmp) = (k < niter) × (tmp ≤ total)
Bounded total (incremented k tmp) = (k < niter) × (tmp ≤ total + 1)
Bounded total (locked k) = k < niter
Bounded total (stored k) = k < niter
Bounded total ended = Unit {0}

abbrev made : (ℕ → Pc) → ℕ
made pc = stores niter (pc 0) + stores niter (pc 1)

record Inv (count : ℕ) (pc : ℕ → Pc) : Type 0 where
  below : count ≤ made pc
  bounded : (i : ℕ) → Bounded (made pc) (pc i)
  others : (i : ℕ) → pc (suc (suc i)) ≡ ended

Bounded-grows : (m n : ℕ) (p : Pc) → m ≤ n → Bounded m p → Bounded n p
Bounded-grows m n (loop k) h b = b
Bounded-grows m n (locked k) h b = b
Bounded-grows m n (loaded k tmp) h (a, b) = (a, omega arith)
Bounded-grows m n (incremented k tmp) h (a, b) = (a, omega arith)
Bounded-grows m n (stored k) h b = b
Bounded-grows m n ended h b = b

-- A move of thread `i` to `p` that makes `made'` of the stores.
Inv-move :
    {count count' : ℕ} {pc : ℕ → Pc} (i : ℕ) (p : Pc)
    → Inv count pc
    → made pc ≤ made (update pc i p)
    → count' ≤ made (update pc i p)
    → Bounded (made (update pc i p)) p
    → pc i ≢ ended
    → Inv count' (update pc i p)
Inv-move {pc} i p inv grows below b which = record {
  below = below;
  bounded = λ j. elim (ℕ_discrete i j) [
    | yes same ↦
        ground (arith, Bounded-grows (made pc) (made (update pc i p)) (pc j) grows (inv.bounded j))
    | no other ↦
        ground (arith, Bounded-grows (made pc) (made (update pc i p)) (pc j) grows (inv.bounded j))
  ];
  others = λ j. ground (arith, inv.others j);
}

made-same :
    (pc : ℕ → Pc) (i : ℕ) (p p' : Pc)
    → pc i ≡ p
    → stores niter p' ≡ stores niter p
    → made (update pc i p') ≡ made pc
made-same pc i p p' e h = total-same niter pc i p' (h ∙ sym (ap (stores niter) e))

made-next :
    (pc : ℕ → Pc) (i k tmp : ℕ)
    → pc i ≡ incremented k tmp
    → ((j : ℕ) → pc (suc (suc j)) ≡ ended)
    → made (update pc i (loop (k + 1))) ≡ made pc + 1
unfolding ℕ_discrete
made-next pc zero k tmp e o = let s = ap (stores niter) e in omega arith
made-next pc (suc zero) k tmp e o = let s = ap (stores niter) e in omega arith
made-next pc (suc (suc i)) k tmp e o = let h = o i in cc

moved :
    {count count' : ℕ} {pc : ℕ → Pc} {p p' : Pc} (i : ℕ)
    → Inv count pc
    → BareAdd i count p count' p'
    → pc i ≡ p
    → Inv count' (update pc i p')
moved {pc} {p} {p'} i inv (load {k} h) e =
    let m = made-same pc i p p' e refl in
    let b = inv.below in Inv-move i p' inv (omega arith) (omega arith) (h, omega arith) (λ q. cc)
moved {pc} {p} {p'} i inv (increment {k} {tmp}) e =
    let m = made-same pc i p p' e refl in
    let b = inv.below in
    let (h, t) : (k < niter) × (tmp ≤ made pc) = subst (Bounded (made pc)) e (inv.bounded i) in
    Inv-move i p' inv (omega arith) (omega arith) (h, omega arith) (λ q. cc)
moved {pc} {p} {p'} i inv (store {k} {tmp}) e =
    let (h, t) : (k < niter) × (tmp ≤ made pc + 1) = subst (Bounded (made pc)) e (inv.bounded i) in
    let m = made-next pc i k tmp e inv.others in
    Inv-move i p' inv (omega arith) (omega arith) (omega arith) (λ q. cc)
moved {pc} {p} {p'} i inv (done h) e =
    let m = made-same pc i p p' e (sym h) in
    let b = inv.below in Inv-move i p' inv (omega arith) (omega arith) tt (λ q. cc)

-- Even without a lock `count` is at every point at most the number of stores made, and at most
-- 2 * NITER, so that it stays in the range of an `int`.
pub bare_count-le :
    {s : System ℕ Pc}
    → Reach BareAdd bare_init s
    → (s.mem ≤ stores niter (s.pc 0) + stores niter (s.pc 1))
      × (s.mem ≤ 2 * niter)
      × (s.mem < 2 ^ 31)
bare_count-le {s} r =
    let inv = Reach-invariant BareAdd Inv (λ i m m' pc p' v mv. moved i v mv refl) Inv-init r in
    let b = inv.below in
    let first = stores-le _ (s.pc 0) (inv.bounded 0) in
    let second = stores-le _ (s.pc 1) (inv.bounded 1) in (b, omega arith, omega arith)
  where
    stores-le : (total : ℕ) (p : Pc) → Bounded total p → stores niter p ≤ niter
    stores-le total (loop k) b = b
    stores-le total (locked k) b = omega arith
    stores-le total (loaded k tmp) b = omega (arith, b.0)
    stores-le total (incremented k tmp) b = omega (arith, b.0)
    stores-le total (stored k) b = omega arith
    stores-le total ended b = omega arith

    created-Bounded : (i : ℕ) → Bounded 0 (created i)
    created-Bounded zero = omega arith
    created-Bounded (suc zero) = omega arith
    created-Bounded (suc (suc i)) = tt

    Inv-init : Inv 0 created
    Inv-init = record { below = omega arith; bounded = created-Bounded; others = λ i. refl }
