-- ===== src/Counter/Lost.antt =====
-- The interleavings of Pthread/thread_no_sem.c, which takes no lock.
use cuda_open_mp.Common.{
  ℕ, zero, suc, ◌+◌, ◌-◌, ◌*◌, ◌≤◌, ◌<◌, ◌≡◌, ◌≢◌, refl, sym, ap, ◌∙◌, subst, arith, ltb,
}
use cuda_open_mp.Common.Threads.{System, pick, Reach, start, later, Reach-trans, update}
use cuda_open_mp.Counter.{niter, Pc, loop, ended, BareAdd, bare_init, boom}
use cuda_open_mp.Counter.BareAdd.{load, increment, store, done}

-- A run from `s` in which thread `i` goes to `p`, the count to `count`, and no other thread moves.
record Run (s : System ℕ Pc) (i : ℕ) (p : Pc) (count : ℕ) : Type 0 where
  end : System ℕ Pc
  reach : Reach BareAdd s end
  counts : end.mem ≡ count
  stands : end.pc i ≡ p
  stay : (j : ℕ) → j ≢ i → end.pc j ≡ s.pc j

one_move :
    (s : System ℕ Pc) (i : ℕ) {p p' : Pc} {count : ℕ}
    → s.pc i ≡ p
    → BareAdd i s.mem p count p'
    → Run s i p' count
one_move s i {p' = p'} {count} e mv = record {
  end = record { mem = count; pc = update s.pc i p' };
  reach = later start (pick i (subst (λ q. BareAdd i s.mem q count p') (sym e) mv));
  counts = refl;
  stands = ground arith;
  stay = λ j ne. ground arith;
}

then_run :
    {s : System ℕ Pc} {i : ℕ} {p q : Pc} {count count' : ℕ} (first : Run s i p count)
    → Run first.end i q count'
    → Run s i q count'
then_run first second = record {
  end = second.end;
  reach = Reach-trans BareAdd first.reach second.reach;
  counts = second.counts;
  stands = second.stands;
  stay = λ j ne. second.stay j ne ∙ first.stay j ne;
}

one_round :
    (s : System ℕ Pc) (i k : ℕ) → s.pc i ≡ loop k → k < niter → Run s i (loop (k + 1)) (s.mem + 1)
one_round s i k e h =
    let a = one_move s i e (load h) in
    let b = then_run a (one_move a.end i a.stands increment) in
    then_run b (one_move b.end i b.stands store)

no_move : (s : System ℕ Pc) (i : ℕ) {p : Pc} → s.pc i ≡ p → Run s i p s.mem
no_move s i e = record { end = s; reach = start; counts = refl; stands = e; stay = λ j ne. refl }

recount :
    {s : System ℕ Pc} {i : ℕ} {p : Pc} {count count' : ℕ}
    → count ≡ count'
    → Run s i p count
    → Run s i p count'
recount e r = record {
  end = r.end;
  reach = r.reach;
  counts = r.counts ∙ e;
  stands = r.stands;
  stay = r.stay;
}

rounds :
    (n : ℕ) (s : System ℕ Pc) (i k : ℕ)
    → s.pc i ≡ loop k
    → k + n ≤ niter
    → Run s i (loop (k + n)) (s.mem + n)
rounds zero s i k e h = recount (omega arith) (no_move s i (e ∙ ap loop (omega arith)))
rounds (suc n) s i k e h =
    let a = one_round s i k e (omega arith) in
    let b = rounds n a.end i (k + 1) a.stands (omega arith) in
    let moved : k + 1 + n ≡ k + suc n = omega arith in
    then_run a (record {
      end = b.end;
      reach = b.reach;
      counts = omega (arith, b.counts, a.counts);
      stands = b.stands ∙ ap loop moved;
      stay = b.stay;
    })

-- The rest of a thread: its last rounds, and the end of its loop.
finishes :
    (s : System ℕ Pc) (i k : ℕ) → s.pc i ≡ loop k → k ≤ niter → Run s i ended (s.mem + (niter - k))
finishes s i k e h =
    let a = rounds (niter - k) s i k e (omega arith) in
    let at_end = a.stands ∙ ap loop (omega arith) in
    recount a.counts (then_run a (one_move a.end i at_end (done refl)))

-- Without a lock every total from NITER to 2 * NITER has an interleaving that ends with it; `main`
-- prints BOOM after all of them but the last.
pub any_total :
    (lost : ℕ)
    → lost ≤ niter
    → (s : System ℕ Pc) × Reach BareAdd bare_init s
      × (s.pc 0 ≡ ended)
      × (s.pc 1 ≡ ended)
      × (s.mem ≡ 2 * niter - lost)
      × (boom niter s.mem ≡ ltb 0 lost)
any_total lost h =
    let a = one_move bare_init 0 refl (load {k = 0} (omega arith)) in
    let b = rounds lost a.end 1 0 (a.stay 1 (omega arith)) (omega arith) in
    let c = one_move b.end 0 (b.stay 0 (omega arith) ∙ a.stands) increment in
    let d = then_run c (one_move c.end 0 c.stands store) in
    let e = then_run d (finishes d.end 0 1 d.stands (omega arith)) in
    let f = finishes e.end 1 (0 + lost) (e.stay 1 (omega arith) ∙ b.stands) (omega arith) in
    let total : f.end.mem ≡ 2 * niter - lost = omega (arith, f.counts, e.counts, d.counts) in
    (
      f.end,
      Reach-trans BareAdd a.reach
          (Reach-trans BareAdd b.reach (Reach-trans BareAdd e.reach f.reach)),
      f.stay 0 (omega arith) ∙ e.stands,
      f.stands,
      total,
      ground arith,
    )
