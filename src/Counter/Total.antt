-- ===== src/Counter/Total.antt =====
-- The count of Pthread/thread_with_mutex.c, thread_with_sem.c and 2thread_count.c, under a lock.
use cuda_open_mp.Common.{
  ℕ, zero, suc, ◌+◌, ◌*◌, ◌≤◌, ◌≡◌, refl, sym, ap, ◌∙◌, Bool, true, false, arith, subst, ap₂,
}
use cuda_open_mp.Common.Threads.{System, Reach, Reach-invariant, update}
use cuda_open_mp.Common.Lock.{Lock, Excludes, semaphore-Excludes, IsSound-le}
use cuda_open_mp.Counter.{
  niter, Shared, Pc, loop, locked, loaded, incremented, stored, ended, Adds, created, init, SemAdd,
  sem_init, boom,
}
use cuda_open_mp.Counter.Stores.{stores, total-store, total-same}
use cuda_open_mp.Counter.Adds.{take, load, increment, store, give, done}

-- Between the lock and the unlock.
abbrev pub critical : Pc → Bool
critical (loop k) = false
critical ended = false
critical (locked k) = true
critical (loaded k tmp) = true
critical (incremented k tmp) = true
critical (stored k) = true

-- `tmp` is up to date.
abbrev Follows : ℕ → Pc → Type 0
Follows count (loaded k tmp) = tmp ≡ count
Follows count (incremented k tmp) = tmp ≡ count + 1
Follows count p = Unit {0}

module _ {L : Type 0} {lock : Lock L} (ex : Excludes lock) (n : ℕ) where
  record Inv (m : Shared L) (pc : ℕ → Pc) : Type 0 where
    sound : ex.IsSound m.lock
    taken : (i : ℕ) → critical (pc i) ≡ true → ex.is_free m.lock ≡ false
    unique : (i j : ℕ) → critical (pc i) ≡ true → critical (pc j) ≡ true → i ≡ j
    follows : (i : ℕ) → Follows m.count (pc i)
    total : stores n (pc 0) + stores n (pc 1) ≡ m.count
    others : (i : ℕ) → pc (suc (suc i)) ≡ ended

  module _ {m : Shared L} {pc : ℕ → Pc} (inv : Inv m pc) (i : ℕ) where
    open inv use {sound, taken, unique, follows, total, others}

    Adds-sound :
        {m' : Shared L} {p p' : Pc} → Adds lock n i m p m' p' → pc i ≡ p → ex.IsSound m'.lock
    Adds-sound (take k a) e = ex.acquires-IsSound sound a
    Adds-sound (give r) e = ex.releases-IsSound sound (taken i (ap critical e)) r
    Adds-sound mv e = ground arith

    Adds-taken :
        {m' : Shared L} {p p' : Pc}
        → Adds lock n i m p m' p'
        → pc i ≡ p
        → (j : ℕ) → critical (update pc i p' j) ≡ true
        → ex.is_free m'.lock ≡ false
    Adds-taken (take k a) e j h = ex.acquires-taken sound a
    Adds-taken (give r) e j h = ground (arith, unique i j, taken j)
    Adds-taken mv e j h = ground (arith, taken i, taken j)

    Adds-unique :
        {m' : Shared L} {p p' : Pc}
        → Adds lock n i m p m' p'
        → pc i ≡ p
        → (a b : ℕ) → critical (update pc i p' a) ≡ true
        → critical (update pc i p' b) ≡ true
        → a ≡ b
    Adds-unique (take k q) e a b ha hb =
        let free = ex.acquires-is_free sound q in ground (arith, taken a, taken b, unique a b)
    Adds-unique mv e a b ha hb = ground (arith, unique a b, unique i a, unique i b)

    Adds-Follows :
        {m' : Shared L} {p p' : Pc}
        → Adds lock n i m p m' p'
        → pc i ≡ p
        → (j : ℕ) → Follows m'.count (update pc i p' j)
    Adds-Follows (take k a) e j = ground (arith, follows j)
    Adds-Follows mv e j = ground (arith, follows j, follows i, unique i j)

    Adds-others :
        {m' : Shared L} {p p' : Pc}
        → Adds lock n i m p m' p'
        → pc i ≡ p
        → (j : ℕ) → update pc i p' (suc (suc j)) ≡ ended
    Adds-others (take k a) e j = ground (arith, others j)
    Adds-others mv e j = ground (arith, others j)

  Adds-total :
      {m m' : Shared L} {pc : ℕ → Pc} {p p' : Pc} (i : ℕ)
      → Inv m pc
      → Adds lock n i m p m' p'
      → pc i ≡ p
      → stores n (update pc i p' 0) + stores n (update pc i p' 1) ≡ m'.count
  Adds-total {m} {pc} i inv (store {k} {tmp}) e =
      total-store n pc i k tmp m.count e (subst (Follows m.count) e (inv.follows i)) inv.total
        inv.others
  Adds-total {pc} {p' = p'} i inv (done h) e =
      total-same n pc i p' (sym h ∙ sym (ap (stores n) e)) ∙ inv.total
  Adds-total {pc} {p' = p'} i inv (take h a) e =
      total-same n pc i p' (sym (ap (stores n) e)) ∙ inv.total
  Adds-total {pc} {p' = p'} i inv load e = total-same n pc i p' (sym (ap (stores n) e)) ∙ inv.total
  Adds-total {pc} {p' = p'} i inv increment e =
      total-same n pc i p' (sym (ap (stores n) e)) ∙ inv.total
  Adds-total {pc} {p' = p'} i inv (give r) e =
      total-same n pc i p' (sym (ap (stores n) e)) ∙ inv.total

  Adds-Inv :
      (i : ℕ) (m m' : Shared L) (pc : ℕ → Pc) (p' : Pc)
      → Inv m pc
      → Adds lock n i m (pc i) m' p'
      → Inv m' (update pc i p')
  Adds-Inv i m m' pc p' inv mv = record {
    sound = Adds-sound inv i mv refl;
    taken = Adds-taken inv i mv refl;
    unique = Adds-unique inv i mv refl;
    follows = Adds-Follows inv i mv refl;
    total = Adds-total i inv mv refl;
    others = Adds-others inv i mv refl;
  }

  created-idle : (i : ℕ) → critical (created i) ≡ false
  created-idle zero = refl
  created-idle (suc zero) = refl
  created-idle (suc (suc i)) = refl

  created-Follows : (i : ℕ) → Follows 0 (created i)
  created-Follows zero = tt
  created-Follows (suc zero) = tt
  created-Follows (suc (suc i)) = tt

  Inv-init : Inv (init lock).mem created
  Inv-init = record {
    sound = ex.initial-IsSound;
    taken = λ i h. ground (arith, created-idle i);
    unique = λ i j h k. ground (arith, created-idle i);
    follows = created-Follows;
    total = refl;
    others = λ i. refl;
  }

  -- Under a lock that excludes, `count` is at every point of every interleaving the number of stores
  -- that the two threads have made.
  pub count-stores :
      {s : System (Shared L) Pc}
      → Reach (Adds lock n) (init lock) s
      → s.mem.count ≡ stores n (s.pc 0) + stores n (s.pc 1)
  count-stores r = sym (Reach-invariant (Adds lock n) Inv Adds-Inv Inv-init r).total

  -- Under any lock that excludes, `main` finds 2 * `n` behind the joins, whatever the interleaving.
  pub no_boom :
      {s : System (Shared L) Pc}
      → Reach (Adds lock n) (init lock) s
      → s.pc 0 ≡ ended
      → s.pc 1 ≡ ended
      → (s.mem.count ≡ 2 * n) × (boom n s.mem.count ≡ false)
  no_boom {s} r first second =
      let c = count-stores r in
      let total : s.mem.count ≡ 2 * n =
        c ∙ ap₂ (λ a b. stores n a + stores n b) first second ∙ omega arith in
      (total, ground arith)

-- The semaphore of thread_with_sem.c counts every increment too, and its value is never above 1.
pub SemAdd-no_boom :
    {s : System (Shared ℕ) Pc}
    → Reach SemAdd sem_init s
    → (s.mem.lock ≤ 1) × (s.pc 0 ≡ ended → s.pc 1 ≡ ended → boom niter s.mem.count ≡ false)
SemAdd-no_boom r = (
  IsSound-le
      (Reach-invariant SemAdd (Inv semaphore-Excludes niter) (Adds-Inv semaphore-Excludes niter)
        (Inv-init semaphore-Excludes niter) r).sound,
  λ first second. (no_boom semaphore-Excludes niter r first second).1,
)
