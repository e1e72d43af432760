-- ===== src/Mailbox/Locks.antt =====
-- The order in which the threads of the mailbox programs of Pthread take their locks.
use cuda_open_mp.Common.{Among, ℕ, ◌≡◌, inl, inr, sym, subst, Option, none, some, List, [], ◌∷◌}
use mathlib.Core.Option.{none-ne-some}
use cuda_open_mp.Mailbox.{
  Program, Pc, locking, inside, unlocking, delaying, timed_wait, sleeping, delayed, State, Writes,
  Reads, writes, reads, Reach, start, later,
}

-- The locks that a thread holds at its place.
abbrev pub holds : Pc → List ℕ
holds (locking held rest) = held
holds (inside held stage) = held
holds (unlocking held) = held
holds delaying = []
holds timed_wait = 0 ∷ []
holds sleeping = []
holds delayed = 0 ∷ []

-- The lock that a thread is to take next, where it is at one.
abbrev pub next_lock : Pc → Option ℕ
next_lock (locking held (m ∷ rest)) = some m
next_lock delaying = some 0
next_lock sleeping = some 0
next_lock p = none

-- `k` stands in the relation `R` to every lock of the list.
abbrev pub Above : (ℕ → ℕ → Type 0) → ℕ → List ℕ → Type 0
Above R k [] = Unit {0}
Above R k (m ∷ l) = R k m × Above R k l

-- Each lock of the list stands in `R` to those behind it: ascending for `<`, distinct for `≢`.
abbrev pub IsOrdered : (ℕ → ℕ → Type 0) → List ℕ → Type 0
IsOrdered R [] = Unit {0}
IsOrdered R (m ∷ l) = Above R m l × IsOrdered R l

module _ (R : ℕ → ℕ → Type 0) where
  -- The locks that a thread holds stand in `R` to those that it is still to take.
  abbrev pub Orderly : Pc → Type 0
  Orderly (locking held rest) = ((k : ℕ) → Among k held → Above R k rest) × IsOrdered R rest
  Orderly p = Unit {0}

  pub held-next_lock :
      (pc : Pc) (m k : ℕ) → Orderly pc → next_lock pc ≡ some m → Among k (holds pc) → R k m
  held-next_lock (locking held (m' ∷ rest)) m k o e a =
      let same : m' ≡ m = cc in subst (R k) same (o.0 k a).0
  held-next_lock delaying m k o e a = absurd a
  held-next_lock sleeping m k o e a = absurd a
  held-next_lock (locking held []) m k o e a = absurd (none-ne-some m e)
  held-next_lock (inside held stage) m k o e a = absurd (none-ne-some m e)
  held-next_lock (unlocking held) m k o e a = absurd (none-ne-some m e)
  held-next_lock timed_wait m k o e a = absurd (none-ne-some m e)
  held-next_lock delayed m k o e a = absurd (none-ne-some m e)

  Orderly-lock :
      (held rest : List ℕ) (m : ℕ)
      → Orderly (locking held (m ∷ rest))
      → Orderly (locking (m ∷ held) rest)
  Orderly-lock held rest m (below, (above, ordered)) = (
    λ k a. elim a [
      | inl same ↦ subst (λ q. Above R q rest) (sym same) above
      | inr b ↦ (below k b).1
    ],
    ordered,
  )

  module _ (p : Program) (ow : IsOrdered R p.writer_locks) (or : IsOrdered R p.reader_locks) where
    Writes-Orderly :
        {s t : State} {w : Pc}
        → Orderly w
        → Orderly s.reader_at
        → Writes p s w t
        → Orderly t.writer_at × Orderly t.reader_at
    Writes-Orderly o q (Writes.lock {held} {rest} {m} h) = (Orderly-lock held rest m o, q)
    Writes-Orderly o q (Writes.restart h) = ((λ k a. absurd a, ow), q)
    Writes-Orderly o q Writes.delay_unlock = ((λ k a. absurd a, ow), q)
    Writes-Orderly o q Writes.locked = (tt, q)
    Writes-Orderly o q (Writes.is_empty h) = (tt, q)
    Writes-Orderly o q (Writes.has_item h) = (tt, q)
    Writes-Orderly o q Writes.fill = (tt, q)
    Writes-Orderly o q Writes.print = (tt, q)
    Writes-Orderly o q Writes.flag = (tt, q)
    Writes-Orderly o q Writes.advance = (tt, q)
    Writes-Orderly o q Writes.unlock = (tt, q)
    Writes-Orderly o q (Writes.delay h) = (tt, q)
    Writes-Orderly o q (Writes.delay_lock h) = (tt, q)
    Writes-Orderly o q Writes.sleep = (tt, q)
    Writes-Orderly o q (Writes.time_out h) = (tt, q)

    Reads-Orderly :
        {s t : State} {r : Pc}
        → Orderly r
        → Orderly s.writer_at
        → Reads p s r t
        → Orderly t.writer_at × Orderly t.reader_at
    Reads-Orderly o q (Reads.lock {held} {rest} {m} h) = (q, Orderly-lock held rest m o)
    Reads-Orderly o q (Reads.restart h) = (q, (λ k a. absurd a, or))
    Reads-Orderly o q Reads.delay_unlock = (q, (λ k a. absurd a, or))
    Reads-Orderly o q Reads.locked = (q, tt)
    Reads-Orderly o q (Reads.is_empty h) = (q, tt)
    Reads-Orderly o q (Reads.has_item h) = (q, tt)
    Reads-Orderly o q Reads.print = (q, tt)
    Reads-Orderly o q Reads.flag = (q, tt)
    Reads-Orderly o q Reads.unlock = (q, tt)
    Reads-Orderly o q (Reads.delay h) = (q, tt)
    Reads-Orderly o q (Reads.delay_lock h) = (q, tt)
    Reads-Orderly o q Reads.sleep = (q, tt)
    Reads-Orderly o q (Reads.time_out h) = (q, tt)

    pub Reach-Orderly : {s : State} → Reach p s → Orderly s.writer_at × Orderly s.reader_at
    Reach-Orderly start = ((λ k a. absurd a, ow), (λ k a. absurd a, or))
    Reach-Orderly (later r (writes mv)) = let (o, q) = Reach-Orderly r in Writes-Orderly o q mv
    Reach-Orderly (later r (reads mv)) = let (o, q) = Reach-Orderly r in Reads-Orderly q o mv
