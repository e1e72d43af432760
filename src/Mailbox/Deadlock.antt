-- ===== src/Mailbox/Deadlock.antt =====
-- Where Pthread/deadlock.c stands.
use mathlib.Core.Option.{none-ne-some}
use cuda_open_mp.Common.{
  Among, ℕ, ◌≡◌, ◌≢◌, ◌⊎◌, inl, inr, refl, subst, sym, some, List, [], ◌∷◌, arith,
}
use cuda_open_mp.Mailbox.{
  Pc, locking, inside, unlocking, delaying, timed_wait, sleeping, delayed, State, Writes, Reads,
  writes, reads, Reach, start, later, deadlock,
}
use cuda_open_mp.Mailbox.Locks.{holds, next_lock}
use cuda_open_mp.Mailbox.Locking.{CanStep, step_or_Crossed, Crossed-CanStep, Reach-Inv}

-- The locks that a thread holds and is to take are those of its function.
abbrev WriterPlace : Pc → Type 0
WriterPlace (locking [] rest) = rest ≡ 0 ∷ 1 ∷ []
WriterPlace (locking (a ∷ []) rest) = (a ≡ 0) × (rest ≡ 1 ∷ [])
WriterPlace (locking (a ∷ b ∷ held) rest) = rest ≡ []
WriterPlace p = Unit {0}

abbrev ReaderPlace : Pc → Type 0
ReaderPlace (locking [] rest) = rest ≡ 1 ∷ 0 ∷ []
ReaderPlace (locking (a ∷ []) rest) = (a ≡ 1) × (rest ≡ 0 ∷ [])
ReaderPlace (locking (a ∷ b ∷ held) rest) = rest ≡ []
ReaderPlace p = Unit {0}

WriterPlace-lock :
    (held rest : List ℕ) (m : ℕ)
    → WriterPlace (locking held (m ∷ rest))
    → WriterPlace (locking (m ∷ held) rest)
WriterPlace-lock [] rest m e = (cc, cc)
WriterPlace-lock (a ∷ []) rest m (e, e') = cc
WriterPlace-lock (a ∷ b ∷ held) rest m e = cc

ReaderPlace-lock :
    (held rest : List ℕ) (m : ℕ)
    → ReaderPlace (locking held (m ∷ rest))
    → ReaderPlace (locking (m ∷ held) rest)
ReaderPlace-lock [] rest m e = (cc, cc)
ReaderPlace-lock (a ∷ []) rest m (e, e') = cc
ReaderPlace-lock (a ∷ b ∷ held) rest m e = cc

Writes-WriterPlace :
    {s t : State} {w : Pc} → Writes deadlock s w t → WriterPlace w → WriterPlace t.writer_at
Writes-WriterPlace (Writes.lock {held} {rest} {m} h) p = WriterPlace-lock held rest m p
Writes-WriterPlace mv p = ground arith

Writes-reader_at : {s t : State} {w : Pc} → Writes deadlock s w t → t.reader_at ≡ s.reader_at
Writes-reader_at (Writes.lock h) = refl
Writes-reader_at mv = refl

Reads-ReaderPlace :
    {s t : State} {r : Pc} → Reads deadlock s r t → ReaderPlace r → ReaderPlace t.reader_at
Reads-ReaderPlace (Reads.lock {held} {rest} {m} h) p = ReaderPlace-lock held rest m p
Reads-ReaderPlace mv p = ground arith

Reads-writer_at : {s t : State} {r : Pc} → Reads deadlock s r t → t.writer_at ≡ s.writer_at
Reads-writer_at (Reads.lock h) = refl
Reads-writer_at mv = refl

Reach-Places : {s : State} → Reach deadlock s → WriterPlace s.writer_at × ReaderPlace s.reader_at
Reach-Places start = (refl, refl)
Reach-Places (later r (writes mv)) =
    let (p, q) = Reach-Places r in
    (Writes-WriterPlace mv p, subst ReaderPlace (sym (Writes-reader_at mv)) q)
Reach-Places (later r (reads mv)) =
    let (p, q) = Reach-Places r in
    (subst WriterPlace (sym (Reads-writer_at mv)) p, Reads-ReaderPlace mv q)

writer_crossed :
    (w : Pc) (m k : ℕ)
    → WriterPlace w
    → next_lock w ≡ some m
    → Among k (holds w)
    → w ≡ locking (0 ∷ []) (1 ∷ [])
writer_crossed (locking [] rest) m k p e a = absurd a
writer_crossed (locking (b ∷ []) rest) m k (p, q) e a = cc
writer_crossed (locking (b ∷ c ∷ held) rest) m k p e a = ground arith
writer_crossed delaying m k p e a = absurd a
writer_crossed sleeping m k p e a = absurd a
writer_crossed (inside held stage) m k p e a = absurd (none-ne-some m e)
writer_crossed (unlocking held) m k p e a = absurd (none-ne-some m e)
writer_crossed timed_wait m k p e a = absurd (none-ne-some m e)
writer_crossed delayed m k p e a = absurd (none-ne-some m e)

reader_crossed :
    (r : Pc) (m k : ℕ)
    → ReaderPlace r
    → next_lock r ≡ some m
    → Among k (holds r)
    → r ≡ locking (1 ∷ []) (0 ∷ [])
reader_crossed (locking [] rest) m k p e a = absurd a
reader_crossed (locking (b ∷ []) rest) m k (p, q) e a = cc
reader_crossed (locking (b ∷ c ∷ held) rest) m k p e a = ground arith
reader_crossed delaying m k p e a = absurd a
reader_crossed sleeping m k p e a = absurd a
reader_crossed (inside held stage) m k p e a = absurd (none-ne-some m e)
reader_crossed (unlocking held) m k p e a = absurd (none-ne-some m e)
reader_crossed timed_wait m k p e a = absurd (none-ne-some m e)
reader_crossed delayed m k p e a = absurd (none-ne-some m e)

-- deadlock.c stands in exactly one way: the writer holds mutex1 and waits for mutex2, and the reader
-- holds mutex2 and waits for mutex1. There neither can go on; in every other reachable state one of
-- them can.
pub deadlock_lem :
    {s : State}
    → Reach deadlock s
    → CanStep deadlock s
      ⊎ ((s.writer_at ≡ locking (0 ∷ []) (1 ∷ []))
          × (s.reader_at ≡ locking (1 ∷ []) (0 ∷ []))
          × (¬ CanStep deadlock s))
deadlock_lem {s} r =
    let inv = Reach-Inv deadlock r in
    let (p, q) = Reach-Places r in
    let apart : 0 ≢ 1 = omega arith in
    let apart' : 1 ≢ 0 = omega arith in
    elim (step_or_Crossed deadlock ((apart, tt), (tt, tt)) ((apart', tt), (tt, tt)) r) [
      | inl goes ↦ inl goes
      | inr c ↦ inr (
        writer_crossed s.writer_at _ _ p c.writer_wants (inv.by_writer _ c.writer_has),
        reader_crossed s.reader_at _ _ q c.reader_wants (inv.by_reader _ c.reader_has),
        Crossed-CanStep deadlock c,
      )
    ]
