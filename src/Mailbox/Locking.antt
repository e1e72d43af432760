-- ===== src/Mailbox/Locking.antt =====
-- When the mailbox programs of Pthread can go on.
use cuda_open_mp.Common.{
  Among, ℕ, ◌<◌, ◌≡◌, ◌≢◌, ◌⊎◌, inl, inr, refl, sym, ◌∙◌, Bool, true, false, none, some, List, [],
  ◌∷◌, arith, Bool-cases, Option-cases,
}
use mathlib.Core.Option.{none-ne-some}
use cuda_open_mp.Mailbox.{
  Program, Thread, writer, reader, testing, filling, printing, flagging, advancing, Pc, locking,
  inside, unlocking, delaying, timed_wait, sleeping, delayed, State, Writes, Reads, Step, writes,
  reads, Reach, start, later,
}
use cuda_open_mp.Mailbox.Locks.{holds, next_lock, Above, IsOrdered, held-next_lock, Reach-Orderly}

-- The reader has no stage for the item.
abbrev is_reader_place : Pc → Bool
is_reader_place (inside held filling) = false
is_reader_place (inside held advancing) = false
is_reader_place p = true

pub record Inv (s : State) : Type 0 where
  pub by_writer : (m : ℕ) → s.owner m ≡ some writer → Among m (holds s.writer_at)
  pub by_reader : (m : ℕ) → s.owner m ≡ some reader → Among m (holds s.reader_at)
  pub reader_place : is_reader_place s.reader_at ≡ true

module _ (p : Program) where
  Writes-Inv : {s t : State} {w : Pc} → Inv s → Writes p s w t → s.writer_at ≡ w → Inv t
  Writes-Inv inv (Writes.locked) e = record {
    by_writer = λ m h. ground (arith, inv.by_writer m, inv.by_reader m);
    by_reader = λ m h. ground (arith, inv.by_writer m, inv.by_reader m);
    reader_place = inv.reader_place;
  }
  Writes-Inv inv mv e = record {
    by_writer = λ m h. ground (arith, inv.by_writer m, inv.by_reader m);
    by_reader = λ m h. ground (arith, inv.by_writer m, inv.by_reader m);
    reader_place = ground (arith, inv.reader_place);
  }

  Reads-Inv : {s t : State} {r : Pc} → Inv s → Reads p s r t → s.reader_at ≡ r → Inv t
  Reads-Inv inv (Reads.locked) e = record {
    by_writer = λ m h. ground (arith, inv.by_writer m, inv.by_reader m);
    by_reader = λ m h. ground (arith, inv.by_writer m, inv.by_reader m);
    reader_place = refl;
  }
  Reads-Inv inv mv e = record {
    by_writer = λ m h. ground (arith, inv.by_writer m, inv.by_reader m);
    by_reader = λ m h. ground (arith, inv.by_writer m, inv.by_reader m);
    reader_place = ground (arith, inv.reader_place);
  }

  pub Reach-Inv : {s : State} → Reach p s → Inv s
  Reach-Inv start = record {
    by_writer = λ m h. ground arith;
    by_reader = λ m h. ground arith;
    reader_place = refl;
  }
  Reach-Inv (later r (writes mv)) = Writes-Inv (Reach-Inv r) mv refl
  Reach-Inv (later r (reads mv)) = Reads-Inv (Reach-Inv r) mv refl

  -- A thread that is not at a lock that is taken can go on.
  writer_goes :
      (s : State) (w : Pc)
      → ((m : ℕ) → next_lock w ≡ some m → s.owner m ≡ none)
      → (t : State) × Writes p s w t
  writer_goes s (locking held []) free = (_, Writes.locked)
  writer_goes s (locking held (m ∷ rest)) free = (_, Writes.lock (free m refl))
  writer_goes s (inside held testing) free = elim (Bool-cases s.buffer_has_item) [
    | inl full ↦ (_, Writes.has_item full)
    | inr empty ↦ (_, Writes.is_empty empty)
  ]
  writer_goes s (inside held filling) free = (_, Writes.fill)
  writer_goes s (inside held printing) free = (_, Writes.print)
  writer_goes s (inside held flagging) free = (_, Writes.flag)
  writer_goes s (inside held advancing) free = (_, Writes.advance)
  writer_goes s (unlocking []) free = elim (Bool-cases p.writer_delays) [
    | inl delays ↦ (_, Writes.delay delays)
    | inr none_there ↦ (_, Writes.restart none_there)
  ]
  writer_goes s (unlocking (m ∷ held)) free = (_, Writes.unlock)
  writer_goes s delaying free = (_, Writes.delay_lock (free 0 refl))
  writer_goes s timed_wait free = (_, Writes.sleep)
  writer_goes s sleeping free = (_, Writes.time_out (free 0 refl))
  writer_goes s delayed free = (_, Writes.delay_unlock)

  reader_goes :
      (s : State) (r : Pc)
      → is_reader_place r ≡ true
      → ((m : ℕ) → next_lock r ≡ some m → s.owner m ≡ none)
      → (t : State) × Reads p s r t
  reader_goes s (locking held []) e free = (_, Reads.locked)
  reader_goes s (locking held (m ∷ rest)) e free = (_, Reads.lock (free m refl))
  reader_goes s (inside held testing) e free = elim (Bool-cases s.buffer_has_item) [
    | inl full ↦ (_, Reads.has_item full)
    | inr empty ↦ (_, Reads.is_empty empty)
  ]
  reader_goes s (inside held filling) e free = cc
  reader_goes s (inside held printing) e free = (_, Reads.print)
  reader_goes s (inside held flagging) e free = (_, Reads.flag)
  reader_goes s (inside held advancing) e free = cc
  reader_goes s (unlocking []) e free = elim (Bool-cases p.reader_delays) [
    | inl delays ↦ (_, Reads.delay delays)
    | inr none_there ↦ (_, Reads.restart none_there)
  ]
  reader_goes s (unlocking (m ∷ held)) e free = (_, Reads.unlock)
  reader_goes s delaying e free = (_, Reads.delay_lock (free 0 refl))
  reader_goes s timed_wait e free = (_, Reads.sleep)
  reader_goes s sleeping e free = (_, Reads.time_out (free 0 refl))
  reader_goes s delayed e free = (_, Reads.delay_unlock)

  pub CanStep : State → Type 0
  CanStep s = (t : State) × Step p s t

  free_or_taken :
      (s : State) (pc : Pc)
      → ((m : ℕ) → next_lock pc ≡ some m → s.owner m ≡ none)
        ⊎ ((m : ℕ) × (next_lock pc ≡ some m) × ((t : Thread) × (s.owner m ≡ some t)))
  free_or_taken s pc = elim (Option-cases (next_lock pc)) [
    | inl at_none ↦ inl (λ m e. absurd (none-ne-some m (sym at_none ∙ e)))
    | inr (m, e) ↦ elim (Option-cases (s.owner m)) [
      | inl free ↦ inl (λ m' e'. ground arith)
      | inr taken ↦ inr (m, e, taken)
    ]
  ]

  -- Each thread waits for a lock that the other one holds.
  pub record Crossed (s : State) : Type 0 where
    pub wanted_by_writer : ℕ
    pub wanted_by_reader : ℕ
    pub writer_wants : next_lock s.writer_at ≡ some wanted_by_writer
    pub reader_wants : next_lock s.reader_at ≡ some wanted_by_reader
    pub reader_has : s.owner wanted_by_writer ≡ some reader
    pub writer_has : s.owner wanted_by_reader ≡ some writer

  -- A thread that takes a lock finds it free.
  Writes-next_lock :
      {s t : State} {w : Pc} {m : ℕ} → Writes p s w t → next_lock w ≡ some m → s.owner m ≡ none
  Writes-next_lock (Writes.lock h) e = ground arith
  Writes-next_lock (Writes.delay_lock h) e = ground arith
  Writes-next_lock (Writes.time_out h) e = ground arith
  Writes-next_lock mv e = cc

  Reads-next_lock :
      {s t : State} {r : Pc} {m : ℕ} → Reads p s r t → next_lock r ≡ some m → s.owner m ≡ none
  Reads-next_lock (Reads.lock h) e = ground arith
  Reads-next_lock (Reads.delay_lock h) e = ground arith
  Reads-next_lock (Reads.time_out h) e = ground arith
  Reads-next_lock mv e = cc

  pub Crossed-CanStep : {s : State} → Crossed s → ¬ CanStep s
  unfolding CanStep
  Crossed-CanStep c (t, writes mv) =
      absurd (none-ne-some reader (sym (Writes-next_lock mv c.writer_wants) ∙ c.reader_has))
  Crossed-CanStep c (t, reads mv) =
      absurd (none-ne-some writer (sym (Reads-next_lock mv c.reader_wants) ∙ c.writer_has))

  -- If no thread takes a lock twice, the program stands only where each thread waits for a lock
  -- that the other one holds.
  pub step_or_Crossed :
      {s : State}
      → IsOrdered ◌≢◌ p.writer_locks
      → IsOrdered ◌≢◌ p.reader_locks
      → Reach p s
      → CanStep s ⊎ Crossed s
  unfolding CanStep
  step_or_Crossed {s} ow or r =
      let inv = Reach-Inv r in
      let (o, q) = Reach-Orderly ◌≢◌ p ow or r in
      elim (free_or_taken s s.writer_at) [
        | inl free ↦ let (t, mv) = writer_goes s s.writer_at free in inl (t, writes mv)
        | inr (m, e, (writer, has)) ↦
            absurd (held-next_lock ◌≢◌ s.writer_at m m o e (inv.by_writer m has) refl)
        | inr (m, e, (reader, has)) ↦ elim (free_or_taken s s.reader_at) [
          | inl free ↦
              let (t, mv) = reader_goes s s.reader_at inv.reader_place free in inl (t, reads mv)
          | inr (m', e', (reader, has')) ↦
              absurd (held-next_lock ◌≢◌ s.reader_at m' m' q e' (inv.by_reader m' has') refl)
          | inr (m', e', (writer, has')) ↦ inr (record {
            wanted_by_writer = m;
            wanted_by_reader = m';
            writer_wants = e;
            reader_wants = e';
            reader_has = has;
            writer_has = has';
          })
        ]
      ]

  -- A program whose threads take their locks in ascending order, each on its own way, never stands:
  -- in every reachable state one of the threads can go on.
  pub no_deadlock_if_ascending :
      {s : State}
      → IsOrdered ◌<◌ p.writer_locks
      → IsOrdered ◌<◌ p.reader_locks
      → Reach p s
      → CanStep s
  no_deadlock_if_ascending {s} ow or r =
      let inv = Reach-Inv r in
      let (o, q) = Reach-Orderly ◌<◌ p ow or r in
      elim (step_or_Crossed (distinct p.writer_locks ow) (distinct p.reader_locks or) r) [
        | inl goes ↦ goes
        | inr c ↦
            let down =
              held-next_lock ◌<◌ s.writer_at _ _ o c.writer_wants (inv.by_writer _ c.writer_has) in
            let up =
              held-next_lock ◌<◌ s.reader_at _ _ q c.reader_wants (inv.by_reader _ c.reader_has) in
            absurd (omega arith)
      ]
    where
      apart : (k : ℕ) (l : List ℕ) → Above ◌<◌ k l → Above ◌≢◌ k l
      apart k [] h = tt
      apart k (m ∷ l) (h, hs) = (omega arith, apart k l hs)

      distinct : (l : List ℕ) → IsOrdered ◌<◌ l → IsOrdered ◌≢◌ l
      distinct [] h = tt
      distinct (m ∷ l) (h, hs) = (apart m l h, distinct l hs)
