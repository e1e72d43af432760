-- ===== src/Mailbox/Tests.antt =====
-- Tests and witnesses for the mailbox programs.
use cuda_open_mp.Common.{ℕ, ◌≡◌, ◌⊎◌, refl, [], ◌∷◌, ◌++◌, ℕ_discrete}
use cuda_open_mp.Mailbox.{
  locking, State, Writes, Reads, writes, reads, Reach, start, later, reader_writer, deadlock,
}
use cuda_open_mp.Mailbox.Delivery.{items, consumed-produced}
use cuda_open_mp.Mailbox.Locking.{CanStep, no_deadlock_if_ascending}
use cuda_open_mp.Mailbox.Deadlock.{deadlock_lem}

-- The writer of reader_writer.c up to its flag.
abbrev one_item : (s : State) × Reach reader_writer s
unfolding ℕ_discrete
one_item = (
  _,
  later
      (later
        (later
          (later (later (later start (writes (Writes.lock refl))) (writes Writes.locked))
            (writes (Writes.is_empty refl)))
          (writes Writes.fill))
        (writes Writes.print))
      (writes Writes.flag),
)

consumed-produced_example :
    ((n : ℕ) × (one_item.0.produced ≡ items n))
    × ((one_item.0.produced ≡ one_item.0.consumed)
        ⊎ (one_item.0.produced ≡ one_item.0.consumed ++ (one_item.0.buffer ∷ [])))
consumed-produced_example = consumed-produced reader_writer one_item.1

no_deadlock_if_ascending_example : CanStep reader_writer one_item.0
no_deadlock_if_ascending_example =
    no_deadlock_if_ascending reader_writer (tt, tt) (tt, tt) one_item.1

-- Each thread of deadlock.c holds its first lock.
abbrev first_locks : (s : State) × Reach deadlock s
unfolding ℕ_discrete
first_locks = (_, later (later start (writes (Writes.lock refl))) (reads (Reads.lock refl)))

deadlock_lem_example :
    CanStep deadlock first_locks.0
    ⊎ ((first_locks.0.writer_at ≡ locking (0 ∷ []) (1 ∷ []))
        × (first_locks.0.reader_at ≡ locking (1 ∷ []) (0 ∷ []))
        × (¬ CanStep deadlock first_locks.0))
deadlock_lem_example = deadlock_lem first_locks.1
