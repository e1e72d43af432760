-- ===== src/Mailbox.antt =====
-- Pthread/reader_writer.c, reader_writer_no_mutex.c, reader_writer_diff_mutex.c,
-- reader_writer_delay.c, reader_writer_delay1.c and deadlock.c: a writer hands items to a reader
-- through `buffer` and the flag `buffer_has_item`. The programs differ in the locks they take around
-- that and in a delay behind it.
pub mod Delivery
pub mod Locks
pub mod Locking
pub mod Deadlock
mod Tests
use cuda_open_mp.Common.{
  ℕ, ◌+◌, ◌≡◌, Bool, true, false, Option, none, some, List, [], ◌∷◌, ◌++◌, ◌==◌, if◌then◌else◌,
}
use cuda_open_mp.Common.Threads.{update}

-- The locks that each thread takes, in order, and whether it sleeps behind its round.
pub record Program : Type 0 where
  pub writer_locks : List ℕ
  pub reader_locks : List ℕ
  pub writer_delays : Bool
  pub reader_delays : Bool

pub data Thread : Type 0 where
  writer reader : Thread

-- Where a thread stands under its locks.
pub data Stage : Type 0 where
  testing : Stage  -- `if (buffer_has_item == ...)`
  filling : Stage  -- `buffer = item`
  printing : Stage  -- `printf`
  flagging : Stage  -- `buffer_has_item = ...`
  advancing : Stage  -- `if (item++ == -1) item = 0`

-- Where a thread stands, with the locks that it holds, the last one first, and those it is to take.
pub data Pc : Type 0 where
  locking : List ℕ → List ℕ → Pc
  inside : List ℕ → Stage → Pc
  unlocking : List ℕ → Pc
  delaying : Pc  -- at the lock before `pthread_cond_timedwait`
  timed_wait : Pc
  sleeping : Pc  -- in the call, without the lock
  delayed : Pc  -- behind the call

-- `produced` and `consumed` are the values that the threads print. A char is its value modulo 256.
pub record State : Type 0 where
  pub buffer : ℕ
  pub buffer_has_item : Bool
  pub item : ℕ
  pub produced : List ℕ
  pub consumed : List ℕ
  pub owner : ℕ → Option Thread
  pub writer_at : Pc
  pub reader_at : Pc

-- `if (item++ == -1) item = 0`
abbrev pub next_item : ℕ → ℕ
next_item item = if item == 255 then 0 else item + 1

module _ (p : Program) where
  abbrev pub writer_restarts : Pc
  writer_restarts = locking [] p.writer_locks

  abbrev pub reader_restarts : Pc
  reader_restarts = locking [] p.reader_locks

  -- One step of `writer_function`.
  pub data Writes (s : State) : Pc → State → Type 0 where
    lock :
        {held rest : List ℕ} {m : ℕ}
        → s.owner m ≡ none
        → Writes s (locking held (m ∷ rest)) (record s {
          owner = update s.owner m (some writer);
          writer_at = locking (m ∷ held) rest;
        })
    locked :
        {held : List ℕ} → Writes s (locking held []) (record s { writer_at = inside held testing })
    is_empty :
        {held : List ℕ}
        → s.buffer_has_item ≡ false
        → Writes s (inside held testing) (record s { writer_at = inside held filling })
    has_item :
        {held : List ℕ}
        → s.buffer_has_item ≡ true
        → Writes s (inside held testing) (record s { writer_at = unlocking held })
    fill :
        {held : List ℕ}
        → Writes s
            (inside held filling)
            (record s { buffer = s.item; writer_at = inside held printing })
    print :
        {held : List ℕ}
        → Writes s (inside held printing) (record s {
          produced = s.produced ++ (s.buffer ∷ []);
          writer_at = inside held flagging;
        })
    flag :
        {held : List ℕ}
        → Writes s
            (inside held flagging)
            (record s { buffer_has_item = true; writer_at = inside held advancing })
    advance :
        {held : List ℕ}
        → Writes s
            (inside held advancing)
            (record s { item = next_item s.item; writer_at = unlocking held })
    unlock :
        {held : List ℕ} {m : ℕ}
        → Writes s
            (unlocking (m ∷ held))
            (record s { owner = update s.owner m none; writer_at = unlocking held })
    delay : p.writer_delays ≡ true → Writes s (unlocking []) (record s { writer_at = delaying })
    restart :
        p.writer_delays ≡ false → Writes s (unlocking []) (record s { writer_at = writer_restarts })
    delay_lock :
        s.owner 0 ≡ none
        → Writes s delaying
            (record s { owner = update s.owner 0 (some writer); writer_at = timed_wait })
    sleep : Writes s timed_wait (record s { owner = update s.owner 0 none; writer_at = sleeping })
    time_out :
        s.owner 0 ≡ none
        → Writes s sleeping
            (record s { owner = update s.owner 0 (some writer); writer_at = delayed })
    delay_unlock :
        Writes s delayed (record s { owner = update s.owner 0 none; writer_at = writer_restarts })

  -- One step of `reader_function`.
  pub data Reads (s : State) : Pc → State → Type 0 where
    lock :
        {held rest : List ℕ} {m : ℕ}
        → s.owner m ≡ none
        → Reads s (locking held (m ∷ rest)) (record s {
          owner = update s.owner m (some reader);
          reader_at = locking (m ∷ held) rest;
        })
    locked :
        {held : List ℕ} → Reads s (locking held []) (record s { reader_at = inside held testing })
    has_item :
        {held : List ℕ}
        → s.buffer_has_item ≡ true
        → Reads s (inside held testing) (record s { reader_at = inside held printing })
    is_empty :
        {held : List ℕ}
        → s.buffer_has_item ≡ false
        → Reads s (inside held testing) (record s { reader_at = unlocking held })
    print :
        {held : List ℕ}
        → Reads s (inside held printing) (record s {
          consumed = s.consumed ++ (s.buffer ∷ []);
          reader_at = inside held flagging;
        })
    flag :
        {held : List ℕ}
        → Reads s
            (inside held flagging)
            (record s { buffer_has_item = false; reader_at = unlocking held })
    unlock :
        {held : List ℕ} {m : ℕ}
        → Reads s
            (unlocking (m ∷ held))
            (record s { owner = update s.owner m none; reader_at = unlocking held })
    delay : p.reader_delays ≡ true → Reads s (unlocking []) (record s { reader_at = delaying })
    restart :
        p.reader_delays ≡ false → Reads s (unlocking []) (record s { reader_at = reader_restarts })
    delay_lock :
        s.owner 0 ≡ none
        → Reads s delaying
            (record s { owner = update s.owner 0 (some reader); reader_at = timed_wait })
    sleep : Reads s timed_wait (record s { owner = update s.owner 0 none; reader_at = sleeping })
    time_out :
        s.owner 0 ≡ none
        → Reads s sleeping
            (record s { owner = update s.owner 0 (some reader); reader_at = delayed })
    delay_unlock :
        Reads s delayed (record s { owner = update s.owner 0 none; reader_at = reader_restarts })

  pub data Step (s : State) : State → Type 0 where
    writes : {t : State} → Writes s s.writer_at t → Step s t
    reads : {t : State} → Reads s s.reader_at t → Step s t

  abbrev pub init : State
  init = record {
    buffer = 0;
    buffer_has_item = false;
    item = 0;
    produced = [];
    consumed = [];
    owner = λ m. none;
    writer_at = writer_restarts;
    reader_at = reader_restarts;
  }

  pub data Reach : State → Type 0 where
    start : Reach init
    later : {s t : State} → Reach s → Step s t → Reach t

abbrev pub reader_writer : Program
reader_writer = record {
  writer_locks = 0 ∷ [];
  reader_locks = 0 ∷ [];
  writer_delays = false;
  reader_delays = false;
}

abbrev pub reader_writer_no_mutex : Program
reader_writer_no_mutex = record {
  writer_locks = [];
  reader_locks = [];
  writer_delays = false;
  reader_delays = false;
}

-- mutex1 is 0 and mutex2 is 1.
abbrev pub reader_writer_diff_mutex : Program
reader_writer_diff_mutex = record {
  writer_locks = 0 ∷ [];
  reader_locks = 1 ∷ [];
  writer_delays = false;
  reader_delays = false;
}

abbrev pub reader_writer_delay : Program
reader_writer_delay = record reader_writer { writer_delays = true }

abbrev pub reader_writer_delay1 : Program
reader_writer_delay1 = record reader_writer { reader_delays = true }

abbrev pub deadlock : Program
deadlock = record {
  writer_locks = 0 ∷ 1 ∷ [];
  reader_locks = 1 ∷ 0 ∷ [];
  writer_delays = false;
  reader_delays = false;
}
