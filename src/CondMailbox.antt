-- ===== src/CondMailbox.antt =====
-- The one-place mailbox with condition variables of Pthread/reader_writer_cond.c. The accesses to the
-- buffer and its flag between two calls of the pthread interface are one step, as they run under the
-- mutex. The busy loop and the prints of the branches that wait are left out.
pub mod Places
pub mod Kept
pub mod Delivery
mod Tests
use cuda_open_mp.Common.{ℕ, ◌≡◌, Bool, true, false, List, [], ◌∷◌, ◌++◌}
use cuda_open_mp.Mailbox.{next_item}

-- A thread before its lock, behind it, before its signal, in the wait, woken and without the mutex
-- yet, and before its unlock.
pub data Place : Type 0 where
  outside : Place
  inside : Place
  signalling : Place
  waiting : Place
  woken : Place
  unlocking : Place

pub data Holder : Type 0 where
  nobody : Holder
  writer_function : Holder
  reader_function : Holder

-- The globals, the item of the writer, and what each thread has printed of the items.
pub record State : Type 0 where
  pub buffer : ℕ
  pub buffer_has_item : Bool
  pub mutex : Holder
  pub writer : Place
  pub item : ℕ
  pub produced : List ℕ
  pub reader : Place
  pub consumed : List ℕ

-- `pthread_cond_signal` on the variable of a thread.
unfoldable pub wake_up : Place → Place
wake_up Place.outside = Place.outside
wake_up Place.inside = Place.inside
wake_up Place.signalling = Place.signalling
wake_up Place.waiting = Place.woken
wake_up Place.woken = Place.woken
wake_up Place.unlocking = Place.unlocking

pub data Moves : State → State → Type 0 where
  write_lock :
      {s : State}
      → s.writer ≡ Place.outside
      → s.mutex ≡ Holder.nobody
      → Moves s (record s { mutex = Holder.writer_function; writer = Place.inside })
  produce :
      {s : State}
      → s.writer ≡ Place.inside
      → s.buffer_has_item ≡ false
      → Moves s (record s {
        buffer = s.item;
        produced = s.produced ++ (s.item ∷ []);
        buffer_has_item = true;
        item = next_item s.item;
        writer = Place.signalling;
      })
  signal_not_empty :
      {s : State}
      → s.writer ≡ Place.signalling
      → Moves s (record s { writer = Place.unlocking; reader = wake_up s.reader })
  wait_not_full :
      {s : State}
      → s.writer ≡ Place.inside
      → s.buffer_has_item ≡ true
      → Moves s (record s { mutex = Holder.nobody; writer = Place.waiting })
  write_relock :
      {s : State}
      → s.writer ≡ Place.woken
      → s.mutex ≡ Holder.nobody
      → Moves s (record s { mutex = Holder.writer_function; writer = Place.unlocking })
  write_unlock :
      {s : State}
      → s.writer ≡ Place.unlocking
      → Moves s (record s { mutex = Holder.nobody; writer = Place.outside })
  read_lock :
      {s : State}
      → s.reader ≡ Place.outside
      → s.mutex ≡ Holder.nobody
      → Moves s (record s { mutex = Holder.reader_function; reader = Place.inside })
  consume :
      {s : State}
      → s.reader ≡ Place.inside
      → s.buffer_has_item ≡ true
      → Moves s (record s {
        consumed = s.consumed ++ (s.buffer ∷ []);
        buffer_has_item = false;
        reader = Place.signalling;
      })
  signal_not_full :
      {s : State}
      → s.reader ≡ Place.signalling
      → Moves s (record s { reader = Place.unlocking; writer = wake_up s.writer })
  wait_not_empty :
      {s : State}
      → s.reader ≡ Place.inside
      → s.buffer_has_item ≡ false
      → Moves s (record s { mutex = Holder.nobody; reader = Place.waiting })
  read_relock :
      {s : State}
      → s.reader ≡ Place.woken
      → s.mutex ≡ Holder.nobody
      → Moves s (record s { mutex = Holder.reader_function; reader = Place.unlocking })
  read_unlock :
      {s : State}
      → s.reader ≡ Place.unlocking
      → Moves s (record s { mutex = Holder.nobody; reader = Place.outside })

-- The moves, and waits that end without a signal.
pub data Step : State → State → Type 0 where
  moves : {s t : State} → Moves s t → Step s t
  writer_wakes : {s : State} → s.writer ≡ Place.waiting → Step s (record s { writer = Place.woken })
  reader_wakes : {s : State} → s.reader ≡ Place.waiting → Step s (record s { reader = Place.woken })

abbrev pub init : State
init = record {
  buffer = 0;
  buffer_has_item = false;
  mutex = Holder.nobody;
  writer = Place.outside;
  item = 0;
  produced = [];
  reader = Place.outside;
  consumed = [];
}

-- The states that the two threads reach together.
pub data Reach : State → Type 0 where
  start : Reach init
  next : {s t : State} → Reach s → Step s t → Reach t
