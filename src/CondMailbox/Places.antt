-- ===== src/CondMailbox/Places.antt =====
-- Where the two threads stand, and what the buffer holds.
use cuda_open_mp.Common.{
  ℕ, zero, suc, ◌+◌, ◌%◌, ◌≤◌, ◌≡◌, refl, Bool, true, false, List, [], ◌∷◌, ◌++◌, arith,
}
use cuda_open_mp.Mailbox.{next_item}
use cuda_open_mp.CondMailbox.{Place, Holder, State, wake_up}

-- The first `k` bytes that the writer makes.
abbrev pub bytes : ℕ → List ℕ
bytes zero = []
bytes (suc k) = bytes k ++ ((k % 256) ∷ [])

abbrev pub full : Bool → ℕ
full true = 1
full false = 0

-- Whether a thread at a place has the mutex.
abbrev pub has_lock : Place → ℕ
has_lock Place.outside = 0
has_lock Place.inside = 1
has_lock Place.signalling = 1
has_lock Place.waiting = 0
has_lock Place.woken = 0
has_lock Place.unlocking = 1

abbrev pub asleep : Place → ℕ
asleep Place.outside = 0
asleep Place.inside = 0
asleep Place.signalling = 0
asleep Place.waiting = 1
asleep Place.woken = 0
asleep Place.unlocking = 0

abbrev pub signals : Place → ℕ
signals Place.outside = 0
signals Place.inside = 0
signals Place.signalling = 1
signals Place.waiting = 0
signals Place.woken = 0
signals Place.unlocking = 0

abbrev pub by_writer : Holder → ℕ
by_writer Holder.nobody = 0
by_writer Holder.writer_function = 1
by_writer Holder.reader_function = 0

abbrev pub by_reader : Holder → ℕ
by_reader Holder.nobody = 0
by_reader Holder.writer_function = 0
by_reader Holder.reader_function = 1

pub next_item-mod : (k : ℕ) → next_item (k % 256) ≡ suc k % 256
next_item-mod k = ground arith

pub one_holder : (o : Holder) → by_writer o + by_reader o ≤ 1
one_holder Holder.nobody = omega arith
one_holder Holder.writer_function = omega arith
one_holder Holder.reader_function = omega arith

pub asleep_le : (at : Place) → asleep at ≤ 1
asleep_le Place.outside = omega arith
asleep_le Place.inside = omega arith
asleep_le Place.signalling = omega arith
asleep_le Place.waiting = omega arith
asleep_le Place.woken = omega arith
asleep_le Place.unlocking = omega arith

-- A signal wakes a thread and changes nothing else.
pub wake_lem :
    (at : Place)
    → (asleep (wake_up at) ≡ 0)
      × (has_lock (wake_up at) ≡ has_lock at)
      × (signals (wake_up at) ≡ signals at)
unfolding wake_up
wake_lem Place.outside = (refl, refl, refl)
wake_lem Place.inside = (refl, refl, refl)
wake_lem Place.signalling = (refl, refl, refl)
wake_lem Place.waiting = (refl, refl, refl)
wake_lem Place.woken = (refl, refl, refl)
wake_lem Place.unlocking = (refl, refl, refl)

-- A thread has the mutex where it is the holder; it sleeps only while its condition fails or the other is
-- about to signal; and the buffer holds the one item that was stored and not taken.
pub record Inv (s : State) : Type 0 where
  pub stored : ℕ
  pub taken : ℕ
  pub writer_holds : has_lock s.writer ≡ by_writer s.mutex
  pub reader_holds : has_lock s.reader ≡ by_reader s.mutex
  pub writer_sleeps : asleep s.writer ≤ full s.buffer_has_item + signals s.reader
  pub reader_sleeps : asleep s.reader + full s.buffer_has_item ≤ 1 + signals s.writer
  pub one_place : full s.buffer_has_item + taken ≡ stored
  pub makes_next : s.item ≡ stored % 256
  pub holds : s.buffer_has_item ≡ true → s.buffer ≡ taken % 256
  pub makes : s.produced ≡ bytes stored
  pub gets : s.consumed ≡ bytes taken
