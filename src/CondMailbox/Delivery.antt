-- ===== src/CondMailbox/Delivery.antt =====
-- The items arrive in order, and the two threads never sleep at once.
use cuda_open_mp.Common.{
  ℕ, zero, suc, ◌+◌, ◌%◌, ◌≡◌, ◌⊎◌, inl, inr, refl, sym, ap, ◌∙◌, Bool-cases, arith, length,
  length-snoc,
}
use cuda_open_mp.CondMailbox.{Place, Holder, State, Moves, Reach}
use cuda_open_mp.CondMailbox.Places.{
  bytes, full, has_lock, asleep, signals, by_writer, by_reader, Inv,
}
use cuda_open_mp.CondMailbox.Kept.{Reach-Inv}

length-bytes : (k : ℕ) → length (bytes k) ≡ k
length-bytes zero = refl
length-bytes (suc k) = sym (length-snoc (bytes k) (k % 256)) ∙ omega (arith, length-bytes k)

-- Both threads print the bytes 0, 1, ..., 255, 0, ... in this order, each item once, and the reader
-- has printed all that the writer has, except the one in the buffer.
pub delivered_by_signals :
    {s : State}
    → Reach s
    → (s.produced ≡ bytes (length s.produced))
      × (s.consumed ≡ bytes (length s.consumed))
      × (full s.buffer_has_item + length s.consumed ≡ length s.produced)
delivered_by_signals {s} r =
    let inv = Reach-Inv r in
    let made : length s.produced ≡ inv.stored = ap length inv.makes ∙ length-bytes inv.stored in
    let got : length s.consumed ≡ inv.taken = ap length inv.gets ∙ length-bytes inv.taken in
    (
      inv.makes ∙ ap bytes (sym made),
      inv.gets ∙ ap bytes (sym got),
      omega (arith, made, got, inv.one_place),
    )

module _ {s : State} (inv : Inv s) where
  writer_inside : (at : Place) → s.writer ≡ at → has_lock at ≡ 1 → (t : State) × Moves s t
  writer_inside Place.outside e h = absurd (omega (arith, h))
  writer_inside Place.inside e h = elim (Bool-cases s.buffer_has_item) [
    | inl holds ↦ (_, Moves.wait_not_full e holds)
    | inr room ↦ (_, Moves.produce e room)
  ]
  writer_inside Place.signalling e h = (_, Moves.signal_not_empty e)
  writer_inside Place.waiting e h = absurd (omega (arith, h))
  writer_inside Place.woken e h = absurd (omega (arith, h))
  writer_inside Place.unlocking e h = (_, Moves.write_unlock e)

  reader_inside : (at : Place) → s.reader ≡ at → has_lock at ≡ 1 → (t : State) × Moves s t
  reader_inside Place.outside e h = absurd (omega (arith, h))
  reader_inside Place.inside e h = elim (Bool-cases s.buffer_has_item) [
    | inl holds ↦ (_, Moves.consume e holds)
    | inr room ↦ (_, Moves.wait_not_empty e room)
  ]
  reader_inside Place.signalling e h = (_, Moves.signal_not_full e)
  reader_inside Place.waiting e h = absurd (omega (arith, h))
  reader_inside Place.woken e h = absurd (omega (arith, h))
  reader_inside Place.unlocking e h = (_, Moves.read_unlock e)

  -- While nobody has the mutex, a thread that does not wait can take it.
  writer_free :
      (at : Place)
      → s.writer ≡ at
      → has_lock at ≡ 0
      → s.mutex ≡ Holder.nobody
      → ((t : State) × Moves s t) ⊎ (s.writer ≡ Place.waiting)
  writer_free Place.outside e h o = inl (_, Moves.write_lock e o)
  writer_free Place.inside e h o = absurd (omega (arith, h))
  writer_free Place.signalling e h o = absurd (omega (arith, h))
  writer_free Place.waiting e h o = inr e
  writer_free Place.woken e h o = inl (_, Moves.write_relock e o)
  writer_free Place.unlocking e h o = absurd (omega (arith, h))

  reader_free :
      (at : Place)
      → s.reader ≡ at
      → has_lock at ≡ 0
      → s.mutex ≡ Holder.nobody
      → ((t : State) × Moves s t) ⊎ (s.reader ≡ Place.waiting)
  reader_free Place.outside e h o = inl (_, Moves.read_lock e o)
  reader_free Place.inside e h o = absurd (omega (arith, h))
  reader_free Place.signalling e h o = absurd (omega (arith, h))
  reader_free Place.waiting e h o = inr e
  reader_free Place.woken e h o = inl (_, Moves.read_relock e o)
  reader_free Place.unlocking e h o = absurd (omega (arith, h))

  goes : (o : Holder) → s.mutex ≡ o → (t : State) × Moves s t
  goes Holder.writer_function o =
      writer_inside s.writer refl (omega (arith, inv.writer_holds, ap by_writer o))
  goes Holder.reader_function o =
      reader_inside s.reader refl (omega (arith, inv.reader_holds, ap by_reader o))
  goes Holder.nobody o =
      elim (writer_free s.writer refl (omega (arith, inv.writer_holds, ap by_writer o)) o) [
        | inl step ↦ step
        | inr w ↦
            elim (reader_free s.reader refl (omega (arith, inv.reader_holds, ap by_reader o)) o) [
              | inl step ↦ step
              | inr r ↦ absurd (
                  omega (
                    arith,
                    inv.writer_sleeps,
                    inv.reader_sleeps,
                    ap asleep w,
                    ap asleep r,
                    ap signals w,
                    ap signals r,
                  ))
            ]
      ]

-- In every state that the threads reach one of them can go on without a wake-up that no signal made:
-- they never sleep at once, and no signal is lost.
pub never_asleep : {s : State} → Reach s → (t : State) × Moves s t
never_asleep {s} r = goes (Reach-Inv r) s.mutex refl
