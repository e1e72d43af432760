-- ===== src/CondMailbox/Kept.antt =====
-- Every step of the two threads keeps their places and the contents of the buffer.
use cuda_open_mp.Common.{
  suc, ◌+◌, ◌%◌, ◌≤◌, ◌≡◌, refl, ap, ap₂, ◌∙◌, Bool, true, false, [], ◌∷◌, ◌++◌, arith,
}
use cuda_open_mp.Mailbox.{next_item}
use cuda_open_mp.CondMailbox.{Place, Holder, State, wake_up, Moves, Step, Reach}
use cuda_open_mp.CondMailbox.Places.{
  full, has_lock, asleep, signals, by_writer, by_reader, next_item-mod, one_holder, asleep_le,
  wake_lem, Inv,
}

module _ {s : State} (inv : Inv s) where
  -- A step that leaves the buffer alone.
  control-Inv :
      (w r : Place) (o : Holder)
      → has_lock w ≡ by_writer o
      → has_lock r ≡ by_reader o
      → asleep w ≤ full s.buffer_has_item + signals r
      → asleep r + full s.buffer_has_item ≤ 1 + signals w
      → Inv (record s { writer = w; reader = r; mutex = o })
  control-Inv w r o hw hr sw sr = record {
    stored = inv.stored;
    taken = inv.taken;
    writer_holds = hw;
    reader_holds = hr;
    writer_sleeps = sw;
    reader_sleeps = sr;
    one_place = inv.one_place;
    makes_next = inv.makes_next;
    holds = inv.holds;
    makes = inv.makes;
    gets = inv.gets;
  }

  produce-Inv :
      s.writer ≡ Place.inside
      → s.buffer_has_item ≡ false
      → Inv (record s {
        buffer = s.item;
        produced = s.produced ++ (s.item ∷ []);
        buffer_has_item = true;
        item = next_item s.item;
        writer = Place.signalling;
      })
  produce-Inv e b =
      let same : inv.stored ≡ inv.taken = omega (arith, inv.one_place, ap full b) in
      record {
        stored = suc inv.stored;
        taken = inv.taken;
        writer_holds = omega (arith, inv.writer_holds, ap has_lock e);
        reader_holds = inv.reader_holds;
        writer_sleeps = omega arith;
        reader_sleeps = omega (arith, asleep_le s.reader);
        one_place = omega (arith, same);
        makes_next = ap next_item inv.makes_next ∙ next_item-mod inv.stored;
        holds = λ h. inv.makes_next ∙ ap (λ q. q % 256) same;
        makes = ap₂ (λ l x. l ++ (x ∷ [])) inv.makes inv.makes_next;
        gets = inv.gets;
      }

  consume-Inv :
      s.reader ≡ Place.inside
      → s.buffer_has_item ≡ true
      → Inv (record s {
        consumed = s.consumed ++ (s.buffer ∷ []);
        buffer_has_item = false;
        reader = Place.signalling;
      })
  consume-Inv e b = record {
    stored = inv.stored;
    taken = suc inv.taken;
    writer_holds = inv.writer_holds;
    reader_holds = omega (arith, inv.reader_holds, ap has_lock e);
    writer_sleeps = omega (arith, asleep_le s.writer);
    reader_sleeps = omega arith;
    one_place = omega (arith, inv.one_place, ap full b);
    makes_next = inv.makes_next;
    holds = λ h. cc;
    makes = inv.makes;
    gets = ap₂ (λ l x. l ++ (x ∷ [])) inv.gets (inv.holds b);
  }

Moves-Inv : {s t : State} → Inv s → Moves s t → Inv t
Moves-Inv {s} inv (Moves.write_lock e o) =
    control-Inv inv Place.inside s.reader Holder.writer_function (omega arith)
      (omega (arith, inv.reader_holds, ap by_reader o)) (omega arith)
      (omega (arith, inv.reader_sleeps, ap signals e))
Moves-Inv inv (Moves.produce e b) = produce-Inv inv e b
Moves-Inv {s} inv (Moves.signal_not_empty e) =
    let (awake, lock, sig) = wake_lem s.reader in
    control-Inv inv Place.unlocking (wake_up s.reader) s.mutex
      (omega (arith, inv.writer_holds, ap has_lock e)) (omega (arith, inv.reader_holds, lock))
      (omega arith) (omega (arith, awake, full_le s.buffer_has_item))
  where
    full_le : (b : Bool) → full b ≤ 1
    full_le true = omega arith
    full_le false = omega arith
Moves-Inv {s} inv (Moves.wait_not_full e b) =
    control-Inv inv Place.waiting s.reader Holder.nobody (omega arith)
      (omega (arith, inv.reader_holds, inv.writer_holds, ap has_lock e, one_holder s.mutex))
      (omega (arith, ap full b)) (omega (arith, inv.reader_sleeps, ap signals e))
Moves-Inv {s} inv (Moves.write_relock e o) =
    control-Inv inv Place.unlocking s.reader Holder.writer_function (omega arith)
      (omega (arith, inv.reader_holds, ap by_reader o)) (omega arith)
      (omega (arith, inv.reader_sleeps, ap signals e))
Moves-Inv {s} inv (Moves.write_unlock e) =
    control-Inv inv Place.outside s.reader Holder.nobody (omega arith)
      (omega (arith, inv.reader_holds, inv.writer_holds, ap has_lock e, one_holder s.mutex))
      (omega arith) (omega (arith, inv.reader_sleeps, ap signals e))
Moves-Inv {s} inv (Moves.read_lock e o) =
    control-Inv inv s.writer Place.inside Holder.reader_function
      (omega (arith, inv.writer_holds, ap by_writer o)) (omega arith)
      (omega (arith, inv.writer_sleeps, ap signals e))
      (omega (arith, inv.reader_sleeps, ap asleep e))
Moves-Inv inv (Moves.consume e b) = consume-Inv inv e b
Moves-Inv {s} inv (Moves.signal_not_full e) =
    let (awake, lock, sig) = wake_lem s.writer in
    control-Inv inv (wake_up s.writer) Place.unlocking s.mutex
      (omega (arith, inv.writer_holds, lock)) (omega (arith, inv.reader_holds, ap has_lock e))
      (omega (arith, awake)) (omega (arith, inv.reader_sleeps, ap asleep e, sig))
Moves-Inv {s} inv (Moves.wait_not_empty e b) =
    control-Inv inv s.writer Place.waiting Holder.nobody
      (omega (arith, inv.reader_holds, inv.writer_holds, ap has_lock e, one_holder s.mutex))
      (omega arith) (omega (arith, inv.writer_sleeps, ap signals e)) (omega (arith, ap full b))
Moves-Inv {s} inv (Moves.read_relock e o) =
    control-Inv inv s.writer Place.unlocking Holder.reader_function
      (omega (arith, inv.writer_holds, ap by_writer o)) (omega arith)
      (omega (arith, inv.writer_sleeps, ap signals e))
      (omega (arith, inv.reader_sleeps, ap asleep e))
Moves-Inv {s} inv (Moves.read_unlock e) =
    control-Inv inv s.writer Place.outside Holder.nobody
      (omega (arith, inv.reader_holds, inv.writer_holds, ap has_lock e, one_holder s.mutex))
      (omega arith) (omega (arith, inv.writer_sleeps, ap signals e))
      (omega (arith, inv.reader_sleeps, ap asleep e))

pub Reach-Inv : {s : State} → Reach s → Inv s
Reach-Inv Reach.start = record {
  stored = 0;
  taken = 0;
  writer_holds = omega arith;
  reader_holds = omega arith;
  writer_sleeps = omega arith;
  reader_sleeps = omega arith;
  one_place = refl;
  makes_next = refl;
  holds = λ h. cc;
  makes = refl;
  gets = refl;
}
Reach-Inv (Reach.next r (Step.moves mv)) = Moves-Inv (Reach-Inv r) mv
Reach-Inv (Reach.next r (Step.writer_wakes {s} e)) =
    let inv = Reach-Inv r in
    control-Inv inv Place.woken s.reader s.mutex (omega (arith, inv.writer_holds, ap has_lock e))
      inv.reader_holds (omega arith) (omega (arith, inv.reader_sleeps, ap signals e))
Reach-Inv (Reach.next r (Step.reader_wakes {s} e)) =
    let inv = Reach-Inv r in
    control-Inv inv s.writer Place.woken s.mutex inv.writer_holds
      (omega (arith, inv.reader_holds, ap has_lock e))
      (omega (arith, inv.writer_sleeps, ap signals e))
      (omega (arith, inv.reader_sleeps, ap asleep e))
