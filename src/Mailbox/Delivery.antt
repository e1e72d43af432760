-- ===== src/Mailbox/Delivery.antt =====
-- What the writer and the reader of the mailbox programs of Pthread print.
use cuda_open_mp.Common.{
  ℕ, zero, suc, ◌%◌, ◌≡◌, ◌⊎◌, inl, inr, ap₂, Bool-cases, refl, ap, ◌∙◌, Bool, true, false, List,
  [], ◌∷◌, ◌++◌, arith, if◌then◌else◌, not,
}
use cuda_open_mp.Mailbox.{
  Program, filling, printing, flagging, advancing, Pc, inside, State, next_item, Writes, Reads,
  writes, reads, Reach, start, later,
}

-- The first `n` items: 0 to 255, over and over.
unfoldable pub items : ℕ → List ℕ
items zero = []
items (suc n) = items n ++ (n % 256 ∷ [])

-- The writer is to set the flag.
abbrev fills : Pc → Bool
fills (inside held filling) = true
fills (inside held printing) = true
fills (inside held flagging) = true
fills p = false

-- The reader is to clear the flag.
abbrev empties : Pc → Bool
empties (inside held printing) = true
empties (inside held flagging) = true
empties p = false

abbrev at_flag : Pc → Bool
at_flag (inside held flagging) = true
at_flag p = false

abbrev at_print : Pc → Bool
at_print (inside held printing) = true
at_print p = false

-- The writer has printed an item and not yet gone on to the next.
abbrev announced : Pc → Bool
announced (inside held flagging) = true
announced (inside held advancing) = true
announced p = false

-- An item is printed by the writer and not by the reader.
abbrev is_due : Bool → Pc → Pc → Bool
is_due true w r = not (at_flag r)
is_due false w r = at_flag w

record Inv (s : State) : Type 0 where
  flag_down : fills s.writer_at ≡ true → s.buffer_has_item ≡ false
  flag_up : empties s.reader_at ≡ true → s.buffer_has_item ≡ true
  filled : at_print s.writer_at ≡ true → s.buffer ≡ s.item
  due :
      is_due s.buffer_has_item s.writer_at s.reader_at ≡ true
      → s.produced ≡ s.consumed ++ (s.buffer ∷ [])
  none_due : is_due s.buffer_has_item s.writer_at s.reader_at ≡ false → s.produced ≡ s.consumed
  count : ℕ
  counted : s.produced ≡ items (if announced s.writer_at then suc count else count)
  next : s.item ≡ count % 256

next_item-mod : (k : ℕ) → next_item (k % 256) ≡ suc k % 256
next_item-mod k = ground arith

module _ (p : Program) where
  -- A thread goes to the flag only where the flag lets it.
  may_fill :
      {s t : State} {w : Pc}
      → Writes p s w t
      → fills w ≡ false
      → fills t.writer_at ≡ true
      → s.buffer_has_item ≡ false
  may_fill (Writes.is_empty h) e f = h
  may_fill mv e f = ground arith

  may_empty :
      {s t : State} {r : Pc}
      → Reads p s r t
      → empties r ≡ false
      → empties t.reader_at ≡ true
      → s.buffer_has_item ≡ true
  may_empty (Reads.has_item h) e f = h
  may_empty mv e f = ground arith

  Writes-Inv : {s t : State} {w : Pc} → Inv s → Writes p s w t → s.writer_at ≡ w → Inv t
  unfolding items
  Writes-Inv {s} inv (Writes.print {held}) e =
      let down : s.buffer_has_item ≡ false = ground (arith, inv.flag_down) in
      let same : s.produced ≡ s.consumed = ground (arith, inv.none_due) in
      let filled : s.buffer ≡ s.item = ground (arith, inv.filled) in
      let before : s.produced ≡ items inv.count = ground (arith, inv.counted) in
      record {
        flag_down = λ h. down;
        flag_up = inv.flag_up;
        filled = λ h. ground arith;
        due = λ h. ap (λ l. l ++ (s.buffer ∷ [])) same;
        none_due = λ h. ground arith;
        count = inv.count;
        counted = ap₂ (λ l v. l ++ (v ∷ [])) before (filled ∙ inv.next);
        next = inv.next;
      }
  Writes-Inv {s} inv (Writes.advance {held}) e = record {
    flag_down = λ h. ground arith;
    flag_up = inv.flag_up;
    filled = λ h. ground arith;
    due = λ h. ground (arith, inv.due);
    none_due = λ h. ground (arith, inv.none_due);
    count = suc inv.count;
    counted = ground (arith, inv.counted);
    next = ap next_item inv.next ∙ next_item-mod inv.count;
  }
  Writes-Inv {s} inv mv e = record {
    flag_down = λ h. ground (arith, inv.flag_down, inv.flag_up, may_fill mv);
    flag_up = λ h. ground (arith, inv.flag_down, inv.flag_up, may_fill mv);
    filled = λ h. ground (arith, inv.filled);
    due = λ h. ground (arith, inv.due, inv.flag_down, inv.flag_up);
    none_due = λ h. ground (arith, inv.none_due, inv.flag_down, inv.flag_up);
    count = inv.count;
    counted = ground (arith, inv.counted);
    next = ground (arith, inv.next);
  }

  Reads-Inv : {s t : State} {r : Pc} → Inv s → Reads p s r t → s.reader_at ≡ r → Inv t
  Reads-Inv {s} inv (Reads.print {held}) e =
      let up : s.buffer_has_item ≡ true = ground (arith, inv.flag_up) in
      let same : s.produced ≡ s.consumed ++ (s.buffer ∷ []) = ground (arith, inv.due) in
      record {
        flag_down = inv.flag_down;
        flag_up = λ h. up;
        filled = inv.filled;
        due = λ h. ground arith;
        none_due = λ h. same;
        count = inv.count;
        counted = inv.counted;
        next = inv.next;
      }
  Reads-Inv {s} inv mv e = record {
    flag_down = λ h. ground (arith, inv.flag_down, inv.flag_up, may_empty mv);
    flag_up = λ h. ground (arith, inv.flag_down, inv.flag_up, may_empty mv);
    filled = λ h. ground (arith, inv.filled);
    due = λ h. ground (arith, inv.due, inv.flag_down, inv.flag_up);
    none_due = λ h. ground (arith, inv.none_due, inv.flag_down, inv.flag_up);
    count = inv.count;
    counted = ground (arith, inv.counted);
    next = ground (arith, inv.next);
  }

  Reach-Inv : {s : State} → Reach p s → Inv s
  unfolding items
  Reach-Inv start = record {
    flag_down = λ h. refl;
    flag_up = λ h. ground arith;
    filled = λ h. refl;
    due = λ h. ground arith;
    none_due = λ h. refl;
    count = 0;
    counted = refl;
    next = refl;
  }
  Reach-Inv (later r (writes mv)) = Writes-Inv (Reach-Inv r) mv refl
  Reach-Inv (later r (reads mv)) = Reads-Inv (Reach-Inv r) mv refl

  -- Whatever locks the two threads take, and in every interleaving of their accesses, the writer
  -- prints 0 to 255 over and over, and the reader prints the same but for at most the last of them.
  pub consumed-produced :
      {s : State}
      → Reach p s
      → ((n : ℕ) × (s.produced ≡ items n))
        × ((s.produced ≡ s.consumed) ⊎ (s.produced ≡ s.consumed ++ (s.buffer ∷ [])))
  consumed-produced {s} r =
      let inv = Reach-Inv r in
      (
        (if announced s.writer_at then suc inv.count else inv.count, inv.counted),
        elim (Bool-cases (is_due s.buffer_has_item s.writer_at s.reader_at)) [
          | inl due ↦ inr (inv.due due)
          | inr none_due ↦ inl (inv.none_due none_due)
        ],
      )
