-- ===== src/Server/Workers/Ids.antt =====
-- The request ids of the worker threads.
use cuda_open_mp.Common.{ℕ, ◌+◌, ◌≤◌, ◌<◌, ◌≡◌, refl, Bool, true, false, Option, none, some, arith}
use cuda_open_mp.Common.Threads.{
  System, update, Reach, Reach-invariant, Reach-trans, start, later, pick,
}
use cuda_open_mp.Server.Workers.{
  Shared, Pc, locked, got, bumped, serving, Move, accept, lock, increment, init,
}
use cuda_open_mp.Server.Text.Decimal.{int_end}

-- Between `pthread_mutex_lock` and `pthread_mutex_unlock`.
abbrev pub critical : Pc → Bool
critical locked = true
critical (got r) = true
critical (bumped r) = true
critical _ = false

-- The id that a worker works under.
abbrev pub id_of : Pc → Option ℕ
id_of (got r) = some r
id_of (bumped r) = some r
id_of (serving r) = some r
id_of _ = none

-- What the id of a worker says of the next one.
abbrev pub IsBelow : ℕ → Pc → Type 0
IsBelow next (got r) = r ≡ next
IsBelow next (bumped r) = r < next
IsBelow next (serving r) = r < next
IsBelow next _ = Unit

record Inv (m : Shared) (pc : ℕ → Pc) : Type 0 where
  holds : (i : ℕ) → critical (pc i) ≡ true → m.owner ≡ some i
  below : (i : ℕ) → IsBelow m.next_request_id (pc i)
  distinct : (i j r : ℕ) → id_of (pc i) ≡ some r → id_of (pc j) ≡ some r → i ≡ j
  in_range : m.next_request_id < int_end

-- The premise of a move, for the catch-all clauses below.
abbrev Guard : {i : ℕ} {m m' : Shared} {p p' : Pc} → Move i m p m' p' → Type 0
Guard {m} (lock _) = m.owner ≡ none
Guard {m} (increment _) = m.next_request_id + 1 < int_end
Guard _ = Unit

guard : {i : ℕ} {m m' : Shared} {p p' : Pc} (mv : Move i m p m' p') → Guard mv
guard (lock g) = g
guard (increment g) = g
guard _ = tt

module _ {m : Shared} {pc : ℕ → Pc} (inv : Inv m pc) (i : ℕ) where
  open inv use {holds, below, distinct}

  Move-holds :
      {m' : Shared} {p p' : Pc}
      → Move i m p m' p'
      → pc i ≡ p
      → (j : ℕ) → critical (update pc i p' j) ≡ true
      → m'.owner ≡ some j
  Move-holds accept e j h = ground (arith, holds j, holds i)
  Move-holds mv e j h = ground (arith, guard mv, holds j, holds i)

  Move-IsBelow :
      {m' : Shared} {p p' : Pc}
      → Move i m p m' p'
      → pc i ≡ p
      → (j : ℕ) → IsBelow m'.next_request_id (update pc i p' j)
  Move-IsBelow accept e j = ground (arith, below j)
  Move-IsBelow mv e j = ground (arith, below i, below j, holds i, holds j)

  Move-distinct :
      {m' : Shared} {p p' : Pc}
      → Move i m p m' p'
      → pc i ≡ p
      → (a b r : ℕ) → id_of (update pc i p' a) ≡ some r
      → id_of (update pc i p' b) ≡ some r
      → a ≡ b
  Move-distinct accept e a b r ha hb = ground (arith, distinct a b r)
  Move-distinct mv e a b r ha hb = ground (
    arith,
    distinct a b r,
    distinct i a r,
    distinct i b r,
    below a,
    below b,
    holds a,
    holds b,
    holds i,
  )

Move-in_range :
    {i : ℕ} {m m' : Shared} {p p' : Pc}
    → m.next_request_id < int_end
    → Move i m p m' p'
    → m'.next_request_id < int_end
Move-in_range h (increment g) = g
Move-in_range h accept = h
Move-in_range h mv = ground arith

Move-Inv :
    (i : ℕ) (m m' : Shared) (pc : ℕ → Pc) (p' : Pc)
    → Inv m pc
    → Move i m (pc i) m' p'
    → Inv m' (update pc i p')
Move-Inv i m m' pc p' inv mv = record {
  holds = Move-holds inv i mv refl;
  below = Move-IsBelow inv i mv refl;
  distinct = Move-distinct inv i mv refl;
  in_range = Move-in_range inv.in_range mv;
}

Inv-init : Inv init.mem init.pc
Inv-init = record {
  holds = λ i h. cc;
  below = λ i. tt;
  distinct = λ i j r h k. cc;
  in_range = omega arith;
}

Reach-Inv : {s : System Shared Pc} → Reach Move init s → Inv s.mem s.pc
Reach-Inv r = Reach-invariant Move Inv Move-Inv Inv-init r

-- At most one worker at a time is between the lock and the unlock of `accept_mutex`.
pub mutual_exclusion :
    {s : System Shared Pc} (i j : ℕ)
    → Reach Move init s
    → critical (s.pc i) ≡ true
    → critical (s.pc j) ≡ true
    → i ≡ j
mutual_exclusion {s} i j r hi hj =
    ground (arith, (Reach-Inv r).holds i hi, (Reach-Inv r).holds j hj)

id_of-in_range :
    (next id : ℕ) (p : Pc) → IsBelow next p → next < int_end → id_of p ≡ some id → id < int_end
id_of-in_range next id (got r) b h e = ground arith
id_of-in_range next id (bumped r) b h e = ground arith
id_of-in_range next id (serving r) b h e = ground arith
id_of-in_range next id p b h e = ground arith

-- Up to the round in which the counter, an `int`, overflows, the request id of a worker is an `int`
-- that is not negative, and two workers never work under one request id at the same time.
pub request_ids_distinct :
    {s : System Shared Pc} (i j id : ℕ)
    → Reach Move init s
    → id_of (s.pc i) ≡ some id
    → id_of (s.pc j) ≡ some id
    → (i ≡ j) × (id < int_end)
request_ids_distinct {s} i j id r hi hj =
    let inv = Reach-Inv r in
    (
      inv.distinct i j id hi hj,
      id_of-in_range s.mem.next_request_id id (s.pc i) (inv.below i) inv.in_range hi,
    )

Move-next :
    {i : ℕ} {m m' : Shared} {p p' : Pc} → Move i m p m' p' → m.next_request_id ≤ m'.next_request_id
Move-next accept = omega arith
Move-next mv = omega arith

Reach-next :
    {s t : System Shared Pc} → Reach Move s t → s.mem.next_request_id ≤ t.mem.next_request_id
Reach-next start = omega arith
Reach-next (later r (pick i mv)) = omega (arith, Reach-next r, Move-next mv)

-- No id is handed out again: while or after a worker serves a request under one id, every id that is
-- read from the counter is greater.
pub request_ids_increase :
    {s t : System Shared Pc} (i j id later_id : ℕ)
    → Reach Move init s
    → Reach Move s t
    → s.pc i ≡ serving id
    → t.pc j ≡ got later_id
    → id < later_id
request_ids_increase {s} {t} i j id later_id r r' hi hj =
    ground
      (arith, (Reach-Inv r).below i, (Reach-Inv (Reach-trans Move r r')).below j, Reach-next r')
