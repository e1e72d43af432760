-- ===== src/Common/Threads.antt =====
-- Threads that share a memory, interleaved one access at a time.
use Prim.Native.Nat.{ℕ}
use mathlib.Core.Logic.{ite}
use native.Mathlib.Decide.{ℕ_discrete}

abbrev pub update {ℓ} : {A : Type ℓ} → (ℕ → A) → ℕ → A → ℕ → A
update f i a j = ite (ℕ_discrete i j) a (f j)

-- The shared memory, and where each thread stands.
pub record System (M P : Type 0) : Type 0 where
  pub mem : M
  pub pc : ℕ → P

-- `Move i m p m' p'`: thread `i`, standing at `p`, may take the memory `m` to `m'` and go on at `p'`.
module _ {M P : Type 0} (Move : ℕ → M → P → M → P → Type 0) where
  pub data Step (s : System M P) : System M P → Type 0 where
    pick :
        (i : ℕ) {m : M} {p : P}
        → Move i s.mem (s.pc i) m p
        → Step s (record { mem = m; pc = update s.pc i p })

  pub data Reach (s : System M P) : System M P → Type 0 where
    start : Reach s s
    later : {t u : System M P} → Reach s t → Step t u → Reach s u

  -- What holds at the start and is kept by each move holds in every reachable state.
  pub Reach-invariant :
      (I : M → (ℕ → P) → Type 0)
      (keep : (i : ℕ) (m m' : M) (pc : ℕ → P) (p' : P)
        → I m pc
        → Move i m (pc i) m' p'
        → I m' (update pc i p'))
      {s t : System M P}
      → I s.mem s.pc
      → Reach s t
      → I t.mem t.pc
  Reach-invariant I keep h start = h
  Reach-invariant I keep h (later {t} r (pick i {m} {p} mv)) =
      keep i t.mem m t.pc p (Reach-invariant I keep h r) mv

  pub Reach-trans : {s t u : System M P} → Reach s t → Reach t u → Reach s u
  Reach-trans r start = r
  Reach-trans r (later q st) = later (Reach-trans r q) st
