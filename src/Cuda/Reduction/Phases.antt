-- ===== src/Cuda/Reduction/Phases.antt =====
-- A round of the reductions: threads that add at different places, in any order.
use mathlib.Core.List.{Perm}
use mathlib.Core.List as List
use mathlib.Core.Option as Option
use mathlib.Core.Logic.{∥∥₁_elim}
use cuda_open_mp.Common.{
  ℕ, zero, suc, ◌+◌, ◌≤◌, ◌<◌, ◌≡◌, ◌≢◌, inl, inr, refl, sym, ap, ap₂, ◌∙◌, subst, some, List, [],
  ◌∷◌, Bool, true, false, arith, Bool-cases, length, length-set, get_or, get_or-set_self,
  get_or-set_ne, get_elem?-eq-get_or, set, set-set_ne, upto, ℕ_discrete, if◌then◌else◌,
}
use cuda_open_mp.Common.Orders.{run_in, run_in-Perm}
use cuda_open_mp.Cuda.Launch.{Within, Within-Permᴰ, upto-Within, perform}
use cuda_open_mp.Cuda.Reduction.{add_to, fold_thread}

Within-le : (k n : ℕ) (l : List ℕ) → k ≤ n → Within (0 + k) l → Within n l
Within-le k n [] h w = tt
Within-le k n (m ∷ l) h (lt, w) = (omega arith, Within-le k n l h w)

module _ {F : Type 0} (nought : F) (plus : F → F → F) (active : ℕ → Bool) (stride : ℕ) where
  -- The write of an active thread.
  added : ℕ → List F → List F
  added tid v = set v tid (plus (get_or v tid nought) (get_or v (tid + stride) nought))

  turn : ℕ → List F → List F
  turn tid v = if active tid then added tid v else v

  length-turn : (tid : ℕ) (v : List F) → length (turn tid v) ≡ length v
  unfolding turn added
  length-turn tid v = elim (Bool-cases (active tid)) [
    | inl on ↦ rw (on) (length-set v tid _)
    | inr off ↦ rw (off) refl
  ]

  module _ (n : ℕ) (fits : (tid : ℕ) → active tid ≡ true → tid < n → tid + stride < n) where
    fold_thread-turn :
        (tid : ℕ) (v : List F)
        → tid < n
        → length v ≡ n
        → fold_thread plus active stride tid v ≡ some (turn tid v)
    unfolding fold_thread add_to turn added
    fold_thread-turn tid v lt l = elim (Bool-cases (active tid)) [
      | inl on ↦
          rw
            (
              on,
              get_elem?-eq-get_or v tid nought (omega arith),
              get_elem?-eq-get_or v (tid + stride) nought (omega (arith, fits tid on lt)),
            )
            refl
      | inr off ↦ rw (off) refl
    ]

    phase-turns :
        (order : List ℕ) (v : List F)
        → Within n order
        → length v ≡ n
        → perform (fold_thread plus active stride) order v ≡ some (run_in turn order v)
    unfolding perform run_in
    phase-turns [] v w l = refl
    phase-turns (tid ∷ order) v (lt, w) l =
        rw (fold_thread-turn tid v lt l) (phase-turns order (turn tid v) w (length-turn tid v ∙ l))

  length-turns : (order : List ℕ) (v : List F) → length (run_in turn order v) ≡ length v
  unfolding run_in
  length-turns [] v = refl
  length-turns (tid ∷ order) v = length-turns order (turn tid v) ∙ length-turn tid v

  get_or-turn_ne : (i m : ℕ) (v : List F) → i ≢ m → get_or (turn i v) m nought ≡ get_or v m nought
  unfolding turn added
  get_or-turn_ne i m v ne = elim (Bool-cases (active i)) [
    | inl on ↦ rw (on) (get_or-set_ne v i m _ nought ne)
    | inr off ↦ rw (off) refl
  ]

  get_or-turn_off :
      (i m : ℕ) (v : List F) → active m ≡ false → get_or (turn i v) m nought ≡ get_or v m nought
  unfolding turn added
  get_or-turn_off i m v off = elim (ℕ_discrete i m) [
    | yes same ↦ let off' : active i ≡ false = ap active same ∙ off in rw (off') refl
    | no ne ↦ get_or-turn_ne i m v ne
  ]

  get_or-turn_self :
      (m : ℕ) (v : List F)
      → m < length v
      → active m ≡ true
      → get_or (turn m v) m nought ≡ plus (get_or v m nought) (get_or v (m + stride) nought)
  unfolding turn added
  get_or-turn_self m v lt on = rw (on) (get_or-set_self v m _ nought lt)

  -- No active thread reads what another one writes.
  module _ (apart : (i j : ℕ) → active i ≡ true → active j ≡ true → i ≢ j + stride) where
    swap_turns : (i j : ℕ) (v : List F) → i ≢ j → turn j (turn i v) ≡ turn i (turn j v)
    unfolding turn added
    swap_turns i j v ne = elim (Bool-cases (active i)) [
      | inr off ↦ rw (off) refl
      | inl on ↦ elim (Bool-cases (active j)) [
        | inr off ↦ rw (on, off) refl
        | inl on' ↦
            let ne' : j ≢ i = λ e. ne (sym e) in
            rw
              (
                on,
                on',
                get_or-set_ne v i j (plus (get_or v i nought) (get_or v (i + stride) nought)) nought
                    ne,
                get_or-set_ne v i (j + stride)
                    (plus (get_or v i nought) (get_or v (i + stride) nought)) nought
                    (apart i j on on'),
                get_or-set_ne v j i (plus (get_or v j nought) (get_or v (j + stride) nought)) nought
                    ne',
                get_or-set_ne v j (i + stride)
                    (plus (get_or v j nought) (get_or v (j + stride) nought)) nought
                    (apart j i on' on),
              )
              (set-set_ne v i j _ _ ne)
      ]
    ]

    turn_comm : (i j : ℕ) (v : List F) → turn j (turn i v) ≡ turn i (turn j v)
    turn_comm i j v = elim (ℕ_discrete i j) [
      | yes same ↦ subst (λ q. turn q (turn i v) ≡ turn i (turn q v)) same refl
      | no ne ↦ swap_turns i j v ne
    ]

    -- What the turns of `upto k i` leave: the sums at the active threads among them.
    get_or-turns_out :
        (k i m : ℕ) (v : List F)
        → m < i
        → get_or (run_in turn (upto k i) v) m nought ≡ get_or v m nought
    unfolding run_in
    get_or-turns_out zero i m v h = refl
    get_or-turns_out (suc k) i m v h =
        get_or-turns_out k (suc i) m (turn i v) (omega arith)
        ∙ get_or-turn_ne i m v (λ e. absurd (omega (arith, e)))

    get_or-turn_far :
        (i m : ℕ) (v : List F)
        → active m ≡ true
        → get_or (turn i v) (m + stride) nought ≡ get_or v (m + stride) nought
    unfolding turn
    get_or-turn_far i m v on = elim (Bool-cases (active i)) [
      | inl on' ↦ get_or-turn_ne i (m + stride) v (apart i m on' on)
      | inr off ↦ rw (off, turn) refl
    ]

    get_or-turns :
        (k i m : ℕ) (v : List F)
        → i ≤ m
        → m < i + k
        → m < length v
        → active m ≡ true
        → get_or (run_in turn (upto k i) v) m nought
          ≡ plus (get_or v m nought) (get_or v (m + stride) nought)
    unfolding run_in
    get_or-turns zero i m v h h' lt on = absurd (omega arith)
    get_or-turns (suc k) i m v h h' lt on = elim (ℕ_discrete i m) [
      | yes same ↦
          get_or-turns_out k (suc i) m (turn i v) (omega (arith, same))
          ∙ subst
              (λ q.
                get_or (turn q v) m nought
                ≡ plus (get_or v m nought) (get_or v (m + stride) nought))
              (sym same) (get_or-turn_self m v lt on)
      | no ne ↦
          get_or-turns k (suc i) m (turn i v) (ground (arith, ne)) (omega arith)
            (omega (arith, length-turn i v)) on
          ∙ ap₂ plus (get_or-turn_ne i m v ne) (get_or-turn_far i m v on)
    ]

    -- A round over all threads below `n`, each once, in any order: the array has its length, and
    -- the active places below `n` have their sums.
    pub phase-sums :
        IsSet F
        → (n : ℕ) (order : List ℕ) (v : List F)
        → ((tid : ℕ) → active tid ≡ true → tid < n → tid + stride < n)
        → length v ≡ n
        → Perm (upto n 0) order
        → (r : List F) × (perform (fold_thread plus active stride) order v ≡ some r)
          × (length r ≡ n)
          × ((m : ℕ)
              → m < n
              → active m ≡ true
              → get_or r m nought ≡ plus (get_or v m nought) (get_or v (m + stride) nought))
    phase-sums F_set n order v fits l p =
        let e : 0 + n ≡ n = omega arith in
        let run : perform (fold_thread plus active stride) order v
            ≡ some (run_in turn (upto n 0) v) =
          ∥∥₁_elim p (Option.is_set (List.is_set F_set) _ _) (λ d.
            phase-turns n fits order v
              (Within-Permᴰ n d (subst (λ q. Within q (upto n 0)) e (upto-Within n 0))) l
            ∙ ap some (sym (run_in-Perm turn turn_comm (List.is_set F_set) p v))) in
        (
          run_in turn (upto n 0) v,
          run,
          length-turns (upto n 0) v ∙ l,
          λ m lt on. get_or-turns n 0 m v (omega arith) (omega arith) (omega arith) on,
        )

    -- The turns of the threads below `k`, in their order.
    pub range-sums :
        (n k : ℕ) (v : List F)
        → ((tid : ℕ) → active tid ≡ true → tid < n → tid + stride < n)
        → k ≤ n
        → length v ≡ n
        → (r : List F) × (perform (fold_thread plus active stride) (upto k 0) v ≡ some r)
          × (length r ≡ n)
          × ((m : ℕ)
              → m < k
              → active m ≡ true
              → get_or r m nought ≡ plus (get_or v m nought) (get_or v (m + stride) nought))
    range-sums n k v fits h l = (
      run_in turn (upto k 0) v,
      phase-turns n fits (upto k 0) v (Within-le k n (upto k 0) h (upto-Within k 0)) l,
      length-turns (upto k 0) v ∙ l,
      λ m lt on. get_or-turns k 0 m v (omega arith) (omega arith) (omega arith) on,
    )
