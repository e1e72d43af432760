-- ===== src/IncDec/Tests.antt =====
-- Tests and witnesses for the inc_dec programs.
use cuda_open_mp.Common.{◌-◌, ◌%◌, ◌^◌, ◌≤◌, ◌≡◌, refl, arith}
use cuda_open_mp.IncDec.{
  State, Decrements, Increments, decrements, increments, Reach, start, later, inc_dec,
}
use cuda_open_mp.IncDec.Count.{count-difference}

-- inc_dec.c, where the decrementer comes first.
abbrev sleeping : (s : State) × Reach inc_dec s
sleeping = (
  _,
  later (later start (decrements (Decrements.lock refl)))
      (decrements (Decrements.wait refl (λ e. cc))),
)

-- The incrementer's round behind that, and the decrementer's.
abbrev round : (s : State) × Reach inc_dec s
round = (
  _,
  later
      (later
        (later
          (later
            (later (later sleeping.1 (increments (Increments.lock refl)))
              (increments (Increments.signal refl)))
            (increments Increments.increase))
          (increments Increments.unlock))
        (decrements (Decrements.relock refl)))
      (decrements (Decrements.not_zero (omega arith))),
)

count-difference_example :
    (round.0.minuses ≤ round.0.pluses)
    × (round.0.count ≡ (round.0.pluses - round.0.minuses) % 2 ^ 32)
count-difference_example = count-difference inc_dec round.1
