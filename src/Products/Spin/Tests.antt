-- ===== src/Products/Spin/Tests.antt =====
-- Tests and witnesses for Pthread/condition_no_cond.c.
use cuda_open_mp.Common.{◌≡◌, refl}
use cuda_open_mp.Products.{buffer_is_empty}
use cuda_open_mp.Products.Threads.{State, init}
use cuda_open_mp.Products.Spin.{
  SpinConsumes, SpinReach, start, later, consumes, Starves, spins_for_good,
}

-- The consumer comes first.
abbrev starved : (s : State) × SpinReach init s
starved = (_, later start (consumes (SpinConsumes.lock refl)))

starved-Starves : Starves starved.0
unfolding buffer_is_empty
starved-Starves = record { has_lock = refl; at_test = refl; empty = refl }

-- One turn of its `while`.
one_turn : SpinReach starved.0 starved.0
unfolding buffer_is_empty
one_turn = later start (consumes (SpinConsumes.spin refl))

spins_for_good_example : starved.0 ≡ starved.0
spins_for_good_example = spins_for_good starved.1 starved-Starves one_turn
