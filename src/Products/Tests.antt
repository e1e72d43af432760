-- ===== src/Products/Tests.antt =====
-- Tests and witnesses for the bounded buffer.
use cuda_open_mp.Common.{◌≡◌, refl, ◌⊎◌, [], ◌∷◌, arith}
use cuda_open_mp.Products.{
  pos, Products, buffer_is_full, buffer_is_empty, write_item, read_item, drop_item,
}
use cuda_open_mp.Products.Contents.{IsValid, contents, contents-read_item}
use cuda_open_mp.Products.Threads.{
  State, Reach, start, later, init, producer_step, Produces, produced_all,
}
use cuda_open_mp.Products.Threads.{consumed_all}
use cuda_open_mp.Products.Delivery.{printed-all, numbers}
use cuda_open_mp.Products.Schedule.{rounds, begin}
use cuda_open_mp.Products.Progress.{CanStep, no_deadlock}

-- 3 at the end of the storage, 4 round its corner.
abbrev wrapped : Products
wrapped = record {
  buffer = pos 4 ∷ pos 0 ∷ pos 0 ∷ pos 0 ∷ pos 0 ∷ pos 0 ∷ pos 0 ∷ pos 3 ∷ [];
  pos_read_from = 7;
  pos_write_to = 1;
}

wrapped-IsValid : IsValid wrapped
wrapped-IsValid = omega arith

contents-wrapped : contents wrapped ≡ pos 3 ∷ pos 4 ∷ []
contents-wrapped = refl

contents-read_item_example : contents wrapped ≡ read_item wrapped ∷ contents (drop_item wrapped)
unfolding buffer_is_empty
contents-read_item_example = contents-read_item {p = wrapped} wrapped-IsValid refl

-- The producer has written its first item.
abbrev first_written : (s : State) × Reach s
unfolding buffer_is_full
first_written = (
  _,
  later
      (later (later start (producer_step (Produces.lock refl)))
        (producer_step (Produces.has_room refl)))
      (producer_step Produces.write_it),
)

no_deadlock_example :
    ((init.producer ≡ produced_all) × (init.consumer ≡ consumed_all)) ⊎ CanStep init
no_deadlock_example = no_deadlock start

-- The whole program, the threads taking turns.
all_printed : (rounds 200 begin).last.printed ≡ numbers 16 0
unfolding rounds write_item read_item drop_item
all_printed = refl

printed-all_example : (rounds 200 begin).last.printed ≡ numbers 16 0
unfolding rounds write_item read_item drop_item
printed-all_example = printed-all (rounds 200 begin).reach refl
