-- ===== src/Products.antt =====
-- Pthread/condition.c: the bounded buffer `struct Products` behind a mutex and two conditions.
pub mod Contents
pub mod Threads
pub mod Invariant
pub mod Delivery
pub mod Progress
pub mod Spin
mod Schedule
mod Tests
use cuda_open_mp.Common.{
  ℕ, zero, suc, ◌+◌, ◌%◌, Bool, true, false, List, [], ◌∷◌, leb, ◌==◌, if◌then◌else◌, get_or, set,
  replicate,
}

-- BUFFER_SIZE
abbrev pub buffer_size : ℕ
buffer_size = 8

-- An `int`: `negsuc n` is -(n + 1).
pub data ℤ : Type 0 where
  pos : ℕ → ℤ
  negsuc : ℕ → ℤ

-- END_FLAG, -1
abbrev pub end_flag : ℤ
end_flag = negsuc 0

abbrev pub is_end_flag : ℤ → Bool
is_end_flag (pos n) = false
is_end_flag (negsuc zero) = true
is_end_flag (negsuc (suc n)) = false

-- `struct Products`, less its mutex and conditions, which `Threads` has.
pub record Products : Type 0 where
  pub buffer : List ℤ
  pub pos_read_from : ℕ
  pub pos_write_to : ℕ

-- The global `products`, which starts as zeroes.
abbrev pub products : Products
products = record { buffer = replicate buffer_size (pos 0); pos_read_from = 0; pos_write_to = 0 }

unfoldable pub buffer_is_full : Products → Bool
buffer_is_full p = (p.pos_write_to + 1) % buffer_size == p.pos_read_from

unfoldable pub buffer_is_empty : Products → Bool
buffer_is_empty p = p.pos_write_to == p.pos_read_from

-- `pos++; if (pos >= BUFFER_SIZE) pos = 0;`
abbrev pub advance : ℕ → ℕ
advance i = if leb buffer_size (i + 1) then 0 else i + 1

-- The writes of `Produce` behind its wait.
unfoldable pub write_item : ℤ → Products → Products
write_item item p = record p {
  buffer = set p.buffer p.pos_write_to item;
  pos_write_to = advance p.pos_write_to;
}

-- The item that `Consume` reads, and its write.
unfoldable pub read_item : Products → ℤ
read_item p = get_or p.buffer p.pos_read_from (pos 0)

unfoldable pub drop_item : Products → Products
drop_item p = record p { pos_read_from = advance p.pos_read_from }
