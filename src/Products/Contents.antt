-- ===== src/Products/Contents.antt =====
-- The ring of Pthread/condition.c as a queue.
use cuda_open_mp.Common.{
  ℕ, zero, suc, ◌+◌, ◌-◌, ◌%◌, ◌≤◌, ◌<◌, ◌≡◌, refl, sym, ap, ap₂, ◌∙◌, false, List, [], ◌∷◌, ◌++◌,
  arith, ◌==◌, length, get_or, set, length-set, get_or-set_self, get_or-set_ne,
}
use cuda_open_mp.Products.{
  buffer_size, ℤ, pos, Products, products, buffer_is_full, buffer_is_empty, advance, write_item,
  read_item, drop_item,
}

pub record IsValid (p : Products) : Type 0 where
  pub sized : length p.buffer ≡ buffer_size
  pub read_in : p.pos_read_from < buffer_size
  pub write_in : p.pos_write_to < buffer_size

-- The `n` items from index `i` on, around the ring.
abbrev pub items : List ℤ → ℕ → ℕ → List ℤ
items buffer i zero = []
items buffer i (suc n) = get_or buffer i (pos 0) ∷ items buffer ((i + 1) % buffer_size) n

-- The number of items between the two positions.
abbrev pub used : Products → ℕ
used p = (p.pos_write_to + buffer_size - p.pos_read_from) % buffer_size

abbrev pub contents : Products → List ℤ
contents p = items p.buffer p.pos_read_from (used p)

length-items : (buffer : List ℤ) (i n : ℕ) → length (items buffer i n) ≡ n
length-items buffer i zero = refl
length-items buffer i (suc n) = ap suc (length-items buffer ((i + 1) % buffer_size) n)

-- An index beyond the items may be written.
items-set :
    (buffer : List ℤ) (x : ℤ) (n m i j : ℕ)
    → i < buffer_size
    → m < buffer_size
    → n ≤ m
    → j ≡ (i + m) % buffer_size
    → items (set buffer j x) i n ≡ items buffer i n
items-set buffer x zero m i j hi hm le e = refl
items-set buffer x (suc n) m i j hi hm le e =
    ap₂ ◌∷◌ (get_or-set_ne buffer j i x (pos 0) (omega arith)) (
      items-set buffer x n (m - 1) ((i + 1) % buffer_size) j (ground arith) (omega arith)
        (omega arith) (ground arith))

items-snoc :
    (buffer : List ℤ) (n i j : ℕ)
    → i < buffer_size
    → n < buffer_size
    → j ≡ (i + n) % buffer_size
    → items buffer i (suc n) ≡ items buffer i n ++ (get_or buffer j (pos 0) ∷ [])
items-snoc buffer zero i j hi hn e = ap (λ k. get_or buffer k (pos 0) ∷ []) (omega arith)
items-snoc buffer (suc n) i j hi hn e =
    ap (◌∷◌ (get_or buffer i (pos 0)))
      (items-snoc buffer n ((i + 1) % buffer_size) j (ground arith) (omega arith) (ground arith))

-- The tests of the code, as the queue sees them: full at BUFFER_SIZE - 1 items, empty at none.
pub buffer_is_full-length :
    {p : Products} → IsValid p → buffer_is_full p ≡ (length (contents p) == buffer_size - 1)
unfolding buffer_is_full
buffer_is_full-length {p} v = ground (arith, length-items p.buffer p.pos_read_from (used p))

pub buffer_is_empty-length :
    {p : Products} → IsValid p → buffer_is_empty p ≡ (length (contents p) == 0)
unfolding buffer_is_empty
buffer_is_empty-length {p} v = ground (arith, length-items p.buffer p.pos_read_from (used p))

pub write_item-IsValid : {p : Products} (x : ℤ) → IsValid p → IsValid (write_item x p)
unfolding write_item
write_item-IsValid {p} x v = ground (arith, length-set p.buffer p.pos_write_to x)

pub drop_item-IsValid : {p : Products} → IsValid p → IsValid (drop_item p)
unfolding drop_item
drop_item-IsValid v = ground arith

-- In a buffer that is not full, `Produce` puts its item behind the others.
pub contents-write_item :
    {p : Products} (x : ℤ)
    → IsValid p
    → buffer_is_full p ≡ false
    → contents (write_item x p) ≡ contents p ++ (x ∷ [])
unfolding write_item buffer_is_full
contents-write_item {p} x v room =
    let n = used p in
    let j = p.pos_write_to in
    let i = p.pos_read_from in
    let grown : used (write_item x p) ≡ suc n = ground arith in
    ap (items (set p.buffer j x) i) grown
    ∙ items-snoc (set p.buffer j x) n i j v.read_in (omega arith) (omega arith)
    ∙ ap₂ (λ l y. l ++ (y ∷ []))
        (items-set p.buffer x n n i j v.read_in (omega arith) (omega arith) (omega arith))
        (get_or-set_self p.buffer j x (pos 0) (omega arith))

-- From a buffer that is not empty, `Consume` takes the first item and leaves the others, in their
-- order around the ring.
pub contents-read_item :
    {p : Products}
    → IsValid p
    → buffer_is_empty p ≡ false
    → contents p ≡ read_item p ∷ contents (drop_item p)
unfolding read_item drop_item buffer_is_empty
contents-read_item {p} v some_left =
    let shrunk : used p ≡ suc (used (drop_item p)) = ground arith in
    let wraps : advance p.pos_read_from ≡ (p.pos_read_from + 1) % buffer_size =
      ground (arith, v.read_in) in
    ap (items p.buffer p.pos_read_from) shrunk
    ∙ ap (λ i. read_item p ∷ items p.buffer i (used (drop_item p))) (sym wraps)

pub products-IsValid : IsValid products
products-IsValid = omega arith
