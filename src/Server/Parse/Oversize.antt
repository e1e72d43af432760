-- ===== src/Server/Parse/Oversize.antt =====
-- `read_command` on a token of about MAXTOKSIZE bytes or more.
use cuda_open_mp.Common.{
  ℕ, zero, suc, ◌+◌, ◌≤◌, ◌<◌, ◌≡◌, refl, Bool, true, false, ◌&&◌, none, some, List, [], ◌∷◌, ◌++◌,
  arith, length, length-snoc, replicate, ltb,
}
use cuda_open_mp.Server.Text.{is_space}
use cuda_open_mp.Server.Parse.{
  max_tok_size, oversize_token, Command, command, go, stop, fault, put, close, round, scan, finish,
  read_command,
}
use cuda_open_mp.Server.Parse.Loop.{at}

put-in_memory :
    (c : ℕ) (cur : List ℕ) (e : Bool)
    → length cur ≤ max_tok_size
    → put c (at [] cur e) ≡ go (at [] (cur ++ (c ∷ [])) (ltb (length cur) max_tok_size && e))
unfolding put
put-in_memory c cur e h = ground (arith, length-snoc cur c)

put-out_of_memory :
    (c : ℕ) (cur : List ℕ) (e : Bool) → max_tok_size < length cur → put c (at [] cur e) ≡ fault
unfolding put
put-out_of_memory c cur e h = ground arith

-- What is read of a token of `k` more bytes that still lie in its memory.
record Filled (k : ℕ) (c : ℕ) (rest cur : List ℕ) (e : Bool) : Type 0 where
  chars : List ℕ
  ended : Bool
  size : length chars ≡ length cur + k
  reads : scan (replicate k c ++ rest) (at [] cur e) ≡ scan rest (at [] chars ended)

fill :
    (k c : ℕ) (rest cur : List ℕ) (e : Bool)
    → is_space c ≡ false
    → length cur + k ≤ suc max_tok_size
    → Filled k c rest cur e
unfolding scan round
fill zero c rest cur e h l = record { chars = cur; ended = e; size = omega arith; reads = refl }
fill (suc k) c rest cur e h l =
    let e' : Bool = ltb (length cur) max_tok_size && e in
    let more = fill k c rest (cur ++ (c ∷ [])) e' h (omega (arith, length-snoc {0} cur c)) in
    record {
      chars = more.chars;
      ended = more.ended;
      size = omega (arith, more.size, length-snoc {0} cur c);
      reads = ground (arith, put-in_memory c cur e, more.reads);
    }

scan-oversize :
    (d : ℕ) (rest cur : List ℕ) (e : Bool)
    → is_space d ≡ true
    → max_tok_size ≤ length cur
    → scan (d ∷ rest) (at [] cur e) ≡ stop oversize_token (at [] cur e)
unfolding scan round close
scan-oversize d rest [] e k h = absurd (omega arith)
scan-oversize d rest (x ∷ xs) e k h = ground arith

-- No byte is a space.
abbrev pub IsToken : List ℕ → Type 0
IsToken [] = Unit {0}
IsToken (c ∷ s) = (is_space c ≡ false) × IsToken s

overrun :
    (word rest cur : List ℕ) (e : Bool)
    → IsToken word
    → length cur ≤ suc max_tok_size
    → suc max_tok_size < length cur + length word
    → scan (word ++ rest) (at [] cur e) ≡ fault
unfolding scan round
overrun [] rest cur e h l m = absurd (omega arith)
overrun (c ∷ word) rest cur e (h, t) l m =
    let e' : Bool = ltb (length cur) max_tok_size && e in
    ground (
      arith,
      put-out_of_memory c cur e,
      put-in_memory c cur e,
      length-snoc cur c,
      overrun word rest (cur ++ (c ∷ [])) e' t,
    )

-- On a request that starts with a token of MAXTOKSIZE + 2 bytes or more, none of them a space,
-- `read_command` writes past the end of the token's memory, whatever follows: the test against
-- MAXTOKSIZE stands behind the writes.
pub read_command-overrun :
    (word rest : List ℕ)
    → IsToken word
    → suc max_tok_size < length word
    → read_command (word ++ rest) ≡ none
unfolding read_command finish
read_command-overrun word rest h l = rw (overrun word rest [] true h (omega arith) (omega arith))

-- A token of MAXTOKSIZE or MAXTOKSIZE + 1 bytes before a space makes `read_command` return 0 with
-- OVERSIZE_TOKEN.
pub read_command-oversize :
    (n c d : ℕ) (rest : List ℕ)
    → is_space c ≡ false
    → is_space d ≡ true
    → max_tok_size ≤ n
    → n ≤ suc max_tok_size
    → (cmd : Command) × (read_command (replicate n c ++ (d ∷ rest)) ≡ some (false, cmd))
      × (cmd.status ≡ oversize_token)
unfolding read_command finish
read_command-oversize n c d rest h k lo hi =
    let f = fill n c (d ∷ rest) [] true h (omega arith) in
    (
      command oversize_token (at [] f.chars f.ended),
      rw (f.reads, scan-oversize d rest f.chars f.ended k (omega (arith, f.size))),
      refl,
    )
