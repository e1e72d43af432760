-- ===== src/Server/Parse.antt =====
-- `read_command` of Pthread/pthreads-web-server-master/server.c: the bytes of a request into tokens.
pub mod Loop
pub mod Words
pub mod Oversize
mod Tests
use cuda_open_mp.Common.{
  ℕ, zero, suc, ◌+◌, Bool, true, false, ◌&&◌, not, Option, none, some, List, [], ◌∷◌, ◌++◌, leb,
  ltb, ◌==◌, if◌then◌else◌, length, get_elem?, set,
}
use cuda_open_mp.Server.Text.{is_space, is_empty, last_or}

-- MAXTOKS and MAXTOKSIZE
abbrev pub max_toks : ℕ
max_toks = 1000

abbrev pub max_tok_size : ℕ
max_tok_size = 1000

-- `enum status_value`
pub data Status : Type 0 where
  normal eof_found input_overflow oversize_token too_many_tokens : Status

-- The memory of one token: the bytes written so far, from index 0 on, and whether the byte behind
-- them is NUL. `calloc` hands out zeroes, `malloc` bytes of no known value.
pub record Token : Type 0 where
  pub chars : List ℕ
  pub ended : Bool

abbrev pub calloc_token : Token
calloc_token = record { chars = []; ended = true }

abbrev pub malloc_token : Token
malloc_token = record { chars = []; ended = false }

-- `struct command`. `tok` lists the pointers that are set; those behind it are NULL from `calloc`.
pub record Command : Type 0 where
  pub tok : List Token
  pub count : ℕ
  pub status : Status

-- The variables of the loop, `status` being still unset.
pub record Scan : Type 0 where
  pub tok : List Token
  pub t : ℕ
  pub ti : ℕ
  pub count : ℕ

abbrev pub start : Scan
start = record { tok = calloc_token ∷ []; t = 0; ti = 0; count = 0 }

-- How a round of the loop ends: it goes on, it returns 0 with a status, or it leaves its memory.
pub data Round : Type 0 where
  go : Scan → Round
  stop : Status → Scan → Round
  fault : Round

-- `n->tok[t][ti] = c; ti++;` within the MAXTOKSIZE + 1 bytes of an allocated token.
unfoldable pub put : ℕ → Scan → Round
put c s = elim (get_elem? s.tok s.t) [
  | none ↦ fault
  | some w ↦
      if leb s.ti max_tok_size
      then go (record s {
        tok =
            set s.tok s.t
              (record { chars = w.chars ++ (c ∷ []); ended = ltb s.ti max_tok_size && w.ended });
        ti = s.ti + 1;
      })
      else fault
]

-- `n->tok[t][ti] = '\0'`
unfoldable pub terminate : Scan → List Token
terminate s = elim (get_elem? s.tok s.t) [
  | none ↦ s.tok
  | some w ↦ set s.tok s.t (record w { ended = true })
]

-- The space behind a token; `more` says that buff[j+1] is not NUL.
unfoldable pub close : Scan → Bool → Round
unfolding terminate
close s more =
    if ltb s.ti max_tok_size
    then (if ltb (s.t + 1) max_toks && more
        then go (record {
          tok = terminate s ++ (malloc_token ∷ []);
          t = s.t + 1;
          ti = 0;
          count = s.count + 1;
        })
        else if s.t + 1 == max_toks && more
        then stop too_many_tokens (record s { tok = terminate s })
        else go (record { tok = terminate s; t = s.t + 1; ti = 0; count = s.count + 1 }))
    else stop oversize_token s

-- One round of the loop over `buff`.
unfoldable pub round : ℕ → Bool → Scan → Round
unfolding put close is_space
round c more s = if not (is_space c) then put c s else if s.ti == 0 then go s else close s more

-- How the loop ends: at the NUL, by a return of 0, or outside its memory.
unfoldable pub scan : List ℕ → Scan → Round
unfolding round
scan [] s = go s
scan (c ∷ rest) s = elim (round c (not (is_empty rest)) s) [
  | go s' ↦ scan rest s'
  | stop st s' ↦ stop st s'
  | fault ↦ fault
]

abbrev pub command : Status → Scan → Command
command st s = record { tok = s.tok; count = s.count; status = st }

-- What follows the loop: the last byte of the request is read, and it must be a newline. `none` is
-- an access outside the memory of an object, as buff[strlen(buff)-1] is where `buff` is empty.
unfoldable pub finish : List ℕ → Round → Option (Bool × Command)
finish buff (go s) =
    if is_empty buff
    then none
    else if last_or buff 0 == b'\n'
    then some (true, command normal s)
    else some (false, command input_overflow s)
finish buff (stop st s) = some (false, command st s)
finish buff fault = none

-- The result of `read_command`, beside the command that it fills in.
unfoldable pub read_command : List ℕ → Option (Bool × Command)
unfolding finish
read_command buff = finish buff (scan buff start)
