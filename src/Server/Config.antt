-- ===== src/Server/Config.antt =====
-- `read_config` of Pthread/pthreads-web-server-master/server.c, which reads config.txt.
pub mod Lines
mod Tests
use cuda_open_mp.Common.{
  ℕ, ◌≡◌, Bool, true, false, Option, none, some, List, [], ◌∷◌, ltb, ◌==◌, if◌then◌else◌, length,
  drop,
}
use cuda_open_mp.Server.Text.{is_empty}
use cuda_open_mp.Server.Text.Decimal.{atoi, int_end}
use cuda_open_mp.Server.Respond.{cut_nul, fgets}

pub record Config : Type 0 where
  pub port : ℕ
  pub logfile : List ℕ  -- the name of the file that is open
  pub workers : ℕ

-- `exits` is `exit(1)`, and `undefined` a read of memory that was not written, or `atoi` of a number
-- that is no `int`.
pub data Outcome : Type 0 where
  exits undefined : Outcome
  configured : Config → Outcome

-- The loop that replaces the first newline by a NUL.
unfoldable pub cut_newline : List ℕ → List ℕ
cut_newline [] = []
cut_newline (c ∷ s) = let rest = cut_newline s in if c == b'\n' then [] else c ∷ rest

-- `buffer + k` as a string, `none` behind its end.
unfoldable pub value_at : ℕ → List ℕ → Option (List ℕ)
unfolding cut_newline
value_at k line =
    let s = cut_nul (cut_newline line) in if ltb (length s) k then none else some (drop k s)

module _ (opens : List ℕ → Bool) where
  -- The third line.
  unfoldable pub read_workers : ℕ → List ℕ → List ℕ → Outcome
  read_workers port logfile text =
      let line = (fgets 19 text).0 in
      if is_empty line then exits else elim (value_at 10 line) [
        | none ↦ undefined
        | some s ↦
            if ltb (atoi s) int_end
            then configured (record { port = port; logfile = logfile; workers = atoi s })
            else undefined
      ]

  -- The second line, and the log file that it names.
  unfoldable pub read_logfile : ℕ → List ℕ → Outcome
  read_logfile port text =
      let (line, rest) = fgets 99 text in
      if is_empty line then exits else elim (value_at 9 line) [
        | none ↦ undefined
        | some name ↦ let more = read_workers port name rest in if opens name then more else exits
      ]

  -- The argument is the text of config.txt, if it can be opened.
  unfoldable pub read_config : Option (List ℕ) → Outcome
  read_config none = exits
  read_config (some text) =
      let (line, rest) = fgets 99 text in
      if is_empty line then exits else elim (value_at 6 line) [
        | none ↦ undefined
        | some s ↦
            let more = read_logfile (atoi s) rest in
            if ltb (atoi s) int_end then more else undefined
      ]
