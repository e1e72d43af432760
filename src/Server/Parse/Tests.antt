-- ===== src/Server/Parse/Tests.antt =====
-- Tests and witnesses for `read_command`.

use cuda_open_mp.Common.{
  ℕ, zero, suc, ◌≡◌, refl, true, false, some, none, List, [], ◌∷◌, ◌++◌, map, arith, length, take,
  replicate,
}
use cuda_open_mp.Server.Text.{codes, is_space}
use cuda_open_mp.Server.Parse.{Command, normal, input_overflow, read_command, scan}
use cuda_open_mp.Server.Parse.Words.{words, read_command_total, read_command-words}
use cuda_open_mp.Server.Parse.Oversize.{IsToken, read_command-overrun}

abbrev request : List ℕ
request = codes "GET /a.c HTTP/1.1\n"

words_of_request : words request ≡ codes "GET" ∷ codes "/a.c" ∷ codes "HTTP/1.1" ∷ []
unfolding words is_space
words_of_request = refl

-- The last token of a request with no newline is not terminated.
read_command_open :
    read_command (codes "GET /")
    ≡ some (
      false,
      record {
        tok =
            record { chars = codes "GET"; ended = true }
            ∷ record { chars = codes "/"; ended = false }
            ∷ [];
        count = 1;
        status = input_overflow;
      },
    )
unfolding read_command scan
read_command_open = refl

read_command_empty : read_command [] ≡ none
unfolding read_command scan
read_command_empty = refl

read_command_total_example :
    (cmd : Command) × (read_command request ≡ some (true, cmd)) × (cmd.status ≡ normal)
read_command_total_example = read_command_total request (λ e. cc) (omega arith)

read_command-words_example :
    (cmd : Command) × (read_command request ≡ some (true, cmd))
    × (cmd.count ≡ length (words request))
    × (take cmd.count cmd.tok ≡ map (λ w. record { chars = w; ended = true }) (words request))
read_command-words_example = read_command-words request (omega arith) refl

replicate-IsToken : (n : ℕ) → IsToken (replicate n b'a')
unfolding is_space
replicate-IsToken zero = tt
replicate-IsToken (suc n) = (refl, replicate-IsToken n)

read_command-overrun_example :
    read_command ((b'b' ∷ replicate 1001 b'a') ++ codes " HTTP/1.1") ≡ none
unfolding is_space
read_command-overrun_example =
    read_command-overrun (b'b' ∷ replicate 1001 b'a') (codes " HTTP/1.1")
      (refl, replicate-IsToken 1001) (omega arith)
