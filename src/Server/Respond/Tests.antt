-- ===== src/Server/Respond/Tests.antt =====
-- Tests and witnesses for the answers.

use cuda_open_mp.Common.{
  ℕ, ◌+◌, ◌<◌, ◌≡◌, refl, subst, true, false, some, List, [], ◌∷◌, ◌++◌, arith, length, inl, inr,
}
use mathlib.Core.Option.{some-injective}
use cuda_open_mp.Server.Text.{codes}
use cuda_open_mp.Server.Text.Decimal.{decimal, int_end, atoi, atoi-decimal}
use cuda_open_mp.Server.Respond.{World, Conn, process_get, log_line}
use cuda_open_mp.Server.Respond.File.{
  AllSucceed, NulFree, FileInRange, ok_header, get_reply, get_status, process_get_lem,
}
use cuda_open_mp.Server.Respond.Truncated.{process_get-truncated}

-- Every path names the same file of two bytes.
abbrev one_file : List ℕ → World
one_file file = record {
  fopen = λ path. some file;
  stats = λ s. true;
  reads = λ s. true;
  sends = λ s. true;
  puts = λ s. true;
}

abbrev hi : List ℕ
hi = codes "hi"

abbrev nul_inside : List ℕ
nul_inside = 104 ∷ 0 ∷ 105 ∷ []

one_file-AllSucceed : (file : List ℕ) → AllSucceed (one_file file)
one_file-AllSucceed file = record {
  all_stats = λ s. refl;
  all_reads = λ s. refl;
  all_sends = λ s. refl;
  all_puts = λ s. refl;
}

hi-FileInRange : FileInRange (one_file hi) (codes "a.c")
hi-FileInRange file e =
    subst (λ f. NulFree f × (length f < int_end)) (some-injective _ _ e)
      (((λ z. omega arith), ((λ z. omega arith), tt)), omega arith)

abbrev fresh : Conn
fresh = record { log = []; sent = []; is_closed = false; is_shut = false }

abbrev noon : List ℕ
noon = codes "Mon, 01 Jan 2024 12:00:00 GMT"

atoi-decimal_example : atoi (decimal 8888 ++ codes "\n") ≡ 8888
atoi-decimal_example = atoi-decimal 8888 (codes "\n") (inl (omega arith))

process_get_lem_example :
    process_get (one_file hi) (codes "a.c") 7 noon fresh
    ≡ some (record fresh {
      log = [] ++ log_line 7 (get_status (one_file hi) (codes "a.c"));
      sent = [] ++ get_reply (one_file hi) (codes "a.c") noon;
      is_shut = true;
    })
process_get_lem_example =
    process_get_lem (one_file hi) (codes "a.c") noon 7 fresh (one_file-AllSucceed hi) hi-FileInRange
      (omega arith) (omega arith)

process_get-truncated_example :
    (c : Conn) × (process_get (one_file nul_inside) (codes "a.c") 7 noon fresh ≡ some c)
    × (length c.sent
        < length fresh.sent + length (ok_header noon (length nul_inside)) + length nul_inside)
process_get-truncated_example =
    process_get-truncated (one_file nul_inside) (codes "a.c") noon nul_inside 7 fresh
      (one_file-AllSucceed nul_inside) refl (inr (inl refl)) (omega arith) (omega arith)
      (omega arith)
