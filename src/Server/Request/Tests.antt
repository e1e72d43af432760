-- ===== src/Server/Request/Tests.antt =====
-- Tests and witnesses for a round of `process_requests`.

use cuda_open_mp.Common.{
  ℕ, ◌<◌, ◌≡◌, refl, subst, true, false, some, none, List, [], ◌∷◌, ◌++◌, arith, length, inl, inr,
  replicate,
}
use mathlib.Core.Option.{some-injective}
use cuda_open_mp.Server.Text.{codes, is_space, last_or}
use cuda_open_mp.Server.Text.Decimal.{decimal, digits_onto, int_end}
use cuda_open_mp.Server.Parse.Words.{words}
use cuda_open_mp.Server.Respond.{World, Conn, cut_nul, log_line}
use cuda_open_mp.Server.Respond.File.{AllSucceed, NulFree, FileInRange, get_reply, get_status}
use cuda_open_mp.Server.Request.{serve, command_line}
use cuda_open_mp.Server.Request.Safety.{Started, LongLine, serve-undefined}
use cuda_open_mp.Server.Request.Defined.{Readable, serve-defined}
use cuda_open_mp.Server.Request.Dispatch.{Accepted, entry, serve-get}

abbrev hi : List ℕ
hi = codes "hi"

abbrev one_file : World
one_file = record {
  fopen = λ path. some hi;
  stats = λ s. true;
  reads = λ s. true;
  sends = λ s. true;
  puts = λ s. true;
}

one_file-AllSucceed : AllSucceed one_file
one_file-AllSucceed = record {
  all_stats = λ s. refl;
  all_reads = λ s. refl;
  all_sends = λ s. refl;
  all_puts = λ s. refl;
}

one_file-FileInRange : (path : List ℕ) → FileInRange one_file path
one_file-FileInRange path file e =
    subst (λ f. NulFree f × (length f < int_end)) (some-injective _ _ e)
      (((λ z. omega arith), ((λ z. omega arith), tt)), omega arith)

one_file-Readable : Readable one_file
one_file-Readable path file e = (refl, refl)

abbrev fresh : Conn
fresh = record { log = []; sent = []; is_closed = false; is_shut = false }

abbrev noon : List ℕ
noon = codes "Mon, 01 Jan 2024 12:00:00 GMT"

abbrev get_request : List ℕ
get_request = codes "GET /a.c HTTP/1.1\nHost: me\n"

started :
    (received : List ℕ)
    → length received < 1000
    → last_or (cut_nul received) 0 ≡ 10
    → Started 7 2 noon received
started received h k = record {
  id_small = omega arith;
  index_small = omega arith;
  time_short = omega arith;
  received_fits = h;
  newline = k;
}

get_request-Started : Started 7 2 noon get_request
unfolding cut_nul
get_request-Started = started get_request (omega arith) refl

get-Accepted : Accepted 7 2 noon get_request (codes "GET") (codes "/a.c") (codes "HTTP/1.1")
unfolding cut_nul words is_space command_line decimal digits_onto
get-Accepted = record {
  started = get_request-Started;
  id_int = omega arith;
  more = codes "Host:" ∷ codes "me" ∷ [];
  split = refl;
  short = omega arith;
}

-- A request of one word.
serve-undefined_example : serve one_file 7 2 (some noon) (codes "GET\n") fresh ≡ none
unfolding cut_nul words is_space
serve-undefined_example =
    serve-undefined one_file fresh (started (codes "GET\n") (omega arith) refl) (inl (omega arith))

-- A request of 999 bytes, whose line in the log does not fit 1000 bytes with its NUL.
abbrev long_request : List ℕ
long_request = codes "GET /" ++ (replicate 984 b'a' ++ codes " HTTP/1.1\n")

long_request-LongLine : LongLine 7 (words long_request)
unfolding words is_space command_line decimal digits_onto
long_request-LongLine = record {
  method = codes "GET";
  path = b'/' ∷ replicate 984 b'a';
  version = codes "HTTP/1.1";
  more = [];
  split = refl;
  long = omega arith;
}

serve_long_line : serve one_file 7 2 (some noon) long_request fresh ≡ none
unfolding cut_nul
serve_long_line =
    serve-undefined one_file fresh (started long_request (omega arith) refl)
      (inr long_request-LongLine)

serve-defined_example : (c : Conn) × (serve one_file 7 2 (some noon) get_request fresh ≡ some c)
serve-defined_example =
    serve-defined one_file 7 2 noon get_request fresh (codes "GET") (codes "/a.c")
      (codes "HTTP/1.1") get-Accepted.more one_file-Readable get-Accepted.started get-Accepted.split
      get-Accepted.short

serve-get_example :
    serve one_file 7 2 (some noon) get_request fresh
    ≡ some (record fresh {
      log =
          ((([] ++ entry 7 2 noon (codes "GET") (codes "/a.c") (codes "HTTP/1.1"))
              ++ log_line 7 (get_status one_file (codes "a.c")))
            ++ codes "\n");
      sent = [] ++ get_reply one_file (codes "a.c") noon;
      is_shut = true;
    })
serve-get_example =
    serve-get one_file 7 2 noon get_request (codes "a.c") fresh get-Accepted one_file-AllSucceed
      (one_file-FileInRange (codes "a.c"))

abbrev old_request : List ℕ
old_request = codes "GET /a.c HTTP/1.0\n"

old-Accepted : Accepted 7 2 noon old_request (codes "GET") (codes "/a.c") (codes "HTTP/1.0")
unfolding cut_nul words is_space command_line decimal digits_onto
old-Accepted = record {
  started = started old_request (omega arith) refl;
  id_int = omega arith;
  more = [];
  split = refl;
  short = omega arith;
}

abbrev put_request : List ℕ
put_request = codes "PUT /a.c HTTP/1.1\n"

put-Accepted : Accepted 7 2 noon put_request (codes "PUT") (codes "/a.c") (codes "HTTP/1.1")
unfolding cut_nul words is_space command_line decimal digits_onto
put-Accepted = record {
  started = started put_request (omega arith) refl;
  id_int = omega arith;
  more = [];
  split = refl;
  short = omega arith;
}
