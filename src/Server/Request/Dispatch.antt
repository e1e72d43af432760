-- ===== src/Server/Request/Dispatch.antt =====
-- What the server answers to a request of three words that the log has room for.

use cuda_open_mp.Common.{
  ℕ, ◌<◌, ◌≡◌, refl, ◌∙◌, ◌⊎◌, Bool, true, false, ◌||◌, some, List, [], ◌∷◌, ◌++◌, arith, length,
  append_assoc,
}
use cuda_open_mp.Server.Text.{codes, str_eq}
use cuda_open_mp.Server.Text.Decimal.{int_end}
use cuda_open_mp.Server.Parse.Words.{words}
use cuda_open_mp.Server.Respond.{
  max_buff, World, Conn, cut_nul, fputs, send, protocol_line, log_line, header_text,
}
use cuda_open_mp.Server.Respond.File.{
  AllSucceed, FileInRange, get_reply, get_status, process_get_lem,
}
use cuda_open_mp.Server.Respond.Header.{InRange, answered, send_header_in_bounds, fits_of_le}
use cuda_open_mp.Server.Request.{
  no_slash, time_line, command_line, dispatch, bad_request, answer, serve,
}
use cuda_open_mp.Server.Request.Safety.{Started, serve-answer}

-- A round of the loop on a request whose first three words are these, with the log's line of them.
pub record Accepted (request_id thread_index : ℕ) (time received method path version : List ℕ)
    : Type 0 where
  pub started : Started request_id thread_index time received
  pub id_int : request_id < int_end
  pub more : List (List ℕ)
  pub split : words (cut_nul received) ≡ method ∷ path ∷ version ∷ more
  pub short : length (command_line request_id method path version) < max_buff

-- The two lines that open an entry of the log.
abbrev pub entry : ℕ → ℕ → List ℕ → List ℕ → List ℕ → List ℕ → List ℕ
entry request_id thread_index time method path version =
    time_line request_id thread_index time ++ command_line request_id method path version

module _ (w : World) {request_id thread_index : ℕ} {time received method path version : List ℕ}
    (c : Conn) (r : Accepted request_id thread_index time received method path version)
    (all : AllSucceed w) where
  opened : Conn
  opened = record c { log = c.log ++ entry request_id thread_index time method path version }

  serve-opened :
      serve w request_id thread_index (some time) received c
      ≡ answer w true method path version (cut_nul received) request_id time opened
  unfolding opened fputs
  serve-opened =
      let one = time_line request_id thread_index time in
      let two = command_line request_id method path version in
      serve-answer w c r.started method path version r.more r.split
      ∙ ground (
        arith,
        fits_of_le two (omega (arith, r.short)),
        all.all_puts one,
        all.all_puts two,
        append_assoc c.log one two,
      )

str_eq_refl : (s : List ℕ) → str_eq s s ≡ true
unfolding str_eq
str_eq_refl [] = refl
str_eq_refl (x ∷ s) = ground (arith, str_eq_refl s)

-- A GET of an HTTP/1.1 request that ends with a newline and whose line of the log fits its buffer,
-- while the system calls succeed and the file, if there is one, is shorter than 2 ^ 31 bytes, its size
-- being an `int`, and holds no NUL byte: the log gets the two lines of the entry, the status and a
-- blank line, and the client the header and the bytes of the file that the path behind its slash
-- names, or the 404 header where there is none.
pub serve-get :
    (w : World) (request_id thread_index : ℕ) (time received path : List ℕ) (c : Conn)
    → Accepted request_id thread_index time received (codes "GET") (b'/' ∷ path) (codes "HTTP/1.1")
    → AllSucceed w
    → FileInRange w path
    → serve w request_id thread_index (some time) received c
      ≡ some (record c {
        log =
            (((c.log
                  ++ entry request_id thread_index time
                      (codes "GET")
                      (b'/' ∷ path)
                      (codes "HTTP/1.1"))
                ++ log_line request_id (get_status w path))
              ++ codes "\n");
        sent = c.sent ++ get_reply w path time;
        is_shut = true;
      })
unfolding opened answer dispatch no_slash str_eq fputs
serve-get w request_id thread_index time received path c r all f =
    serve-opened w c r all
    ∙ ground (
      arith,
      process_get_lem w path time request_id (opened w c r all) all f r.started.time_short r.id_int,
      all.all_puts (codes "\n"),
    )

answered-AllSucceed :
    (w : World) (code : ℕ) (str time : List ℕ) (count request_id : ℕ) (close_client : Bool)
    (c : Conn)
    → AllSucceed w
    → answered w code str time count request_id close_client c ≡ record c {
      log = c.log ++ log_line request_id (protocol_line code str);
      sent = c.sent ++ header_text code str time count;
      is_closed = close_client || c.is_closed;
    }
unfolding fputs send
answered-AllSucceed w code str time count request_id close_client c all = ground (
  arith,
  all.all_puts (log_line request_id (protocol_line code str)),
  all.all_sends (header_text code str time count),
)

-- A request whose path does not begin with a slash, or whose third word is not HTTP/1.1, is answered
-- with 400 while the system calls succeed: the socket is closed and shut down, and the entry of the
-- log ends with the status line, without the blank line that ends every other entry.
pub serve-bad_request :
    (w : World) (request_id thread_index : ℕ) (time received method path version : List ℕ)
    (c : Conn)
    → Accepted request_id thread_index time received method path version
    → AllSucceed w
    → (no_slash path ≡ true) ⊎ (str_eq (codes "HTTP/1.1") version ≡ false)
    → serve w request_id thread_index (some time) received c
      ≡ some (record {
        log =
            (c.log ++ entry request_id thread_index time method path version)
            ++ log_line request_id (protocol_line 400 (codes "Bad Request"));
        sent = c.sent ++ header_text 400 (codes "Bad Request") time 0;
        is_closed = true;
        is_shut = true;
      })
unfolding opened answer bad_request
serve-bad_request w request_id thread_index time received method path version c r all bad =
    let range : InRange 400 (codes "Bad Request") time request_id =
      omega (arith, r.started.time_short, r.started.id_small) in
    serve-opened w c r all
    ∙ ground (
      arith,
      bad,
      send_header_in_bounds w 400 (codes "Bad Request") time 0 request_id true (opened w c r all)
          range,
      answered-AllSucceed w 400 (codes "Bad Request") time 0 request_id true (opened w c r all) all,
    )

-- A well-formed request with a method other than GET, HEAD, OPTIONS and TRACE is answered with 501
-- while the system calls succeed; the socket is shut down and not closed.
pub serve-not_implemented :
    (w : World) (request_id thread_index : ℕ) (time received method path version : List ℕ)
    (c : Conn)
    → Accepted request_id thread_index time received method path version
    → AllSucceed w
    → no_slash path ≡ false
    → str_eq (codes "HTTP/1.1") version ≡ true
    → str_eq (codes "GET") method ≡ false
    → str_eq (codes "HEAD") method ≡ false
    → str_eq (codes "OPTIONS") method ≡ false
    → str_eq (codes "TRACE") method ≡ false
    → serve w request_id thread_index (some time) received c
      ≡ some (record c {
        log =
            ((c.log ++ entry request_id thread_index time method path version)
              ++ log_line request_id (protocol_line 501 (codes "Not Implemented")))
            ++ codes "\n";
        sent = c.sent ++ header_text 501 (codes "Not Implemented") time 0;
        is_shut = true;
      })
unfolding opened answer dispatch fputs
serve-not_implemented w request_id thread_index time received method path version c r all s v g h o
      t =
    let range : InRange 501 (codes "Not Implemented") time request_id =
      omega (arith, r.started.time_short, r.started.id_small) in
    serve-opened w c r all
    ∙ ground (
      arith,
      send_header_in_bounds w 501 (codes "Not Implemented") time 0 request_id false
          (opened w c r all) range,
      answered-AllSucceed w 501 (codes "Not Implemented") time 0 request_id false (opened w c r all)
          all,
      all.all_puts (codes "\n"),
    )
