-- ===== src/Server/Request/Defined.antt =====
-- Requests of three words that the log has room for, whatever the system calls do.

use cuda_open_mp.Common.{
  ℕ, ◌≤◌, ◌<◌, ◌≡◌, ◌≢◌, refl, sym, ap, ◌∙◌, inl, inr, Bool, true, false, Option, none, some, List,
  ◌∷◌, arith, Option-cases, if◌then◌else◌, length, length-append,
}
use cuda_open_mp.Server.Text.{codes}
use cuda_open_mp.Server.Text.Decimal.{tens}
use cuda_open_mp.Server.Parse.Words.{words}
use cuda_open_mp.Server.Respond.{
  max_buff, World, Conn, cut_nul, fputs, log_line, options_text, send_header, process_get,
  process_head, process_options, process_trace,
}
use cuda_open_mp.Server.Respond.File.{length-cut_nul}
use cuda_open_mp.Server.Respond.Header.{send_header_in_bounds, fits_of_le, length-log_line}
use cuda_open_mp.Server.Request.{
  time_line, command_line, behind, dispatch, bad_request, answer, serve,
}
use cuda_open_mp.Server.Request.Safety.{Started, serve-answer}

-- Files that open can be measured and read.
abbrev pub Readable : World → Type 0
Readable w =
    (path file : List ℕ) → w.fopen path ≡ some file → (w.stats path ≡ true) × (w.reads path ≡ true)

-- A computation that is defined.
abbrev pub IsDefined : Option Conn → Type 0
IsDefined o = o ≢ none

some-ne-none {ℓ} : {A : Type ℓ} {a : A} → some a ≡ none → ⊥
some-ne-none e = cc

module _ (w : World) (readable : Readable w) (request_id : ℕ) (time : List ℕ) (c : Conn)
    (id_small : request_id < tens 10) (time_short : length time ≤ 29) where
  header :
      (code : ℕ) (str : List ℕ) (count : ℕ) (close_client : Bool)
      → code < tens 3
      → length str ≤ 100
      → IsDefined (send_header w code str time count request_id close_client c)
  header code str count close_client a b = λ e. absurd (
      some-ne-none (
        sym (send_header_in_bounds w code str time count request_id close_client c (omega arith))
        ∙ e))

  get-IsDefined : (path : List ℕ) → IsDefined (process_get w path request_id time c)
  unfolding process_get
  get-IsDefined path = elim (Option-cases (w.fopen path)) [
    | inl missing ↦
        ground (arith, header 404 (codes "Not Found") 0 false (omega arith) (omega arith))
    | inr (file, found) ↦ ground (
      arith,
      (readable path file found).0,
      (readable path file found).1,
      header 200 (codes "OK") (length file) false (omega arith) (omega arith),
    )
  ]

  head-IsDefined : (path : List ℕ) → IsDefined (process_head w path request_id time c)
  unfolding process_head
  head-IsDefined path = elim (Option-cases (w.fopen path)) [
    | inl missing ↦
        ground (arith, header 404 (codes "Not Found") 0 false (omega arith) (omega arith))
    | inr (file, found) ↦ ground (
      arith,
      (readable path file found).0,
      (readable path file found).1,
      header 200 (codes "OK") (length file) false (omega arith) (omega arith),
    )
  ]

  options-IsDefined : IsDefined (process_options w request_id time c)
  unfolding process_options options_text
  options-IsDefined = ground (
    arith,
    fits_of_le (codes "HTTP/1.1 200 OK") (omega arith),
    fits_of_le (log_line request_id (codes "HTTP/1.1 200 OK"))
        (omega (arith, length-log_line request_id (codes "HTTP/1.1 200 OK") id_small)),
    fits_of_le (options_text time) (
        omega (
          arith,
          length-append time (
              codes "\nConnection: close\nAllow: OPTIONS, GET, HEAD, TRACE\nContent-Length: 0\n\n"),
        )),
  )

  trace-IsDefined :
      (message : List ℕ)
      → length message < max_buff
      → IsDefined (process_trace w message request_id time c)
  unfolding process_trace
  trace-IsDefined message h =
      ground (arith, header 200 (codes "OK") (length message) false (omega arith) (omega arith))

  dispatch-IsDefined :
      (method path buff : List ℕ)
      → length buff < max_buff
      → IsDefined (dispatch w method path buff request_id time c)
  unfolding dispatch
  dispatch-IsDefined method path buff h = ground (
    arith,
    get-IsDefined (behind path),
    head-IsDefined (behind path),
    options-IsDefined,
    trace-IsDefined buff h,
    header 501 (codes "Not Implemented") 0 false (omega arith) (omega arith),
  )

  answer-IsDefined :
      (read : Bool) (method path version buff : List ℕ)
      → length buff < max_buff
      → IsDefined (answer w read method path version buff request_id time c)
  unfolding answer bad_request
  answer-IsDefined read method path version buff h = ground (
    arith,
    dispatch-IsDefined method path buff h,
    header 400 (codes "Bad Request") 0 true (omega arith) (omega arith),
  )

value_of : (o : Option Conn) → IsDefined o → (c : Conn) × (o ≡ some c)
value_of none h = absurd (h refl)
value_of (some c) h = (c, refl)

-- A request that ends with a newline, has three words or more, and whose line of the log fits its
-- buffer, is answered, where every file that opens can be measured and read: whether or not a file
-- opens, of whatever size it is, and whether or not `send` and `fputs` succeed, no buffer is left, no
-- memory is read that was not written, and the loop over the file ends.
pub serve-defined :
    (w : World) (request_id thread_index : ℕ) (time received : List ℕ) (c : Conn)
    (method path version : List ℕ) (more : List (List ℕ))
    → Readable w
    → Started request_id thread_index time received
    → words (cut_nul received) ≡ method ∷ path ∷ version ∷ more
    → length (command_line request_id method path version) < max_buff
    → (c' : Conn) × (serve w request_id thread_index (some time) received c ≡ some c')
serve-defined w request_id thread_index time received c method path version more readable s e
      short =
    let c1 =
      fputs w (command_line request_id method path version)
        (fputs w (time_line request_id thread_index time) c) in
    let defined =
      answer-IsDefined w readable request_id time c1 s.id_small s.time_short true method path
        version (cut_nul received) (omega (arith, s.received_fits, length-cut_nul received)) in
    let (c', done) = value_of _ defined in
    (
      c',
      serve-answer w c s method path version more e
          ∙ ap
              (λ b.
                if b
                then answer w true method path version (cut_nul received) request_id time c1
                else none)
              (fits_of_le (command_line request_id method path version) (omega arith))
          ∙ done,
    )
