-- ===== src/Server/Respond/Header.antt =====
-- The buffers of `sendHeader`, and what it sends.

use cuda_open_mp.Common.{
  ℕ, ◌+◌, ◌≤◌, ◌<◌, ◌≡◌, Bool, true, some, List, ◌++◌, arith, lt→ltb, if◌then◌else◌, length,
  length-append,
}
use cuda_open_mp.Server.Text.{codes}
use cuda_open_mp.Server.Text.Decimal.{
  decimal, int_decimal, tens, length-int_decimal, length-decimal,
}
use cuda_open_mp.Server.Respond.{
  max_buff, World, Conn, fits, protocol_line, log_line, header_text, fputs, send, send_header,
}

-- The sizes that a header is printed from: `strftime` writes at most 29 bytes and a NUL, and an `int`
-- that is not negative has at most 10 digits.
pub record InRange (code : ℕ) (str time : List ℕ) (request_id : ℕ) : Type 0 where
  pub code_small : code < tens 3
  pub str_short : length str ≤ 100
  pub time_short : length time ≤ 29
  pub id_small : request_id < tens 10

length-protocol_line :
    (code : ℕ) (str : List ℕ) → code < tens 3 → length (protocol_line code str) ≤ 13 + length str
unfolding protocol_line
length-protocol_line code str h =
    omega (arith, length-append (decimal code) (codes " " ++ str), length-decimal 2 code h)

pub length-log_line :
    (request_id : ℕ) (protocol : List ℕ)
    → request_id < tens 10
    → length (log_line request_id protocol) ≤ 12 + length protocol
unfolding log_line
length-log_line request_id protocol h = omega (
  arith,
  length-append (decimal request_id) (codes " " ++ (protocol ++ codes "\n")),
  length-append protocol (codes "\n"),
  length-decimal 9 request_id h,
)

-- The text of the header behind the date.
abbrev rest_of_header : ℕ → List ℕ
rest_of_header count =
    codes "\nConnection: close\nContent-Type: text/html; charset=utf-8\nContent-Length: "
    ++ (int_decimal count ++ codes "\n\n")

length-header_text :
    (code : ℕ) (str time : List ℕ) (count : ℕ)
    → length (header_text code str time count) ≤ length (protocol_line code str) + length time + 103
unfolding header_text
length-header_text code str time count = omega (
  arith,
  length-append (protocol_line code str) (codes "\nDate: " ++ (time ++ rest_of_header count)),
  length-append time (rest_of_header count),
  length-append (int_decimal count) (codes "\n\n"),
  length-int_decimal count,
)

pub fits_of_le : (s : List ℕ) → length s ≤ 999 → fits s ≡ true
unfolding fits
fits_of_le s h = lt→ltb (length s) max_buff (omega arith)

-- What `sendHeader` leaves of a connection, its buffers being large enough: the line of the log, and
-- if that was written the header, and the socket closed if told so.
abbrev pub answered : World → ℕ → List ℕ → List ℕ → ℕ → ℕ → Bool → Conn → Conn
answered w code str time count request_id close_client c =
    let c' =
      send w (header_text code str time count)
        (fputs w (log_line request_id (protocol_line code str)) c) in
    if w.puts (log_line request_id (protocol_line code str))
    then (if close_client then record c' { is_closed = true } else c')
    else c

-- For values in the ranges of their types no `sprintf` of `sendHeader` leaves its buffer.
pub send_header_in_bounds :
    (w : World) (code : ℕ) (str time : List ℕ) (count request_id : ℕ) (close_client : Bool)
    (c : Conn)
    → InRange code str time request_id
    → send_header w code str time count request_id close_client c
      ≡ some (answered w code str time count request_id close_client c)
unfolding send_header fputs send
send_header_in_bounds w code str time count request_id close_client c r =
    let protocol = length-protocol_line code str r.code_small in
    let logged = length-log_line request_id (protocol_line code str) r.id_small in
    let header = length-header_text code str time count in
    ground (
      arith,
      fits_of_le (protocol_line code str) (omega (arith, r.str_short)),
      fits_of_le (log_line request_id (protocol_line code str)) (omega (arith, r.str_short)),
      fits_of_le (header_text code str time count) (omega (arith, r.str_short, r.time_short)),
    )
