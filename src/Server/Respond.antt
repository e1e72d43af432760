-- ===== src/Server/Respond.antt =====
-- The answers of Pthread/pthreads-web-server-master/server.c: `sendHeader`, `process_GET`,
-- `process_HEAD`, `process_OPTIONS` and `process_TRACE`.
pub mod Header
pub mod File
pub mod Truncated
mod Tests
use Prim.Native.String
use Prim.Native.String.{String}
use cuda_open_mp.Common.{
  ℕ, zero, suc, ◌+◌, Bool, true, false, Option, none, some, List, [], ◌∷◌, ◌++◌, ltb, ◌==◌,
  if◌then◌else◌, length,
}
use cuda_open_mp.Server.Text.{codes}
use cuda_open_mp.Server.Text.Decimal.{decimal, int_decimal}

-- MAXBUFF
abbrev pub max_buff : ℕ
max_buff = 1000

-- The system calls that answer a request: the bytes of the file that `fopen` opens for reading,
-- whether `fstat` and `fgets` succeed on the file of that name (a directory opens and cannot be
-- read), and whether `send` and `fputs` succeed on these bytes.
pub record World : Type 0 where
  pub fopen : List ℕ → Option (List ℕ)
  pub stats : List ℕ → Bool
  pub reads : List ℕ → Bool
  pub sends : List ℕ → Bool
  pub puts : List ℕ → Bool

-- A connection with the log beside it: what `fputs` has written and `send` has transmitted, and
-- whether the socket has been closed and shut down.
pub record Conn : Type 0 where
  pub log : List ℕ
  pub sent : List ℕ
  pub is_closed : Bool
  pub is_shut : Bool

abbrev pub shut : Conn → Conn
shut c = record c { is_shut = true }

-- Whether a text and its NUL fit a buffer of MAXBUFF bytes; `sprintf` writes on if they do not.
unfoldable pub fits : List ℕ → Bool
fits s = ltb (length s) max_buff

-- The bytes before the first NUL.
unfoldable pub cut_nul : List ℕ → List ℕ
cut_nul [] = []
cut_nul (c ∷ s) = if c == 0 then [] else c ∷ cut_nul s

-- "HTTP/1.1 %d %s"
unfoldable pub protocol_line : ℕ → List ℕ → List ℕ
protocol_line code str = codes "HTTP/1.1 " ++ (decimal code ++ (codes " " ++ str))

-- "%d %s\n"
unfoldable pub log_line : ℕ → List ℕ → List ℕ
log_line request_id protocol = decimal request_id ++ (codes " " ++ (protocol ++ codes "\n"))

-- The text of the header that is sent; `count` is what the `int` of that name was set to.
unfoldable pub header_text : ℕ → List ℕ → List ℕ → ℕ → List ℕ
header_text code str time count =
    protocol_line code str
    ++ (codes "\nDate: "
        ++ (time
            ++ (codes
                  "\nConnection: close\nContent-Type: text/html; charset=utf-8\nContent-Length: "
                ++ (int_decimal count ++ codes "\n\n"))))

unfoldable pub options_text : List ℕ → List ℕ
options_text time =
    codes "HTTP/1.1 200 OK\nDate: "
    ++ (time
        ++ codes "\nConnection: close\nAllow: OPTIONS, GET, HEAD, TRACE\nContent-Length: 0\n\n")

-- `fgets` into a buffer of `n + 1` bytes: at most `n` bytes, up to a newline, and what is left.
unfoldable pub fgets : ℕ → List ℕ → List ℕ × List ℕ
fgets zero s = ([], s)
fgets (suc n) [] = ([], [])
fgets (suc n) (c ∷ s) =
    let (line, rest) = fgets n s in if c == b'\n' then (c ∷ [], s) else (c ∷ line, rest)

-- The functions return the new state; `none` is a write outside a buffer, a read of memory that was
-- not written, or a loop that does not end.
module _ (w : World) where
  unfoldable pub fputs : List ℕ → Conn → Conn
  fputs s c = if w.puts s then record c { log = c.log ++ s } else c

  unfoldable pub send : List ℕ → Conn → Conn
  send s c = if w.sends s then record c { sent = c.sent ++ s } else c

  -- `sendHeader`. It returns before it sends and closes, if the log cannot be written.
  unfoldable pub send_header : ℕ → List ℕ → List ℕ → ℕ → ℕ → Bool → Conn → Option Conn
  send_header code str time count request_id close_client c =
      let protocol = protocol_line code str in
      let logged = log_line request_id protocol in
      let buffer = header_text code str time count in
      let c' = send buffer (fputs logged c) in
      if fits protocol
      then (if fits logged
          then (if w.puts logged
              then (if fits buffer
                  then some (if close_client then record c' { is_closed = true } else c')
                  else none)
              else some c)
          else none)
      else none

  -- The loop of `process_GET`: a chunk of the file for each `fgets`, cut at a NUL by `strlen`, until
  -- the file is read or a `send` fails. The fuel is the number of bytes left.
  unfoldable pub send_body : ℕ → List ℕ → Conn → Conn
  send_body zero s c = c
  send_body (suc f) [] c = c
  send_body (suc f) (b ∷ s) c =
      let (chunk, rest) = fgets 99 (b ∷ s) in
      let more = send_body f rest (send (cut_nul chunk) c) in
      if w.sends (cut_nul chunk) then more else c

  -- `path` is tok[1] + 1. Where `fstat` fails, `st` is read unwritten; where `fgets` fails, the end of
  -- the file is never seen.
  unfoldable pub process_get : List ℕ → ℕ → List ℕ → Conn → Option Conn
  process_get path request_id time c = elim (w.fopen path) [
    | none ↦ elim (send_header 404 (codes "Not Found") time 0 request_id false c) [
      | none ↦ none
      | some c' ↦ some (shut c')
    ]
    | some file ↦
        let answered = send_header 200 (codes "OK") time (length file) request_id false c in
        if w.stats path
        then elim answered [
          | none ↦ none
          | some c' ↦ if w.reads path then some (shut (send_body (length file) file c')) else none
        ]
        else none
  ]

  unfoldable pub process_head : List ℕ → ℕ → List ℕ → Conn → Option Conn
  process_head path request_id time c = elim (w.fopen path) [
    | none ↦ elim (send_header 404 (codes "Not Found") time 0 request_id false c) [
      | none ↦ none
      | some c' ↦ some (shut c')
    ]
    | some file ↦
        let answered = send_header 200 (codes "OK") time (length file) request_id false c in
        if w.stats path then elim answered [ none ↦ none | some c' ↦ some (shut c') ] else none
  ]

  -- It goes on where the log cannot be written.
  unfoldable pub process_options : ℕ → List ℕ → Conn → Option Conn
  process_options request_id time c =
      let protocol = codes "HTTP/1.1 200 OK" in
      let logged = log_line request_id protocol in
      let buffer = options_text time in
      if fits protocol
      then (if fits logged
          then (if fits buffer then some (shut (send buffer (fputs logged c))) else none)
          else none)
      else none

  unfoldable pub process_trace : List ℕ → ℕ → List ℕ → Conn → Option Conn
  process_trace message request_id time c =
      elim (send_header 200 (codes "OK") time (length message) request_id false c) [
        | none ↦ none
        | some c' ↦ some (shut (send message c'))
      ]
