-- ===== src/Server/Request.antt =====
-- `process_requests` of Pthread/pthreads-web-server-master/server.c: one received request, from the
-- bytes that `recv` delivers to the answer.
pub mod Tokens
pub mod Safety
pub mod Defined
pub mod Dispatch
mod Tests
use Prim.Native.String
use Prim.Native.String.{String}
use cuda_open_mp.Common.{
  ℕ, zero, suc, ◌+◌, Bool, true, false, ◌||◌, not, Option, none, some, List, [], ◌∷◌, ◌++◌, ltb,
  ◌==◌, if◌then◌else◌, length, get_elem?,
}
use cuda_open_mp.Server.Text.{codes, str_eq}
use cuda_open_mp.Server.Text.Decimal.{decimal}
use cuda_open_mp.Server.Parse.{Token, Command, read_command}
use cuda_open_mp.Server.Respond.{
  World, Conn, shut, fits, cut_nul, fputs, send_header, process_get, process_head, process_options,
  process_trace,
}

-- A token read as a C string. `none`: the pointer is NULL, or the bytes run on into memory of no
-- known value, and what the program does is undefined.
unfoldable pub c_string : Option Token → Option (List ℕ)
c_string none = none
c_string (some w) = if w.ended then some w.chars else none

abbrev pub token : Command → ℕ → Option (List ℕ)
token cmd i = c_string (get_elem? cmd.tok i)

-- "%d %d %s\n"
unfoldable pub time_line : ℕ → ℕ → List ℕ → List ℕ
time_line request_id thread_index time =
    decimal request_id
    ++ (codes " " ++ (decimal thread_index ++ (codes " " ++ (time ++ codes "\n"))))

-- "%d %s %s %s\n"
unfoldable pub command_line : ℕ → List ℕ → List ℕ → List ℕ → List ℕ
command_line request_id a b c =
    decimal request_id
    ++ (codes " " ++ (a ++ (codes " " ++ (b ++ (codes " " ++ (c ++ codes "\n"))))))

-- `*s != '/'`
unfoldable pub no_slash : List ℕ → Bool
no_slash [] = true
no_slash (c ∷ s) = not (c == b'/')

-- `s + 1`
abbrev pub behind : List ℕ → List ℕ
behind [] = []
behind (c ∷ s) = s

module _ (w : World) where
  -- The choice of the method.
  unfoldable pub dispatch : List ℕ → List ℕ → List ℕ → ℕ → List ℕ → Conn → Option Conn
  dispatch method path buff request_id time c =
      if str_eq (codes "GET") method
      then process_get w (behind path) request_id time c
      else if str_eq (codes "HEAD") method
      then process_head w (behind path) request_id time c
      else if str_eq (codes "OPTIONS") method
      then process_options w request_id time c
      else if str_eq (codes "TRACE") method
      then process_trace w buff request_id time c
      else elim (send_header w 501 (codes "Not Implemented") time 0 request_id false c) [
        | none ↦ none
        | some c' ↦ some (shut c')
      ]

  -- The answer to a request that is refused; the loop goes on behind it, past the blank line that
  -- ends an entry of the log.
  unfoldable pub bad_request : ℕ → List ℕ → Conn → Option Conn
  bad_request request_id time c =
      elim (send_header w 400 (codes "Bad Request") time 0 request_id true c) [
        | none ↦ none
        | some c' ↦ some (shut c')
      ]

  -- The tests on the three tokens, on what `read_command` returned, and the end of the entry.
  unfoldable pub answer : Bool → List ℕ → List ℕ → List ℕ → List ℕ → ℕ → List ℕ → Conn → Option Conn
  answer read method path version buff request_id time c =
      if no_slash path || not (str_eq (codes "HTTP/1.1") version)
      then bad_request request_id time c
      else if not read
      then bad_request request_id time c
      else elim (dispatch method path buff request_id time c) [
        | none ↦ none
        | some c' ↦ some (fputs w (codes "\n") c')
      ]

  -- The line of the log that holds the three tokens, and what follows.
  unfoldable pub with_command : Bool → Command → List ℕ → ℕ → List ℕ → Conn → Option Conn
  with_command read cmd buff request_id time c = elim (token cmd 0) [
    | none ↦ none
    | some a ↦ elim (token cmd 1) [
      | none ↦ none
      | some b ↦ elim (token cmd 2) [
        | none ↦ none
        | some v ↦
            let logged = command_line request_id a b v in
            if fits logged then answer read a b v buff request_id time (fputs w logged c) else none
      ]
    ]
  ]

  -- One round of the loop of `process_requests` behind `recv`, which delivered the bytes `received`
  -- (more than 0 and at most MAXBUFF - 1 of them). `time` is what `strftime` prints, `none` if it
  -- prints nothing.
  unfoldable pub serve : ℕ → ℕ → Option (List ℕ) → List ℕ → Conn → Option Conn
  serve request_id thread_index none received c = some c
  serve request_id thread_index (some time) received c =
      let buff = cut_nul received in
      let logged = time_line request_id thread_index time in
      if fits logged
      then (elim (read_command buff) [
        | none ↦ none
        | some (read, cmd) ↦ with_command read cmd buff request_id time (fputs w logged c)
      ])
      else none
