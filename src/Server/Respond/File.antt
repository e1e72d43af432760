-- ===== src/Server/Respond/File.antt =====
-- What `process_GET` sends of a file, and `process_HEAD` beside it.

use cuda_open_mp.Common.{
  ℕ, zero, suc, ◌≤◌, ◌<◌, ◌≡◌, ◌≢◌, refl, sym, subst, ap, ◌∙◌, true, false, none, some, List, [],
  ◌∷◌, ◌++◌, arith, inl, inr, Option-cases, append_assoc, append-nil, length,
}
use cuda_open_mp.Server.Text.{codes}
use cuda_open_mp.Server.Text.Decimal.{decimal, digits_onto, int_decimal-decimal, int_end}
use cuda_open_mp.Server.Respond.{
  World, Conn, protocol_line, log_line, header_text, fputs, send, send_header, cut_nul, fgets,
  send_body, process_get, process_head,
}
use cuda_open_mp.Server.Respond.Header.{InRange, answered, send_header_in_bounds}

-- Every system call succeeds.
pub record AllSucceed (w : World) : Type 0 where
  pub all_stats : (s : List ℕ) → w.stats s ≡ true
  pub all_reads : (s : List ℕ) → w.reads s ≡ true
  pub all_sends : (s : List ℕ) → w.sends s ≡ true
  pub all_puts : (s : List ℕ) → w.puts s ≡ true

abbrev pub NulFree : List ℕ → Type 0
NulFree [] = Unit {0}
NulFree (c ∷ s) = (c ≢ 0) × NulFree s

NulFree-append : (s t : List ℕ) → NulFree (s ++ t) → NulFree s × NulFree t
NulFree-append [] t h = (tt, h)
NulFree-append (c ∷ s) t h = let (a, b) = NulFree-append s t h.1 in ((h.0, a), b)

cut_nul-NulFree : (s : List ℕ) → NulFree s → cut_nul s ≡ s
unfolding cut_nul
cut_nul-NulFree [] h = refl
cut_nul-NulFree (c ∷ s) h = ground (arith, cut_nul-NulFree s)

pub length-cut_nul : (s : List ℕ) → length (cut_nul s) ≤ length s
unfolding cut_nul
length-cut_nul [] = omega arith
length-cut_nul (c ∷ s) = ground (arith, length-cut_nul s)

-- A line and what is left after it make up the text; some of a text that is not empty is read.
pub fgets-append : (n : ℕ) (s : List ℕ) → (fgets n s).0 ++ (fgets n s).1 ≡ s
unfolding fgets
fgets-append zero s = refl
fgets-append (suc n) [] = refl
fgets-append (suc n) (c ∷ s) = ground (arith, fgets-append n s)

pub fgets-progress : (n c : ℕ) (s : List ℕ) → length (fgets (suc n) (c ∷ s)).1 ≤ length s
unfolding fgets
fgets-progress zero c s = ground arith
fgets-progress (suc n) c [] = ground arith
fgets-progress (suc n) c (d ∷ s) = ground (arith, fgets-progress n d s)

-- The header of an answer that announces `n` bytes.
abbrev pub ok_header : List ℕ → ℕ → List ℕ
ok_header time n =
    codes "HTTP/1.1 200 OK\nDate: "
    ++ (time
        ++ (codes "\nConnection: close\nContent-Type: text/html; charset=utf-8\nContent-Length: "
            ++ (decimal n ++ codes "\n\n")))

pub header_text-ok_header :
    (time : List ℕ) (n : ℕ) → n < int_end → header_text 200 (codes "OK") time n ≡ ok_header time n
unfolding header_text protocol_line decimal digits_onto
header_text-ok_header time n h = rw (int_decimal-decimal n h) refl

-- What is transmitted in answer to a GET: a header, and the file if there is one.
abbrev pub get_reply : World → List ℕ → List ℕ → List ℕ
get_reply w path time = elim (w.fopen path) [
  | none ↦ header_text 404 (codes "Not Found") time 0
  | some file ↦ ok_header time (length file) ++ file
]

abbrev pub get_status : World → List ℕ → List ℕ
get_status w path = elim (w.fopen path) [
  | none ↦ protocol_line 404 (codes "Not Found")
  | some file ↦ protocol_line 200 (codes "OK")
]

module _ (w : World) (all : AllSucceed w) where
  pub sent-send : (s : List ℕ) (c : Conn) → send w s c ≡ record c { sent = c.sent ++ s }
  unfolding send
  sent-send s c = rw (all.all_sends s)

  -- The chunks of a file without NUL bytes are the file.
  send_body-NulFree :
      (f : ℕ) (s : List ℕ) (c : Conn)
      → length s ≤ f
      → NulFree s
      → send_body w f s c ≡ record c { sent = c.sent ++ s }
  unfolding send_body
  send_body-NulFree zero [] c h k = rw (append-nil c.sent)
  send_body-NulFree zero (b ∷ s) c h k = absurd (omega arith)
  send_body-NulFree (suc f) [] c h k = rw (append-nil c.sent)
  send_body-NulFree (suc f) (b ∷ s) c h k =
      let line = (fgets 99 (b ∷ s)).0 in
      let rest = (fgets 99 (b ∷ s)).1 in
      let whole = fgets-append 99 (b ∷ s) in
      let (in_line, in_rest) = NulFree-append line rest (subst NulFree (sym whole) k) in
      ground (
        arith,
        all.all_sends (cut_nul line),
        sent-send line c,
        cut_nul-NulFree line in_line,
        send_body-NulFree f rest (record c { sent = c.sent ++ line })
            (omega (arith, fgets-progress 98 b s)) in_rest,
        append_assoc c.sent line rest,
        whole,
      )

  answered-open :
      (code : ℕ) (str time : List ℕ) (count request_id : ℕ) (c : Conn)
      → answered w code str time count request_id false c ≡ record c {
        log = c.log ++ log_line request_id (protocol_line code str);
        sent = c.sent ++ header_text code str time count;
      }
  unfolding fputs send
  answered-open code str time count request_id c = rw (
    all.all_puts (log_line request_id (protocol_line code str)),
    all.all_sends (header_text code str time count),
  )

  pub header_lem :
      (code : ℕ) (str time : List ℕ) (count request_id : ℕ) (c : Conn)
      → InRange code str time request_id
      → send_header w code str time count request_id false c
        ≡ some (record c {
          log = c.log ++ log_line request_id (protocol_line code str);
          sent = c.sent ++ header_text code str time count;
        })
  header_lem code str time count request_id c r =
      send_header_in_bounds w code str time count request_id false c r
      ∙ ap some (answered-open code str time count request_id c)

-- A file that a request names, as far as the bounds of the server's buffers go.
abbrev pub FileInRange : World → List ℕ → Type 0
FileInRange w path =
    (file : List ℕ) → w.fopen path ≡ some file → NulFree file × (length file < int_end)

-- While the system calls succeed, the file is shorter than 2 ^ 31 bytes, its size being an `int`, and
-- holds no NUL byte, the time has at most 29 bytes and the request id is an `int`, a GET is logged with
-- its status, answered with a header that announces the length of the file and with the bytes of the
-- file, or with 404 and no bytes where there is none, and the socket is shut down.
pub process_get_lem :
    (w : World) (path time : List ℕ) (request_id : ℕ) (c : Conn)
    → AllSucceed w
    → FileInRange w path
    → length time ≤ 29
    → request_id < int_end
    → process_get w path request_id time c
      ≡ some (record c {
        log = c.log ++ log_line request_id (get_status w path);
        sent = c.sent ++ get_reply w path time;
        is_shut = true;
      })
unfolding process_get
process_get_lem w path time request_id c all f t i = elim (Option-cases (w.fopen path)) [
  | inl missing ↦
      ground
        (arith, missing, header_lem w all 404 (codes "Not Found") time 0 request_id c (omega arith))
  | inr (file, found) ↦
      let (no_nul, small) = f file found in
      let header = ok_header time (length file) in
      let log = c.log ++ log_line request_id (protocol_line 200 (codes "OK")) in
      ground (
        arith,
        found,
        all.all_stats path,
        all.all_reads path,
        header_text-ok_header time (length file) small,
        header_lem w all 200 (codes "OK") time (length file) request_id c (omega arith),
        send_body-NulFree w all (length file) file (record c { log = log; sent = c.sent ++ header })
            (omega arith) no_nul,
        append_assoc c.sent header file,
      )
]

-- HEAD answers as GET does, less the bytes of the file.
abbrev pub head_reply : World → List ℕ → List ℕ → List ℕ
head_reply w path time = elim (w.fopen path) [
  | none ↦ header_text 404 (codes "Not Found") time 0
  | some file ↦ ok_header time (length file)
]

abbrev pub body : World → List ℕ → List ℕ
body w path = elim (w.fopen path) [ none ↦ [] | some file ↦ file ]

process_head_lem :
    (w : World) (path time : List ℕ) (request_id : ℕ) (c : Conn)
    → AllSucceed w
    → FileInRange w path
    → length time ≤ 29
    → request_id < int_end
    → process_head w path request_id time c
      ≡ some (record c {
        log = c.log ++ log_line request_id (get_status w path);
        sent = c.sent ++ head_reply w path time;
        is_shut = true;
      })
unfolding process_head
process_head_lem w path time request_id c all f t i = elim (Option-cases (w.fopen path)) [
  | inl missing ↦
      ground
        (arith, missing, header_lem w all 404 (codes "Not Found") time 0 request_id c (omega arith))
  | inr (file, found) ↦
      let (no_nul, small) = f file found in
      ground (
        arith,
        found,
        all.all_stats path,
        all.all_reads path,
        header_text-ok_header time (length file) small,
        header_lem w all 200 (codes "OK") time (length file) request_id c (omega arith),
      )
]

get_reply-head_reply :
    (w : World) (path time : List ℕ) → get_reply w path time ≡ head_reply w path time ++ body w path
get_reply-head_reply w path time =
    ground (arith, append-nil (header_text 404 (codes "Not Found") time 0))

-- While the system calls succeed, the file is shorter than 2 ^ 31 bytes and holds no NUL byte, the
-- time has at most 29 bytes and the request id is an `int`, a HEAD request is logged and
-- answered as the GET of the same path, but for the bytes of the file, which GET sends behind it.
pub process_get-process_head :
    (w : World) (path time : List ℕ) (request_id : ℕ) (c : Conn)
    → AllSucceed w
    → FileInRange w path
    → length time ≤ 29
    → request_id < int_end
    → (h : Conn) × (process_head w path request_id time c ≡ some h)
      × (process_get w path request_id time c ≡ some (record h { sent = h.sent ++ body w path }))
process_get-process_head w path time request_id c all f t i =
    let h : Conn = record c {
      log = c.log ++ log_line request_id (get_status w path);
      sent = c.sent ++ head_reply w path time;
      is_shut = true;
    } in
    (
      h,
      process_head_lem w path time request_id c all f t i,
      rw (
        process_get_lem w path time request_id c all f t i,
        get_reply-head_reply w path time,
        append_assoc,
      ),
    )
