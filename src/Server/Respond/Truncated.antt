-- ===== src/Server/Respond/Truncated.antt =====
-- `process_GET` on a file with NUL bytes.

use cuda_open_mp.Common.{
  some, ℕ, zero, suc, ◌+◌, ◌≤◌, ◌<◌, ◌≡◌, sym, subst, List, [], ◌∷◌, ◌++◌, arith, ◌⊎◌, inl, inr,
  length, length-append,
}
use cuda_open_mp.Server.Text.{codes}
use cuda_open_mp.Server.Text.Decimal.{int_end}
use cuda_open_mp.Server.Respond.{
  World, Conn, shut, cut_nul, fgets, send_body, process_get, log_line, protocol_line,
}
use cuda_open_mp.Server.Respond.File.{
  AllSucceed, ok_header, header_text-ok_header, sent-send, header_lem, fgets-append, fgets-progress,
  length-cut_nul,
}

abbrev pub HasNul : List ℕ → Type 0
HasNul [] = ⊥
HasNul (c ∷ s) = (c ≡ 0) ⊎ HasNul s

HasNul-append : (s t : List ℕ) → HasNul (s ++ t) → HasNul s ⊎ HasNul t
HasNul-append [] t h = inr h
HasNul-append (c ∷ s) t (inl e) = inl (inl e)
HasNul-append (c ∷ s) t (inr h) = elim (HasNul-append s t h) [ inl a ↦ inl (inr a) | inr b ↦ inr b ]

cut_nul-shorter : (s : List ℕ) → HasNul s → length (cut_nul s) < length s
unfolding cut_nul
cut_nul-shorter [] h = absurd h
cut_nul-shorter (c ∷ s) (inl e) = ground arith
cut_nul-shorter (c ∷ s) (inr h) = ground (arith, cut_nul-shorter s h)

module _ (w : World) (all : AllSucceed w) where
  length-chunk :
      (c : Conn) (line rest : List ℕ)
      → length (c.sent ++ cut_nul line) + length rest ≤ length c.sent + length (line ++ rest)
  length-chunk c line rest =
      omega
        (arith, length-append c.sent (cut_nul line), length-append line rest, length-cut_nul line)

  length-send_body :
      (f : ℕ) (s : List ℕ) (c : Conn) → length (send_body w f s c).sent ≤ length c.sent + length s
  unfolding send_body
  length-send_body zero s c = omega arith
  length-send_body (suc f) [] c = omega arith
  length-send_body (suc f) (b ∷ s) c =
      let line = (fgets 99 (b ∷ s)).0 in
      let rest = (fgets 99 (b ∷ s)).1 in
      ground (
        arith,
        all.all_sends (cut_nul line),
        sent-send w all (cut_nul line) c,
        length-send_body f rest (record c { sent = c.sent ++ cut_nul line }),
        length-chunk c line rest,
        fgets-append 99 (b ∷ s),
      )

  -- Where every `send` succeeds, fewer bytes of a file with a NUL byte are sent than the file has,
  -- which is the number that the header announces.
  pub send_body-HasNul :
      (f : ℕ) (s : List ℕ) (c : Conn)
      → length s ≤ f
      → HasNul s
      → length (send_body w f s c).sent < length c.sent + length s
  unfolding send_body
  send_body-HasNul f [] c h k = absurd k
  send_body-HasNul zero (b ∷ s) c h k = absurd (omega arith)
  send_body-HasNul (suc f) (b ∷ s) c h k =
      let line = (fgets 99 (b ∷ s)).0 in
      let rest = (fgets 99 (b ∷ s)).1 in
      let whole = fgets-append 99 (b ∷ s) in
      let c' : Conn = record c { sent = c.sent ++ cut_nul line } in
      elim (HasNul-append line rest (subst HasNul (sym whole) k)) [
        | inl in_line ↦ ground (
          arith,
          all.all_sends (cut_nul line),
          sent-send w all (cut_nul line) c,
          length-append c.sent (cut_nul line),
          length-append line rest,
          cut_nul-shorter line in_line,
          length-send_body f rest c',
          whole,
        )
        | inr in_rest ↦ ground (
          arith,
          all.all_sends (cut_nul line),
          sent-send w all (cut_nul line) c,
          length-chunk c line rest,
          send_body-HasNul f rest c' (omega (arith, fgets-progress 98 b s)) in_rest,
          whole,
        )
      ]

-- Where every system call succeeds, the time has at most 29 bytes and the request id is an `int`, a
-- GET of a file of fewer than 2 ^ 31 bytes, one of them NUL, transmits fewer bytes behind the header
-- than the Content-Length that the header announces.
pub process_get-truncated :
    (w : World) (path time file : List ℕ) (request_id : ℕ) (c : Conn)
    → AllSucceed w
    → w.fopen path ≡ some file
    → HasNul file
    → length file < int_end
    → length time ≤ 29
    → request_id < int_end
    → (c' : Conn) × (process_get w path request_id time c ≡ some c')
      × (length c'.sent < length c.sent + length (ok_header time (length file)) + length file)
unfolding process_get
process_get-truncated w path time file request_id c all found n l t i =
    let header = ok_header time (length file) in
    let logged = c.log ++ log_line request_id (protocol_line 200 (codes "OK")) in
    let c1 : Conn = record c { log = logged; sent = c.sent ++ header } in
    (
      shut (send_body w (length file) file c1),
      ground (
        arith,
        all.all_stats path,
        all.all_reads path,
        header_text-ok_header time (length file) l,
        header_lem w all 200 (codes "OK") time (length file) request_id c (omega arith),
      ),
      omega (
        arith,
        send_body-HasNul w all (length file) file c1 (omega arith) n,
        length-append c.sent header,
      ),
    )
