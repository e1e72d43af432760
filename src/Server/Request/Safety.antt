-- ===== src/Server/Request/Safety.antt =====
-- Requests that end with a newline and lead the server out of its memory.

use cuda_open_mp.Common.{
  ℕ, zero, suc, ◌+◌, ◌≤◌, ◌<◌, ◌≡◌, refl, ap, ◌∙◌, ◌⊎◌, inl, inr, true, none, some, List, [], ◌∷◌,
  ◌++◌, arith, if◌then◌else◌, length, length-append, get_elem?,
}
use cuda_open_mp.Server.Text.{codes, last_or}
use cuda_open_mp.Server.Text.Decimal.{decimal, tens, length-decimal}
use cuda_open_mp.Server.Parse.{Command}
use cuda_open_mp.Server.Parse.Words.{words}
use cuda_open_mp.Server.Respond.{max_buff, World, Conn, fits, cut_nul, fputs}
use cuda_open_mp.Server.Respond.File.{length-cut_nul}
use cuda_open_mp.Server.Respond.Header.{fits_of_le}
use cuda_open_mp.Server.Request.{token, time_line, command_line, answer, with_command, serve}
use cuda_open_mp.Server.Request.Tokens.{Reads, reads}

-- The values that a round of the loop starts from: an `int` has at most 10 digits, and `strftime`
-- prints at most 29 bytes.
pub record Started (request_id thread_index : ℕ) (time received : List ℕ) : Type 0 where
  pub id_small : request_id < tens 10
  pub index_small : thread_index < tens 10
  pub time_short : length time ≤ 29
  pub received_fits : length received < max_buff
  pub newline : last_or (cut_nul received) 0 ≡ b'\n'

length-time_line :
    (request_id thread_index : ℕ) (time : List ℕ)
    → request_id < tens 10
    → thread_index < tens 10
    → length (time_line request_id thread_index time) ≤ 23 + length time
unfolding time_line
length-time_line request_id thread_index time h k = omega (
  arith,
  length-append (decimal request_id)
      (codes " " ++ (decimal thread_index ++ (codes " " ++ (time ++ codes "\n")))),
  length-append (decimal thread_index) (codes " " ++ (time ++ codes "\n")),
  length-append time (codes "\n"),
  length-decimal 9 request_id h,
  length-decimal 9 thread_index k,
)

get_elem?-none {ℓ} : {A : Type ℓ} (xs : List A) (i : ℕ) → length xs ≤ i → get_elem? xs i ≡ none
get_elem?-none [] i h = refl
get_elem?-none (x ∷ xs) zero h = absurd (omega arith)
get_elem?-none (x ∷ xs) (suc i) h = get_elem?-none xs i (omega arith)

module _ (w : World) (cmd : Command) (buff : List ℕ) (request_id : ℕ) (time : List ℕ)
    (c : Conn) where
  with_command_lem :
      (a b v : List ℕ)
      → token cmd 0 ≡ some a
      → token cmd 1 ≡ some b
      → token cmd 2 ≡ some v
      → with_command w true cmd buff request_id time c ≡ (
          if fits (command_line request_id a b v)
          then answer w true a b v buff request_id time (fputs w (command_line request_id a b v) c)
          else none)
  unfolding with_command
  with_command_lem a b v ta tb tv = ground arith

  with_command-none : token cmd 2 ≡ none → with_command w true cmd buff request_id time c ≡ none
  unfolding with_command
  with_command-none t = ground arith

-- A request whose first three words make a line of the log that does not fit its buffer.
pub record LongLine (request_id : ℕ) (ws : List (List ℕ)) : Type 0 where
  pub method : List ℕ
  pub path : List ℕ
  pub version : List ℕ
  pub more : List (List ℕ)
  pub split : ws ≡ method ∷ path ∷ version ∷ more
  pub long : max_buff ≤ length (command_line request_id method path version)

module _ (w : World) {request_id thread_index : ℕ} {time received : List ℕ} (c : Conn)
    (s : Started request_id thread_index time received) where
  abbrev logged : Conn
  logged = fputs w (time_line request_id thread_index time) c

  abbrev parsed : Reads (cut_nul received)
  parsed =
      reads (cut_nul received) (omega (arith, s.received_fits, length-cut_nul received)) s.newline

  serve-with_command :
      serve w request_id thread_index (some time) received c
      ≡ with_command w true parsed.cmd (cut_nul received) request_id time logged
  unfolding serve
  serve-with_command = rw (
    fits_of_le (time_line request_id thread_index time) (
        omega (
          arith,
          s.time_short,
          length-time_line request_id thread_index time s.id_small s.index_small,
        )),
    parsed.returns,
  )

  -- With three words or more the server gets to its tests, if the line of the log fits.
  pub serve-answer :
      (a b v : List ℕ) (more : List (List ℕ))
      → words (cut_nul received) ≡ a ∷ b ∷ v ∷ more
      → serve w request_id thread_index (some time) received c ≡ (
          if fits (command_line request_id a b v)
          then answer w true a b v
              (cut_nul received)
              request_id
              time
              (fputs w (command_line request_id a b v) logged)
          else none)
  serve-answer a b v more e =
      serve-with_command
      ∙ with_command_lem w parsed.cmd (cut_nul received) request_id time logged a b v
          (parsed.tokens 0 (λ _. rw e (λ q. cc)) ∙ ap (λ ws. get_elem? ws 0) e)
          (parsed.tokens 1 (λ q. absurd (omega arith)) ∙ ap (λ ws. get_elem? ws 1) e)
          (parsed.tokens 2 (λ q. absurd (omega arith)) ∙ ap (λ ws. get_elem? ws 2) e)

  -- With fewer than three words the behaviour of the server is undefined: a token is read through a
  -- NULL pointer, or from memory that nothing was written to.
  serve-few_words :
      length (words (cut_nul received)) < 3
      → serve w request_id thread_index (some time) received c ≡ none
  serve-few_words h =
      serve-with_command
      ∙ with_command-none w parsed.cmd (cut_nul received) request_id time logged (
          parsed.tokens 2 (λ q. absurd (omega arith))
          ∙ get_elem?-none (words (cut_nul received)) 2 (omega arith))

  -- On a request that ends with a newline the behaviour of the server is undefined if the request has
  -- fewer than three words, and if the line of the log with its first three words does not fit the
  -- buffer of MAXBUFF bytes that it is printed to.
  pub serve-undefined :
      (length (words (cut_nul received)) < 3) ⊎ LongLine request_id (words (cut_nul received))
      → serve w request_id thread_index (some time) received c ≡ none
  unfolding fits
  serve-undefined (inl few) = serve-few_words few
  serve-undefined (inr r) =
      rw (serve-answer r.method r.path r.version r.more r.split) (let big = r.long in ground arith)
