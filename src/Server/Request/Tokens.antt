-- ===== src/Server/Request/Tokens.antt =====
-- The tokens of a request that ends with a newline, as the server reads them.
use cuda_open_mp.Common.{
  ℕ, zero, suc, ◌<◌, ◌≡◌, ◌≢◌, refl, true, some, List, [], ◌∷◌, ◌++◌, map, arith, length, get_elem?,
}
use cuda_open_mp.Server.Text.{last_or}
use cuda_open_mp.Server.Parse.{max_toks, Token, Command, command, normal, read_command, finish}
use cuda_open_mp.Server.Parse.Loop.{closed}
use cuda_open_mp.Server.Parse.Words.{words, Spare, outcome, read_command-ideal, outcome-Ends}
use cuda_open_mp.Server.Request.{c_string, token}

-- Behind at least one word, what is spare is not terminated.
garbage :
    (ws : List (List ℕ)) (w : List ℕ) (vs : List Token) (extra : List Token) (i : ℕ)
    → Spare (closed w ∷ vs) extra
    → c_string (get_elem? (map closed ws ++ extra) i) ≡ get_elem? ws i
unfolding c_string
garbage [] w vs [] i h = refl
garbage [] w vs (t ∷ []) zero h = ground (arith, h)
garbage [] w vs (t ∷ []) (suc i) h = refl
garbage [] w vs (t ∷ u ∷ rest) i h = absurd h
garbage (v ∷ ws) w vs extra zero h = refl
garbage (v ∷ ws) w vs extra (suc i) h = garbage ws w vs extra i h

-- The token at an index is the word there, where that is not the first word of a request without any.
tokens-words :
    (ws : List (List ℕ)) (extra : List Token) (i : ℕ)
    → Spare (map closed ws) extra
    → (i ≡ 0 → ws ≢ [])
    → c_string (get_elem? (map closed ws ++ extra) i) ≡ get_elem? ws i
unfolding c_string
tokens-words [] extra zero h k = absurd (k refl refl)
tokens-words [] [] (suc i) h k = refl
tokens-words [] (t ∷ []) (suc i) h k = refl
tokens-words [] (t ∷ u ∷ rest) (suc i) h k = absurd h
tokens-words (w ∷ ws) extra i h k = garbage (w ∷ ws) w (map closed ws) extra i h

-- What `read_command` makes of a request that fits its buffer and ends with a newline.
pub record Reads (buff : List ℕ) : Type 0 where
  pub cmd : Command
  pub returns : read_command buff ≡ some (true, cmd)
  pub tokens : (i : ℕ) → (i ≡ 0 → words buff ≢ []) → token cmd i ≡ get_elem? (words buff) i

pub reads : (buff : List ℕ) → length buff < max_toks → last_or buff 0 ≡ b'\n' → Reads buff
unfolding finish
reads [] h k = absurd (omega arith)
reads (c ∷ s) h k =
    let en = outcome-Ends (c ∷ s) k in
    record {
      cmd = command normal (outcome (c ∷ s));
      returns = rw (read_command-ideal (c ∷ s) h, k);
      tokens = λ i n. rw en.toks (tokens-words (words (c ∷ s)) en.extra i en.spare n);
    }
