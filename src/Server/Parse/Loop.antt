-- ===== src/Server/Parse/Loop.antt =====
-- The loop of `read_command` on a request of fewer than MAXTOKS bytes.
use cuda_open_mp.Common.{
  ℕ, ◌+◌, ◌<◌, ◌≡◌, refl, Bool, true, false, not, List, [], ◌∷◌, ◌++◌, arith, if◌then◌else◌, length,
  length-snoc, get_elem?-append_end, set-append_end,
}
use cuda_open_mp.Server.Text.{is_space, is_empty}
use cuda_open_mp.Server.Parse.{
  max_toks, max_tok_size, Token, Scan, go, put, terminate, close, round, scan,
}

-- A terminated token.
abbrev pub closed : List ℕ → Token
closed w = record { chars = w; ended = true }

-- The loop's variables once the tokens `ts` are closed and the bytes `cur` of the next are read.
abbrev pub at : List Token → List ℕ → Bool → Scan
at ts cur e = record {
  tok = ts ++ (record { chars = cur; ended = e } ∷ []);
  t = length ts;
  ti = length cur;
  count = length ts;
}

-- The same, behind the last token, for which no memory is allocated.
abbrev pub past : List Token → Scan
past ts = record { tok = ts; t = length ts; ti = 0; count = length ts }

-- The loop with no bounds, no indices and no memory.
unfoldable pub ideal : List ℕ → List Token → List ℕ → Bool → Scan
ideal [] ts cur e = at ts cur e
ideal (c ∷ []) ts cur e =
    if not (is_space c)
    then at ts (cur ++ (c ∷ [])) e
    else if is_empty cur
    then at ts cur e
    else past (ts ++ (closed cur ∷ []))
ideal (c ∷ d ∷ rest) ts cur e =
    let keep = ideal (d ∷ rest) ts (cur ++ (c ∷ [])) e in
    let skip = ideal (d ∷ rest) ts cur e in
    let next = ideal (d ∷ rest) (ts ++ (closed cur ∷ [])) [] false in
    if not (is_space c) then keep else if is_empty cur then skip else next

put-at :
    (c : ℕ) (ts : List Token) (cur : List ℕ) (e : Bool)
    → length cur < max_tok_size
    → put c (at ts cur e) ≡ go (at ts (cur ++ (c ∷ [])) e)
unfolding put
put-at c ts cur e h =
    let w : Token = record { chars = cur; ended = e } in
    let v : Token = record { chars = cur ++ (c ∷ []); ended = e } in
    ground (arith, get_elem?-append_end ts w [], set-append_end ts w v [], length-snoc cur c)

terminate-at :
    (ts : List Token) (cur : List ℕ) (e : Bool) → terminate (at ts cur e) ≡ ts ++ (closed cur ∷ [])
unfolding terminate
terminate-at ts cur e =
    let w : Token = record { chars = cur; ended = e } in
    ground (arith, get_elem?-append_end ts w [], set-append_end ts w (closed cur) [])

close-at_more :
    (ts : List Token) (cur : List ℕ) (e : Bool)
    → length cur < max_tok_size
    → length ts + 1 < max_toks
    → close (at ts cur e) true ≡ go (at (ts ++ (closed cur ∷ [])) [] false)
unfolding close
close-at_more ts cur e h k = ground (arith, terminate-at ts cur e, length-snoc ts (closed cur))

close-at_last :
    (ts : List Token) (cur : List ℕ) (e : Bool)
    → length cur < max_tok_size
    → close (at ts cur e) false ≡ go (past (ts ++ (closed cur ∷ [])))
unfolding close
close-at_last ts cur e h = ground (arith, terminate-at ts cur e, length-snoc ts (closed cur))

-- What is left of the request keeps the loop off its bounds.
abbrev pub Fits : List ℕ → List Token → List ℕ → Type 0
Fits rest ts cur = length ts + length cur + length rest < max_toks

-- On a request that fits, the loop meets no bound of its arrays and no return of 0.
pub scan-ideal :
    (rest : List ℕ) (ts : List Token) (cur : List ℕ) (e : Bool)
    → Fits rest ts cur
    → scan rest (at ts cur e) ≡ go (ideal rest ts cur e)
unfolding scan round ideal
scan-ideal [] ts cur e h = refl
scan-ideal (c ∷ []) ts [] e h = ground (arith, put-at c ts [] e)
scan-ideal (c ∷ []) ts (x ∷ xs) e h =
    ground (arith, put-at c ts (x ∷ xs) e, close-at_last ts (x ∷ xs) e)
scan-ideal (c ∷ d ∷ rest) ts [] e h =
    ground
      (arith, put-at c ts [] e, scan-ideal (d ∷ rest) ts (c ∷ []) e, scan-ideal (d ∷ rest) ts [] e)
scan-ideal (c ∷ d ∷ rest) ts (x ∷ xs) e h = ground (
  arith,
  put-at c ts (x ∷ xs) e,
  length-snoc (x ∷ xs) c,
  length-snoc ts (closed (x ∷ xs)),
  close-at_more ts (x ∷ xs) e,
  scan-ideal (d ∷ rest) ts ((x ∷ xs) ++ (c ∷ [])) e,
  scan-ideal (d ∷ rest) (ts ++ (closed (x ∷ xs) ∷ [])) [] false,
)
