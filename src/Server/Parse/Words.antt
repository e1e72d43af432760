-- ===== src/Server/Parse/Words.antt =====
-- `read_command` against the plain notion of the words of a request.
use cuda_open_mp.Common.{
  ℕ, ◌<◌, ◌≡◌, ◌≢◌, refl, sym, ap, ◌∙◌, Bool, true, false, inl, inr, some, List, [], ◌∷◌, ◌++◌, map,
  arith, ◌==◌, if◌then◌else◌, length, length-map, take, take-append_end, append_assoc, append-nil,
  Bool-cases,
}
use cuda_open_mp.Server.Text.{is_space, last_or}
use cuda_open_mp.Server.Parse.{
  max_toks, Token, normal, input_overflow, Scan, Command, command, go, finish, read_command,
}
use cuda_open_mp.Server.Parse.Loop.{closed, ideal, scan-ideal}

-- A byte before a byte that is no space joins the word that begins there.
unfoldable pub join : ℕ → List (List ℕ) → List (List ℕ)
join c [] = (c ∷ []) ∷ []
join c (w ∷ ws) = (c ∷ w) ∷ ws

unfoldable pub attach : ℕ → List ℕ → List (List ℕ) → List (List ℕ)
unfolding join
attach c [] ws = (c ∷ []) ∷ ws
attach c (d ∷ s) ws = if is_space d then (c ∷ []) ∷ ws else join c ws

-- The maximal runs of bytes that are no spaces, from the right.
unfoldable pub words : List ℕ → List (List ℕ)
unfolding attach
words [] = []
words (c ∷ s) = if is_space c then words s else attach c s (words s)

abbrev pub IsSolid : List ℕ → Type 0
IsSolid [] = Unit {0}
IsSolid (c ∷ s) = (is_space c ≡ false) × IsSolid s

IsSolid-snoc : (s : List ℕ) (c : ℕ) → IsSolid s → is_space c ≡ false → IsSolid (s ++ (c ∷ []))
IsSolid-snoc [] c h k = (k, tt)
IsSolid-snoc (x ∷ s) c h k = (h.0, IsSolid-snoc s c h.1 k)

-- A run of such bytes before a space is the first word.
pub words-append :
    (x : ℕ) (xs : List ℕ) (c : ℕ) (r : List ℕ)
    → IsSolid (x ∷ xs)
    → is_space c ≡ true
    → words ((x ∷ xs) ++ (c ∷ r)) ≡ (x ∷ xs) ∷ words r
unfolding words
words-append x [] c r h k = ground arith
words-append x (y ∷ ys) c r h k = ground (arith, words-append y ys c r h.1)

-- The memory set aside behind the tokens `ts`: one empty token at most, terminated only if no token
-- stands before it.
abbrev pub Spare : List Token → List Token → Type 0
Spare ts [] = Unit {0}
Spare ts (w ∷ []) = w.ended ≡ true → ts ≡ []
Spare ts (w ∷ v ∷ rest) = ⊥

-- What the loop leaves: `ts` and the words `ws`, each terminated, and perhaps an empty token.
pub record Ends (s : Scan) (ts : List Token) (ws : List (List ℕ)) : Type 0 where
  pub extra : List Token
  pub toks : s.tok ≡ (ts ++ map closed ws) ++ extra
  pub counted : s.count ≡ length (ts ++ map closed ws)
  pub spare : Spare (ts ++ map closed ws) extra

Ends-cons :
    {s : Scan} {ts : List Token} {w : List ℕ} {ws : List (List ℕ)}
    → Ends s (ts ++ (closed w ∷ [])) ws
    → Ends s ts (w ∷ ws)
Ends-cons {ts} {w} {ws} en =
    let assoc = append_assoc ts (closed w ∷ []) (map closed ws) in
    record {
      extra = en.extra;
      toks = rw assoc at en.toks;
      counted = rw assoc at en.counted;
      spare = rw assoc at en.spare;
    }

words-nil : words [] ≡ []
unfolding words
words-nil = refl

words-space : (c : ℕ) (s : List ℕ) → is_space c ≡ true → words (c ∷ s) ≡ words s
unfolding words
words-space c s h = rw h

newline-is_space : is_space b'\n' ≡ true
unfolding is_space
newline-is_space = refl

ideal-Ends :
    (rest : List ℕ) (ts : List Token) (cur : List ℕ) (e : Bool)
    → rest ≢ []
    → IsSolid cur
    → is_space (last_or rest 0) ≡ true
    → (e ≡ true → ts ≡ [])
    → Ends (ideal rest ts cur e) ts (words (cur ++ rest))
unfolding ideal
ideal-Ends [] ts cur e n h k z = absurd (n refl)
ideal-Ends (c ∷ []) ts [] e n h k z =
    rw (words-space c [] k, words-nil, k)
      (record {
        extra = record { chars = []; ended = e } ∷ [];
        toks = ap (λ l. l ++ (record { chars = []; ended = e } ∷ [])) (sym (append-nil ts));
        counted = ap length (sym (append-nil ts));
        spare = λ q. append-nil ts ∙ z q;
      })
ideal-Ends (c ∷ []) ts (x ∷ xs) e n h k z =
    rw (words-append x xs c [] h k, words-nil, k)
      (record {
        extra = [];
        toks = sym (append-nil (ts ++ (closed (x ∷ xs) ∷ [])));
        counted = refl;
        spare = tt;
      })
ideal-Ends (c ∷ d ∷ rest) ts [] e n h k z = elim (Bool-cases (is_space c)) [
  | inl p ↦ rw (p, words-space c (d ∷ rest) p) (ideal-Ends (d ∷ rest) ts [] e (λ q. cc) tt k z)
  | inr p ↦ rw p (ideal-Ends (d ∷ rest) ts (c ∷ []) e (λ q. cc) (p, tt) k z)
]
ideal-Ends (c ∷ d ∷ rest) ts (x ∷ xs) e n h k z = elim (Bool-cases (is_space c)) [
  | inl p ↦
      rw (p, words-append x xs c (d ∷ rest) h p)
        (Ends-cons
          (ideal-Ends (d ∷ rest) (ts ++ (closed (x ∷ xs) ∷ [])) [] false (λ q. cc) tt k (λ q. cc)))
  | inr p ↦
      rw (p, ← append_assoc xs (c ∷ []) (d ∷ rest))
        (ideal-Ends (d ∷ rest) ts ((x ∷ xs) ++ (c ∷ [])) e (λ q. cc) (IsSolid-snoc (x ∷ xs) c h p) k
          z)
]

-- What `read_command` returns, with the loop replaced by the one without bounds.
abbrev pub outcome : List ℕ → Scan
outcome buff = ideal buff [] [] true

pub read_command-ideal :
    (buff : List ℕ) → length buff < max_toks → read_command buff ≡ finish buff (go (outcome buff))
unfolding read_command
read_command-ideal buff h = rw (scan-ideal buff [] [] true (omega arith))

pub outcome-Ends : (buff : List ℕ) → last_or buff 0 ≡ b'\n' → Ends (outcome buff) [] (words buff)
outcome-Ends [] k = absurd (omega arith)
outcome-Ends (c ∷ s) k =
    ideal-Ends (c ∷ s) [] [] true (λ q. cc) tt (rw k newline-is_space) (λ q. refl)

-- A request of fewer than MAXTOKS bytes that is not empty never reaches a bound of the parser: `read_command` returns,
-- with 1 and NORMAL exactly where the request ends with a newline, else with 0 and INPUT_OVERFLOW.
pub read_command_total :
    (buff : List ℕ)
    → buff ≢ []
    → length buff < max_toks
    → (cmd : Command) × (read_command buff ≡ some (last_or buff 0 == b'\n', cmd))
      × (cmd.status ≡ (if last_or buff 0 == b'\n' then normal else input_overflow))
unfolding finish
read_command_total [] n h = absurd (n refl)
read_command_total (c ∷ s) n h = elim (Bool-cases (last_or s c == b'\n')) [
  | inl p ↦ (command normal (outcome (c ∷ s)), rw (read_command-ideal (c ∷ s) h, p), rw p)
  | inr p ↦ (command input_overflow (outcome (c ∷ s)), rw (read_command-ideal (c ∷ s) h, p), rw p)
]

-- On a request of fewer than MAXTOKS bytes that ends with a newline, the first `count` tokens are
-- the words of the request, in order, each NUL-terminated, and `count` is their number.
pub read_command-words :
    (buff : List ℕ)
    → length buff < max_toks
    → last_or buff 0 ≡ b'\n'
    → (cmd : Command) × (read_command buff ≡ some (true, cmd))
      × (cmd.count ≡ length (words buff))
      × (take cmd.count cmd.tok ≡ map closed (words buff))
unfolding finish
read_command-words [] h k = absurd (omega arith)
read_command-words (c ∷ s) h k =
    let en = outcome-Ends (c ∷ s) k in
    (
      command normal (outcome (c ∷ s)),
      rw (read_command-ideal (c ∷ s) h, k),
      en.counted ∙ length-map closed (words (c ∷ s)),
      rw (en.counted, en.toks) (take-append_end (map closed (words (c ∷ s))) en.extra),
    )
