-- ===== src/Server/Config/Lines.antt =====
-- `read_config` on a configuration that is written as its three lines.
use cuda_open_mp.Common.{
  ℕ, zero, suc, ◌+◌, ◌%◌, ◌/◌, ◌<◌, ◌≡◌, ◌≢◌, refl, sym, ap, ◌∙◌, Bool, true, some, List, [], ◌∷◌,
  ◌++◌, arith, lt→ltb, length, length-append, drop, append-nil,
}
use cuda_open_mp.Server.Text.{codes}
use cuda_open_mp.Server.Text.Decimal.{
  decimal, digits_onto, tens, length-decimal, atoi, atoi-decimal, int_end,
}
use cuda_open_mp.Server.Respond.{cut_nul, fgets}
use cuda_open_mp.Server.Config.{
  Config, configured, cut_newline, value_at, read_workers, read_logfile, read_config,
}

-- No newline and no NUL.
abbrev pub IsPlain : List ℕ → Type 0
IsPlain [] = Unit {0}
IsPlain (c ∷ s) = (c ≢ 10) × (c ≢ 0) × IsPlain s

IsPlain-append : (s t : List ℕ) → IsPlain s → IsPlain t → IsPlain (s ++ t)
IsPlain-append [] t h k = k
IsPlain-append (c ∷ s) t (a, b, h) k = (a, b, IsPlain-append s t h k)

IsPlain-digits_onto : (f n : ℕ) (acc : List ℕ) → IsPlain acc → IsPlain (digits_onto f n acc)
unfolding digits_onto
IsPlain-digits_onto zero n acc h = h
IsPlain-digits_onto (suc f) n acc h =
    let more =
      IsPlain-digits_onto f (n / 10) ((b'0' + n % 10) ∷ acc) (omega arith, omega arith, h) in
    ground arith

IsPlain-decimal : (n : ℕ) → IsPlain (decimal n)
unfolding decimal
IsPlain-decimal n = IsPlain-digits_onto (suc n) n [] tt

fgets-line :
    (n : ℕ) (s rest : List ℕ)
    → IsPlain s
    → length s < n
    → fgets n (s ++ (10 ∷ rest)) ≡ (s ++ (10 ∷ []), rest)
unfolding fgets
fgets-line zero s rest h l = absurd (omega arith)
fgets-line (suc n) [] rest h l = refl
fgets-line (suc n) (c ∷ s) rest (a, b, h) l =
    let more = fgets-line n s rest h (omega arith) in ground arith

cut-line : (s : List ℕ) → IsPlain s → cut_nul (cut_newline (s ++ (10 ∷ []))) ≡ s
unfolding cut_nul cut_newline
cut-line [] h = refl
cut-line (c ∷ s) (a, b, h) = let more = cut-line s h in ground arith

value_at-line :
    (key s : List ℕ) → IsPlain (key ++ s) → value_at (length key) ((key ++ s) ++ (10 ∷ [])) ≡ some s
unfolding value_at
value_at-line key s h =
    let l = length-append key s in rw (cut-line (key ++ s) h) (ground (arith, drop-append key s))
  where
    drop-append : (t u : List ℕ) → drop (length t) (t ++ u) ≡ u
    drop-append [] u = refl
    drop-append (c ∷ t) u = drop-append t u

-- The text of a configuration: the three lines of config.txt, and whatever comes behind them.
abbrev pub config_text : Config → List ℕ → List ℕ
config_text c rest =
    (codes "port: " ++ decimal c.port)
    ++ (b'\n'
        ∷ ((codes "logfile: " ++ c.logfile)
            ++ (b'\n' ∷ ((codes "nworkers: " ++ decimal c.workers) ++ (b'\n' ∷ rest)))))

module _ (opens : List ℕ → Bool) (c : Config) (rest : List ℕ) (name_plain : IsPlain c.logfile)
    (name_short : length c.logfile < 90) (port_small : c.port < int_end) (few : c.workers < tens 8)
    (name_opens : opens c.logfile ≡ true) where
  number : (n : ℕ) → atoi (decimal n) ≡ n
  number n = ap atoi (sym (append-nil (decimal n))) ∙ atoi-decimal n [] tt

  port-IsPlain : IsPlain (codes "port: " ++ decimal c.port)
  port-IsPlain =
      IsPlain-append (codes "port: ") (decimal c.port) (ground arith) (IsPlain-decimal c.port)

  logfile-IsPlain : IsPlain (codes "logfile: " ++ c.logfile)
  logfile-IsPlain = IsPlain-append (codes "logfile: ") c.logfile (ground arith) name_plain

  workers-IsPlain : IsPlain (codes "nworkers: " ++ decimal c.workers)
  workers-IsPlain =
      IsPlain-append (codes "nworkers: ") (decimal c.workers) (ground arith)
        (IsPlain-decimal c.workers)

  workers_read :
      read_workers opens c.port c.logfile
        ((codes "nworkers: " ++ decimal c.workers) ++ (b'\n' ∷ rest))
      ≡ configured c
  unfolding read_workers
  workers_read =
      let short = length-decimal 7 c.workers few in
      rw
        (
          fgets-line 19 (codes "nworkers: " ++ decimal c.workers) rest workers-IsPlain
              (omega arith),
          value_at-line (codes "nworkers: ") (decimal c.workers) workers-IsPlain,
          number c.workers,
          lt→ltb c.workers int_end (omega arith),
        )
        refl

  logfile_read :
      read_logfile opens c.port (
        (codes "logfile: " ++ c.logfile)
        ++ (b'\n' ∷ ((codes "nworkers: " ++ decimal c.workers) ++ (b'\n' ∷ rest))))
      ≡ configured c
  unfolding read_logfile
  logfile_read =
      let line =
        fgets-line 99 (codes "logfile: " ++ c.logfile)
          ((codes "nworkers: " ++ decimal c.workers) ++ (b'\n' ∷ rest)) logfile-IsPlain
          (omega arith) in
      rw (line, value_at-line (codes "logfile: ") c.logfile logfile-IsPlain, name_opens)
        (ap (λ q. read_workers opens c.port c.logfile q.1) line ∙ workers_read)

  -- `read_config` reads back every configuration whose port is an `int`, below 2 ^ 31, with fewer than 10 ^ 8
  -- workers, and whose log file opens and has a name of fewer than 90 bytes with no newline and no
  -- NUL.
  pub read_config-config_text : read_config opens (some (config_text c rest)) ≡ configured c
  unfolding read_config
  read_config-config_text =
      let short = length-decimal 9 c.port (omega arith) in
      let line =
        fgets-line 99 (codes "port: " ++ decimal c.port)
          ((codes "logfile: " ++ c.logfile)
            ++ (b'\n' ∷ ((codes "nworkers: " ++ decimal c.workers) ++ (b'\n' ∷ rest))))
          port-IsPlain (omega arith) in
      rw
        (
          line,
          value_at-line (codes "port: ") (decimal c.port) port-IsPlain,
          number c.port,
          lt→ltb c.port int_end port_small,
        )
        (ap (λ q. read_logfile opens c.port q.1) line ∙ logfile_read)
