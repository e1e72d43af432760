-- ===== src/Server/Config/Tests.antt =====
-- Tests and witnesses for `read_config`.
use cuda_open_mp.Common.{ℕ, ◌≡◌, refl, Bool, true, some, List, [], arith}
use cuda_open_mp.Server.Text.{codes, is_space}
use cuda_open_mp.Server.Text.Decimal.{atoi, digits_value, is_digit}
use cuda_open_mp.Server.Respond.{cut_nul, fgets}
use cuda_open_mp.Server.Config.{
  Config, undefined, configured, cut_newline, value_at, read_workers, read_logfile, read_config,
}
use cuda_open_mp.Server.Config.Lines.{config_text, read_config-config_text}

abbrev opens_all : List ℕ → Bool
opens_all name = true

-- The config.txt of the repository.
abbrev its_config : Config
its_config = record { port = 8888; logfile = codes "log.txt"; workers = 5 }

read_config-file :
    read_config opens_all (some (codes "port: 8888\nlogfile: log.txt\nnworkers: 5"))
    ≡ configured its_config
unfolding read_config read_logfile read_workers value_at cut_newline cut_nul fgets atoi digits_value
    is_digit is_space
read_config-file = refl

-- A first line that is shorter than its key.
read_config-short : read_config opens_all (some (codes "80\n")) ≡ undefined
unfolding read_config value_at cut_newline cut_nul fgets
read_config-short = refl

read_config-config_text_example :
    read_config opens_all (some (config_text its_config [])) ≡ configured its_config
read_config-config_text_example =
    read_config-config_text opens_all its_config [] (ground arith) (omega arith) (omega arith)
      (omega arith) refl
