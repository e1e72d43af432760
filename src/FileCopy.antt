-- ===== src/FileCopy.antt =====
-- OpenMP/FileIO/Thread_FileCopy.c: the files 0.txt to 999.txt are copied into Dest, in parallel.
pub mod Copies
mod Tests
use cuda_open_mp.Common.{
  ℕ, ◌+◌, ◌≡◌, Bool, true, false, Option, none, some, List, [], ◌∷◌, ◌++◌, ◌==◌, if◌then◌else◌,
}
use cuda_open_mp.Server.Text.{codes, str_eq}
use cuda_open_mp.Server.Text.Decimal.{decimal}

-- A directory: the bytes of a file by its name.
abbrev pub Files : Type 0
Files = List ℕ → Option (List ℕ)

-- `while ((ch = fgetc(fp1)) != EOF) fputc(ch, fp2)`, where `ch` is a signed char: the byte 255 is
-- EOF to the test.
unfoldable pub copy_chars : List ℕ → List ℕ
copy_chars [] = []
copy_chars (ch ∷ s) = let more = copy_chars s in if ch == 255 then [] else ch ∷ more

-- `sprintf(filename, "%d.txt", i)`
unfoldable pub filename : ℕ → List ℕ
filename i = decimal i ++ codes ".txt"

-- `fopen(outfilename, "w")` and the writes behind it.
unfoldable pub put_file : List ℕ → List ℕ → Files → Files
put_file name text dest name' = if str_eq name name' then some text else dest name'

-- `CopyFile`: the files of Dest, and `false` if the program has ended with `exit`. `opens` says
-- whether the file in Dest can be opened, which empties it.
unfoldable pub copy_file : Files → (List ℕ → Bool) → List ℕ → Files → Bool × Files
copy_file source opens name dest = elim (source name) [
  | none ↦ (false, if opens name then put_file name [] dest else dest)
  | some text ↦ if opens name then (true, put_file name (copy_chars text) dest) else (false, dest)
]

-- The loop of `main`, its rounds run in a given order; MaxFileNum is the bound of their indices.
unfoldable pub copy_files : Files → (List ℕ → Bool) → List ℕ → Files → Bool × Files
copy_files source opens [] dest = (true, dest)
copy_files source opens (i ∷ order) dest =
    let (goes_on, dest') = copy_file source opens (filename i) dest in
    let more = copy_files source opens order dest' in if goes_on then more else (false, dest')
