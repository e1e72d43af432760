-- ===== src/FileCopy/Copies.antt =====
-- What OpenMP/FileIO/Thread_FileCopy.c leaves in Dest.
use mathlib.Core.Option.{some-injective}
use cuda_open_mp.Common.{
  ℕ, ◌≡◌, ◌≢◌, inl, inr, refl, sym, ap, ◌∙◌, Bool, true, false, some, List, [], ◌∷◌, ◌++◌, arith,
  Bool-cases, if◌then◌else◌, Among,
}
use cuda_open_mp.Server.Text.{codes, str_eq}
use cuda_open_mp.Server.Text.Decimal.{decimal}
use cuda_open_mp.FileCopy.{Files, copy_chars, filename, put_file, copy_file, copy_files}

-- The independent description of a file's name: the number in decimal and the suffix.
abbrev pub txt : ℕ → List ℕ
txt i = decimal i ++ codes ".txt"

-- A file without the byte 255.
abbrev pub HasNo255 : List ℕ → Type 0
HasNo255 [] = Unit {0}
HasNo255 (c ∷ s) = (c ≢ 255) × HasNo255 s

copy_chars-HasNo255 : (s : List ℕ) → HasNo255 s → copy_chars s ≡ s
unfolding copy_chars
copy_chars-HasNo255 [] h = refl
copy_chars-HasNo255 (c ∷ s) (a, h) = let more = copy_chars-HasNo255 s h in ground arith

-- A file is copied up to its first byte 255, and not further.
pub copy_chars-stops : (s t : List ℕ) → HasNo255 s → copy_chars (s ++ (255 ∷ t)) ≡ s
unfolding copy_chars
copy_chars-stops [] t h = refl
copy_chars-stops (c ∷ s) t (a, h) = let more = copy_chars-stops s t h in ground arith

str_eq_self : (s : List ℕ) → str_eq s s ≡ true
unfolding str_eq
str_eq_self [] = refl
str_eq_self (c ∷ s) = let more = str_eq_self s in ground arith

eq_of_str_eq : (s t : List ℕ) → str_eq s t ≡ true → s ≡ t
unfolding str_eq
eq_of_str_eq [] [] h = refl
eq_of_str_eq [] (c ∷ t) h = cc
eq_of_str_eq (c ∷ s) [] h = cc
eq_of_str_eq (c ∷ s) (d ∷ t) h = let more = eq_of_str_eq s t in ground arith

module _ (source : Files) (opens : List ℕ → Bool) where
  -- The files of these numbers are there, and open in Dest.
  abbrev pub AllOpen : List ℕ → Type 0
  AllOpen [] = Unit {0}
  AllOpen (i ∷ order) =
      ((text : List ℕ) × (source (filename i) ≡ some text))
      × (opens (filename i) ≡ true)
      × AllOpen order

  copy_file-opens :
      (name text : List ℕ) (dest : Files)
      → source name ≡ some text
      → opens name ≡ true
      → copy_file source opens name dest ≡ (true, put_file name (copy_chars text) dest)
  unfolding copy_file
  copy_file-opens name text dest e o = rw (e, o, copy_file) refl

  copy_files-step :
      (i : ℕ) (text order : List ℕ) (dest : Files)
      → source (filename i) ≡ some text
      → opens (filename i) ≡ true
      → copy_files source opens (i ∷ order) dest
        ≡ copy_files source opens order (put_file (filename i) (copy_chars text) dest)
  unfolding copy_files
  copy_files-step i text order dest e o =
      ap (λ q. if q.0 then copy_files source opens order q.1 else (false, q.1))
        (copy_file-opens (filename i) text dest e o)

  copies :
      (order : List ℕ) (dest : Files)
      → AllOpen order
      → (copy_files source opens order dest).0 ≡ true
  unfolding copy_files
  copies [] dest h = refl
  copies (i ∷ order) dest ((text, e), o, h) =
      ap (λ q. q.0) (copy_files-step i text order dest e o)
      ∙ copies order (put_file (filename i) (copy_chars text) dest) h

  -- A later round leaves a copy as it is, or makes it again.
  put_file-keeps :
      (i j : ℕ) (text text' : List ℕ) (dest : Files)
      → source (filename i) ≡ some text
      → source (filename j) ≡ some text'
      → dest (filename i) ≡ some (copy_chars text)
      → put_file (filename j) (copy_chars text') dest (filename i) ≡ some (copy_chars text)
  unfolding put_file
  put_file-keeps i j text text' dest e e' d = elim (Bool-cases (str_eq (filename j) (filename i))) [
    | inl same ↦
        let name = eq_of_str_eq (filename j) (filename i) same in
        let again : text' ≡ text = some-injective text' text (sym e' ∙ ap source name ∙ e) in
        rw same (ap (λ q. some (copy_chars q)) again)
    | inr other ↦ rw other d
  ]

  copies_keep :
      (order : List ℕ) (dest : Files) (i : ℕ) (text : List ℕ)
      → AllOpen order
      → source (filename i) ≡ some text
      → dest (filename i) ≡ some (copy_chars text)
      → (copy_files source opens order dest).1 (filename i) ≡ some (copy_chars text)
  unfolding copy_files
  copies_keep [] dest i text h e d = d
  copies_keep (j ∷ order) dest i text ((text', e'), o, h) e d =
      ap (λ q. q.1 (filename i)) (copy_files-step j text' order dest e' o)
      ∙ copies_keep order (put_file (filename j) (copy_chars text') dest) i text h e
          (put_file-keeps i j text text' dest e e' d)

  copied :
      (order : List ℕ) (dest : Files) (i : ℕ) (text : List ℕ)
      → AllOpen order
      → Among i order
      → source (filename i) ≡ some text
      → (copy_files source opens order dest).1 (filename i) ≡ some (copy_chars text)
  unfolding put_file
  copied [] dest i text h a e = absurd a
  copied (j ∷ order) dest i text ((text', e'), o, h) (inl same) e =
      let again : text' ≡ text =
        some-injective text' text (sym e' ∙ ap (λ q. source (filename q)) (sym same) ∙ e) in
      let name : str_eq (filename j) (filename i) ≡ true =
        ap (λ q. str_eq (filename q) (filename i)) (sym same) ∙ str_eq_self (filename i) in
      ap (λ q. q.1 (filename i)) (copy_files-step j text' order dest e' o)
      ∙ copies_keep order (put_file (filename j) (copy_chars text') dest) i text h e
          (rw name (ap (λ q. some (copy_chars q)) again))
  copied (j ∷ order) dest i text ((text', e'), o, h) (inr a) e =
      ap (λ q. q.1 (filename i)) (copy_files-step j text' order dest e' o)
      ∙ copied order (put_file (filename j) (copy_chars text') dest) i text h a e

  -- In whatever order the rounds run, if every file is there and opens in Dest, the program copies
  -- to the end, and each file without a byte 255 has an exact copy, under its number and `.txt`.
  pub copy_files_lem :
      (order : List ℕ) (dest : Files) (i : ℕ) (text : List ℕ)
      → AllOpen order
      → Among i order
      → source (txt i) ≡ some text
      → HasNo255 text
      → ((copy_files source opens order dest).0 ≡ true)
        × ((copy_files source opens order dest).1 (txt i) ≡ some text)
  unfolding filename
  copy_files_lem order dest i text h a e plain = (
    copies order dest h,
    copied order dest i text h a e ∙ ap some (copy_chars-HasNo255 text plain),
  )

  -- A file with a byte 255 is cut off there, in whatever order the rounds run.
  pub copy_files-truncated :
      (order : List ℕ) (dest : Files) (i : ℕ) (before behind : List ℕ)
      → AllOpen order
      → Among i order
      → source (filename i) ≡ some (before ++ (255 ∷ behind))
      → HasNo255 before
      → (copy_files source opens order dest).1 (filename i) ≡ some before
  copy_files-truncated order dest i before behind h a e plain =
      copied order dest i (before ++ (255 ∷ behind)) h a e
      ∙ ap some (copy_chars-stops before behind plain)
