-- ===== src/FileCopy/Tests.antt =====
-- Tests and witnesses for the copying of files.
use cuda_open_mp.Common.{
  ℕ, ◌≡◌, refl, inl, inr, Bool, true, none, some, List, [], ◌∷◌, ◌++◌, arith, if◌then◌else◌,
}
use cuda_open_mp.Server.Text.{codes, str_eq}
use cuda_open_mp.Server.Text.Decimal.{decimal, digits_onto}
use cuda_open_mp.FileCopy.{Files, filename, copy_files}
use cuda_open_mp.FileCopy.Copies.{AllOpen, txt, copy_files_lem}

-- Every file has the bytes 1 and 2, and 7.txt has 1, 255 and 2.
abbrev sources : Files
sources name = if str_eq (codes "7.txt") name then some (1 ∷ 255 ∷ 2 ∷ []) else some (1 ∷ 2 ∷ [])

abbrev opens : List ℕ → Bool
opens name = true

abbrev nothing : Files
nothing name = none

sources-AllOpen : AllOpen sources opens (7 ∷ 3 ∷ [])
unfolding filename decimal digits_onto str_eq
sources-AllOpen = ((1 ∷ 255 ∷ 2 ∷ [], refl), refl, ((1 ∷ 2 ∷ [], refl), refl, tt))

source_3 : sources (txt 3) ≡ some (1 ∷ 2 ∷ [])
unfolding filename decimal digits_onto str_eq
source_3 = refl

source_7 : sources (filename 7) ≡ some ((1 ∷ []) ++ (255 ∷ 2 ∷ []))
unfolding filename decimal digits_onto str_eq
source_7 = refl

copy_files_lem_example :
    ((copy_files sources opens (7 ∷ 3 ∷ []) nothing).0 ≡ true)
    × ((copy_files sources opens (7 ∷ 3 ∷ []) nothing).1 (txt 3) ≡ some (1 ∷ 2 ∷ []))
copy_files_lem_example =
    copy_files_lem sources opens (7 ∷ 3 ∷ []) nothing 3 (1 ∷ 2 ∷ []) sources-AllOpen
      (inr (inl refl)) source_3 (omega arith, (omega arith, tt))
