-- ===== src/Cuda/Cipher/Search.antt =====
-- The search of bruteForceCipher over the threads of a launch.
use cuda_open_mp.Common.{
  ℕ, ◌%◌, ◌<◌, ◌≡◌, ◌≢◌, ◌⊎◌, inl, inr, refl, sym, ap, ◌∙◌, subst, true, false, some, List, [], ◌∷◌,
  arith, ltb, ltb→lt, ◌==◌, Bool-cases, Option-cases, Among, length,
}
use cuda_open_mp.Cuda.Cipher.{
  total_keys, key_of, val_sum, Square, inverse_of, plaintext_of, is_book, Found, report,
  brute_force, brute_force_all,
}
use cuda_open_mp.Cuda.Cipher.Plain.{plaintext_of-ends}

-- Thread `idx` finds the plaintext `pt`, which starts with "book".
abbrev pub Hits : List ℕ → ℕ → List ℕ → Type 0
Hits c2 idx pt =
    (idx < total_keys)
    × ((inv : Square) × (inverse_of (val_sum (key_of idx) % 6) ≡ some inv)
        × (plaintext_of idx inv c2 ≡ some pt))
    × (is_book pt ≡ true)

-- What is recorded is the key and the plaintext of one of the threads `order`.
abbrev pub Recorded : List ℕ → List ℕ → Found → Type 0
Recorded c2 order s =
    (s.found ≡ 1)
    × ((idx : ℕ) × Among idx order × Hits c2 idx s.result_pt × (s.result_key ≡ key_of idx))

report-other : (idx : ℕ) (pt : List ℕ) (s : Found) → is_book pt ≡ false → report idx pt s ≡ s
unfolding report
report-other idx pt s h = rw (h, report) refl

-- A plaintext is recorded if d_found is 0, and else only found again.
report-first :
    (c2 : List ℕ) (idx : ℕ) (pt : List ℕ) (s : Found)
    → Hits c2 idx pt
    → s.found ≡ 0
    → ((report idx pt s).found ≡ 1)
      × ((report idx pt s).result_key ≡ key_of idx)
      × ((report idx pt s).result_pt ≡ pt)
unfolding report
report-first c2 idx pt s (_, _, book) zero_found = (
  rw (book, zero_found, report) refl,
  rw (book, zero_found, report) refl,
  rw (book, zero_found, report) refl,
)

report-later :
    (idx : ℕ) (pt : List ℕ) (s : Found)
    → s.found ≢ 0
    → (((report idx pt s).found ≡ 1) ⊎ ((report idx pt s).found ≡ s.found))
      × ((report idx pt s).result_key ≡ s.result_key)
      × ((report idx pt s).result_pt ≡ s.result_pt)
unfolding report
report-later idx pt s ne =
    let test : (s.found == 0) ≡ false = ground (arith, ne) in
    elim (Bool-cases (is_book pt)) [
      | inl book ↦ (
        inl (rw (book, test, report) refl),
        rw (book, test, report) refl,
        rw (book, test, report) refl,
      )
      | inr other ↦
          (inr (rw (other, report) refl), rw (other, report) refl, rw (other, report) refl)
    ]

-- A thread ends; it changes nothing unless it finds a plaintext.
brute_force-cases :
    (c2 : List ℕ) (idx : ℕ) (s : Found)
    → length c2 ≡ 12
    → ((brute_force c2 idx s ≡ some s) × ((pt : List ℕ) → Hits c2 idx pt → ⊥))
      ⊎ ((pt : List ℕ) × Hits c2 idx pt × (brute_force c2 idx s ≡ some (report idx pt s)))
unfolding brute_force
brute_force-cases c2 idx s l = elim (Bool-cases (ltb idx total_keys)) [
  | inr out ↦ inl (rw (out, brute_force) refl, λ pt h. absurd (ground (arith, h.0)))
  | inl below ↦ elim (Option-cases (inverse_of (val_sum (key_of idx) % 6))) [
    | inl none' ↦
        inl (rw (below, none', brute_force) refl, λ pt h. let (_, (inv, ei, _), _) = h in cc)
    | inr (inv, ei) ↦
        let (pt, ep) = plaintext_of-ends idx inv c2 l in
        elim (Bool-cases (is_book pt)) [
          | inl book ↦ inr (
            pt,
            (ltb→lt idx total_keys below, (inv, ei, ep), book),
            rw (below, ei, ep, brute_force) refl,
          )
          | inr other ↦ inl (
            rw (below, ei, ep, brute_force) (ap some (report-other idx pt s other)),
            λ pt' h. let (_, (inv', ei', ep'), book) = h in cc,
          )
        ]
  ]
]

-- If d_found holds another number than 0 when the kernel starts, no thread writes a key or a
-- plaintext, whatever it finds, and main takes d_found for a success.
pub brute_force_all-stale :
    (c2 order : List ℕ) (s : Found)
    → length c2 ≡ 12
    → s.found ≢ 0
    → (r : Found) × (brute_force_all c2 order s ≡ some r)
      × (r.found ≢ 0)
      × (r.result_key ≡ s.result_key)
      × (r.result_pt ≡ s.result_pt)
unfolding brute_force_all
brute_force_all-stale c2 [] s l ne = (s, refl, ne, refl, refl)
brute_force_all-stale c2 (idx ∷ order) s l ne = elim (brute_force-cases c2 idx s l) [
  | inl (e, none') ↦
      let (r, er, nr, kr, pr) = brute_force_all-stale c2 order s l ne in (r, rw (e) er, nr, kr, pr)
  | inr (pt, hit, e) ↦
      let (one, ek, ep) = report-later idx pt s ne in
      let ne' : (report idx pt s).found ≢ 0 =
        λ z. elim one [ inl e ↦ absurd (omega (arith, e, z)) | inr e ↦ ne (sym e ∙ z) ] in
      let (r, er, nr, kr, pr) = brute_force_all-stale c2 order (report idx pt s) l ne' in
      (r, rw (e) er, nr, kr ∙ ek, pr ∙ ep)
]

kept-Recorded :
    (c2 all order : List ℕ) (s : Found)
    → length c2 ≡ 12
    → Recorded c2 all s
    → (r : Found) × (brute_force_all c2 order s ≡ some r) × Recorded c2 all r
unfolding brute_force_all
kept-Recorded c2 all [] s l h = (s, refl, h)
kept-Recorded c2 all (idx ∷ order) s l h = elim (brute_force-cases c2 idx s l) [
  | inl (e, none') ↦ let (r, er, hr) = kept-Recorded c2 all order s l h in (r, rw (e) er, hr)
  | inr (pt, hit, e) ↦
      let (one, ek, ep) = report-later idx pt s (λ z. absurd (omega (arith, z, h.0))) in
      let (f, (j, a, hj, kj)) = h in
      let found : (report idx pt s).found ≡ 1 = elim one [ inl q ↦ q | inr q ↦ q ∙ f ] in
      let (r, er, hr) =
        kept-Recorded c2 all order (report idx pt s) l
          (found, (j, a, subst (Hits c2 j) (sym ep) hj, ek ∙ kj)) in
      (r, rw (e) er, hr)
]

-- If d_found is 0 when the kernel starts, the threads end on a ciphertext of twelve characters, in
-- any order. Either d_found stays 0, and no thread has a plaintext that starts with "book", or it
-- is 1, and the key and the plaintext are those of one thread that has.
pub brute_force_all_sound :
    (c2 order : List ℕ) (s : Found)
    → length c2 ≡ 12
    → s.found ≡ 0
    → (r : Found) × (brute_force_all c2 order s ≡ some r)
      × (((r.found ≡ 0) × ((idx : ℕ) (pt : List ℕ) → Among idx order → Hits c2 idx pt → ⊥))
          ⊎ Recorded c2 order r)
unfolding brute_force_all
brute_force_all_sound c2 [] s l z = (s, refl, inl (z, λ idx pt a h. absurd a))
brute_force_all_sound c2 (idx ∷ order) s l z = elim (brute_force-cases c2 idx s l) [
  | inl (e, none') ↦
      let (r, er, h) = brute_force_all_sound c2 order s l z in
      (
        r,
        rw (e) er,
        elim h [
          | inl (z', nobody) ↦ inl (
            z',
            λ j pt a hj. elim a [
              | inl same ↦ none' pt (subst (λ q. Hits c2 q pt) same hj)
              | inr later ↦ nobody j pt later hj
            ],
          )
          | inr (f, (j, a, hj, kj)) ↦ inr (f, (j, inr a, hj, kj))
        ],
      )
  | inr (pt, hit, e) ↦
      let (f, ek, ep) = report-first c2 idx pt s hit z in
      let (r, er, hr) =
        kept-Recorded c2 (idx ∷ order) order (report idx pt s) l
          (f, (idx, inl refl, subst (Hits c2 idx) (sym ep) hit, ek)) in
      (r, rw (e) er, inr hr)
]
