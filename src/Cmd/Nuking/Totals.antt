-- ===== src/Cmd/Nuking/Totals.antt =====
-- The sums over the nukees of src/cmd/site/nuking.cpp.
use ebftpd.Prelude.{
  ◌≡◌, refl, inl, inr, ℕ, ◌+◌, ◌/◌, not, List, [], ◌∷◌, ℤ, eq_ℤ, ltb_ℤ, ◌||◌, if◌then◌else◌,
  Bool-cases, arith,
}
use ebftpd.Cmd.Nuking.{Nukees, FileEntry, add_file, calculate_nukees, nuke_kbytes, nuke_files}

add_file_lem :
    (uid : ℤ) (kb : ℕ) (ns : Nukees)
    → (nuke_kbytes (add_file uid kb ns) ≡ nuke_kbytes ns + kb)
      × (nuke_files (add_file uid kb ns) ≡ nuke_files ns + 1)
unfolding add_file nuke_kbytes nuke_files
add_file_lem uid kb [] = (omega arith, omega arith)
add_file_lem uid kb ((x, n) ∷ rest) = elim (Bool-cases (eq_ℤ x uid)) [
  | inl e ↦ rw (e, add_file) (omega arith, omega arith)
  | inr e ↦ elim (Bool-cases (ltb_ℤ uid x)) [
    | inl f ↦ rw (e, f, add_file) (omega arith, omega arith)
    | inr f ↦
        let (k, l) = add_file_lem uid kb rest in
        rw (e, f, add_file) (omega (arith, k), omega (arith, l))
  ]
]

-- The files that a nuke counts.
unfoldable pub counted : List FileEntry → ℕ
counted [] = 0
counted (f ∷ fs) = (if f.is_hidden || not f.is_regular then 0 else 1) + counted fs

calculate_from :
    (fs : List FileEntry) (ns : Nukees) (total : ℕ)
    → nuke_kbytes ns ≡ total
    → (nuke_kbytes (calculate_nukees fs ns total).0 ≡ (calculate_nukees fs ns total).1)
      × (nuke_files (calculate_nukees fs ns total).0 ≡ nuke_files ns + counted fs)
unfolding calculate_nukees counted
calculate_from [] ns total e = (e, omega arith)
calculate_from (f ∷ fs) ns total e = elim (Bool-cases (f.is_hidden || not f.is_regular)) [
  | inl h ↦
      let (k, l) = calculate_from fs ns total e in rw (h, calculate_nukees) (k, omega (arith, l))
  | inr h ↦
      let (a, b) = add_file_lem f.owner (f.size / 1024) ns in
      let (k, l) =
        calculate_from fs (add_file f.owner (f.size / 1024) ns) (total + f.size / 1024)
          (omega (arith, a, e)) in
      rw (h, calculate_nukees) (k, omega (arith, b, l))
]

-- The total that decides whether a directory is empty is the sum over the nukees, and their files
-- are the regular files of the directory that are not hidden.
pub calculate_nukees_lem :
    (fs : List FileEntry)
    → (nuke_kbytes (calculate_nukees fs [] 0).0 ≡ (calculate_nukees fs [] 0).1)
      × (nuke_files (calculate_nukees fs [] 0).0 ≡ counted fs)
unfolding nuke_kbytes nuke_files
calculate_nukees_lem fs = let (k, l) = calculate_from fs [] 0 refl in (k, omega (arith, l))
