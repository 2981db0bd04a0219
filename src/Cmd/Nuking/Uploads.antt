-- ===== src/Cmd/Nuking/Uploads.antt =====
-- TakeStats and RestoreStats of src/cmd/site/nuking.cpp, over UploadDecr and UploadIncr of
-- src/db/stats/stats.cpp.
use ebftpd.Prelude.{
  ◌≡◌, refl, sym, ap, ◌∙◌, inl, inr, ℕ, true, false, [], ◌∷◌, Str, str_eq, str_eq_sound, ℤ, pos,
  negsuc, ◌+ℤ◌, ◌-ℤ◌, eq_ℤ, ltb, ◌&&◌, ◌||◌, if◌then◌else◌, Bool-cases, arith,
}
use ebftpd.Cmd.Nuking.{
  Nukees, Uploads, update_row, is_nil, upload_incr, upload_decr, take_stats, restore_stats,
}
use ebftpd.Cmd.Nuking.Sums.{sub_sub, add_add, sub_add, sub_zero, add_zero}

abbrev negated : ℕ → ℤ
negated kb = pos 0 -ℤ pos kb

add_negated : (v : ℤ) (kb : ℕ) → v +ℤ pos kb ≡ v -ℤ negated kb
unfolding ◌-ℤ◌ ◌+ℤ◌
add_negated (pos v) kb = ground arith
add_negated (negsuc v) kb = ground arith

sub_negated : (v : ℤ) (kb : ℕ) → v -ℤ pos kb ≡ v +ℤ negated kb
unfolding ◌-ℤ◌ ◌+ℤ◌
sub_negated (pos v) kb = ground arith
sub_negated (negsuc v) kb = ground arith

negated_zero : negated 0 ≡ pos 0
unfolding ◌-ℤ◌
negated_zero = refl

module _ (section : Str) (x : ℤ) (y : Str) where
  -- What a user's part of a nuke takes from these kilobytes; the row without a section gets it.
  drift_one : ℤ → ℕ → ℤ
  drift_one uid kb =
      if is_nil section
      then pos 0
      else if eq_ℤ uid x && str_eq section y
      then pos kb
      else if eq_ℤ uid x && str_eq [] y
      then negated kb
      else pos 0

  drift : Nukees → ℤ
  drift [] = pos 0
  drift ((uid, n) ∷ rest) = drift_one uid n.kbytes +ℤ drift rest

  apart :
      (uid : ℤ)
      → is_nil section ≡ false
      → (eq_ℤ uid x && str_eq section y) ≡ true
      → (eq_ℤ uid x && str_eq [] y) ≡ false
  apart uid e h = elim (Bool-cases (str_eq [] y)) [
    | inr k ↦ ground (arith, k)
    | inl k ↦
        let empty : section ≡ [] =
          str_eq_sound section y (ground (arith, h)) ∙ sym (str_eq_sound [] y k) in
        absurd (false_true (sym e ∙ ap is_nil empty))
  ]
    where
      false_true : false ≡ true → ⊥
      false_true e = cc e

  upload_decr-kbytes :
      (uid : ℤ) (kb files : ℕ) (t : Uploads)
      → (upload_decr uid kb section files t x y).0 ≡ (t x y).0 -ℤ drift_one uid kb
  unfolding upload_decr update_row drift_one
  upload_decr-kbytes uid kb files t = elim (Bool-cases (is_nil section)) [
    | inl e ↦ rw (e, upload_decr, drift_one) (sym (sub_zero (t x y).0))
    | inr e ↦ elim (Bool-cases (eq_ℤ uid x && str_eq section y)) [
      | inl h ↦ rw (e, upload_decr, update_row, drift_one, h, apart uid e h) refl
      | inr h ↦ elim (Bool-cases (eq_ℤ uid x && str_eq [] y)) [
        | inl k ↦ rw (e, upload_decr, update_row, drift_one, h, k) (add_negated (t x y).0 kb)
        | inr k ↦ rw (e, upload_decr, update_row, drift_one, h, k) (sym (sub_zero (t x y).0))
      ]
    ]
  ]

  upload_incr-kbytes :
      (uid : ℤ) (kb files : ℕ) (t : Uploads)
      → (upload_incr uid kb section files t x y).0 ≡ (t x y).0 +ℤ drift_one uid kb
  unfolding upload_incr update_row drift_one
  upload_incr-kbytes uid kb files t = elim (Bool-cases (is_nil section)) [
    | inl e ↦ rw (e, upload_incr, drift_one) (sym (add_zero (t x y).0))
    | inr e ↦ elim (Bool-cases (eq_ℤ uid x && str_eq section y)) [
      | inl h ↦ rw (e, upload_incr, update_row, drift_one, h, apart uid e h) refl
      | inr h ↦ elim (Bool-cases (eq_ℤ uid x && str_eq [] y)) [
        | inl k ↦ rw (e, upload_incr, update_row, drift_one, h, k) (sub_negated (t x y).0 kb)
        | inr k ↦ rw (e, upload_incr, update_row, drift_one, h, k) (sym (add_zero (t x y).0))
      ]
    ]
  ]

  no_drift : (uid : ℤ) (kb : ℕ) → ltb 0 kb ≡ false → drift_one uid kb ≡ pos 0
  unfolding drift_one
  no_drift uid kb h =
      let z : kb ≡ 0 = ground (arith, h) in ground (arith, z, ap negated z ∙ negated_zero)

  take_one :
      (uid : ℤ) (kb files : ℕ) (t : Uploads)
      → ((if ltb 0 kb then upload_decr uid kb section files t else t) x y).0
        ≡ (t x y).0 -ℤ drift_one uid kb
  take_one uid kb files t = elim (Bool-cases (ltb 0 kb)) [
    | inl h ↦ rw h (upload_decr-kbytes uid kb files t)
    | inr h ↦ rw h (sym (ap (λ d. (t x y).0 -ℤ d) (no_drift uid kb h) ∙ sub_zero (t x y).0))
  ]

  restore_one :
      (uid : ℤ) (kb files all_files : ℕ) (t : Uploads)
      → ((if ltb 0 kb || ltb 0 files then upload_incr uid kb section all_files t else t) x y).0
        ≡ (t x y).0 +ℤ drift_one uid kb
  restore_one uid kb files all_files t = elim (Bool-cases (ltb 0 kb || ltb 0 files)) [
    | inl h ↦ rw h (upload_incr-kbytes uid kb all_files t)
    | inr h ↦
        rw h (
          sym (ap (λ d. (t x y).0 +ℤ d) (no_drift uid kb (ground (arith, h))) ∙ add_zero (t x y).0))
  ]

  take_stats-kbytes :
      (ns : Nukees) (t : Uploads) → (take_stats section ns t x y).0 ≡ (t x y).0 -ℤ drift ns
  unfolding take_stats drift
  take_stats-kbytes [] t = sym (sub_zero (t x y).0)
  take_stats-kbytes ((uid, n) ∷ rest) t =
      take_stats-kbytes rest _
      ∙ (ap (λ v. v -ℤ drift rest) (take_one uid n.kbytes n.files t)
          ∙ sub_sub (t x y).0 (drift_one uid n.kbytes) (drift rest))

  restore_stats-kbytes :
      (all_files : ℕ) (ns : Nukees) (t : Uploads)
      → (restore_stats section all_files ns t x y).0 ≡ (t x y).0 +ℤ drift ns
  unfolding restore_stats drift
  restore_stats-kbytes all_files [] t = sym (add_zero (t x y).0)
  restore_stats-kbytes all_files ((uid, n) ∷ rest) t =
      restore_stats-kbytes all_files rest _
      ∙ (ap (λ v. v +ℤ drift rest) (restore_one uid n.kbytes n.files all_files t)
          ∙ add_add (t x y).0 (drift_one uid n.kbytes) (drift rest))

-- A nuke and its unnuke on the same day leave the kilobytes of every user in every section as they
-- were, whatever numbers of files are passed, and the row without a section too.
pub restore_stats-take_stats :
    (section : Str) (all_files : ℕ) (ns : Nukees) (t : Uploads) (x : ℤ) (y : Str)
    → (restore_stats section all_files ns (take_stats section ns t) x y).0 ≡ (t x y).0
restore_stats-take_stats section all_files ns t x y =
    restore_stats-kbytes section x y all_files ns (take_stats section ns t)
    ∙ (ap (λ v. v +ℤ drift section x y ns) (take_stats-kbytes section x y ns t)
        ∙ sub_add (t x y).0 (drift section x y ns))
