-- ===== src/Acl/User/Masks/Laws.antt =====
-- No mask of a user covers another.
use ebftpd.Prelude.{
  ℕ, zero, suc, ◌≡◌, refl, inl, inr, Bool, true, false, not, List, [], ◌∷◌, ◌++◌, Str, str_eq,
  length, ltb, Bool-cases, arith,
}
use ebftpd.Util.Wildcard.{Fnmatch, wildcard_match}
use ebftpd.Acl.User.Data.{UserData, Outcome, returned, unsaved, aborted}
use ebftpd.Acl.User.Masks.{
  save_ip_masks, is_covered, sweep, add_ip_mask, erase_mask, has_mask, del_ip_mask, erase_at,
  del_ip_mask_at, clear_ip_masks,
}

-- The object that a call leaves behind, unless it stops the program.
abbrev pub Leaves : (UserData → Type 0) → Outcome UserData → Type 0
Leaves P (returned u) = P u
Leaves P (unsaved u) = P u
Leaves P aborted = Unit

save-Leaves :
    (P : UserData → Type 0) (saved : Bool) (new : UserData)
    → P new
    → Leaves P (save_ip_masks saved new)
unfolding save_ip_masks
save-Leaves P true new h = h
save-Leaves P false new h = h

module _ (fnmatch : Fnmatch) where
  abbrev covers : Str → Str → Bool
  covers m n = wildcard_match fnmatch m n true

  -- Neither covers the other, for each mask of the list.
  abbrev pub Apart : Str → List Str → Type 0
  Apart m [] = Unit
  Apart m (n ∷ ns) = ((covers m n ≡ false) × (covers n m ≡ false)) × Apart m ns

  -- No mask of the list covers another one of it.
  abbrev pub Reduced : List Str → Type 0
  Reduced [] = Unit
  Reduced (m ∷ ms) = Apart m ms × Reduced ms

  Apart-append_last :
      (m n : Str) (ms : List Str)
      → Apart m ms
      → covers m n ≡ false
      → covers n m ≡ false
      → Apart m (ms ++ n ∷ [])
  Apart-append_last m n [] a h k = ((h, k), tt)
  Apart-append_last m n (x ∷ ms) a h k = (a.0, Apart-append_last m n ms a.1 h k)

  sweep-Apart : (m n : Str) (ms : List Str) → Apart m ms → Apart m (sweep fnmatch n ms).0
  unfolding sweep
  sweep-Apart m n [] a = tt
  sweep-Apart m n (x ∷ ms) a = elim (Bool-cases (covers n x)) [
    | inl e ↦ rw (e, sweep) (sweep-Apart m n ms a.1)
    | inr e ↦ rw (e, sweep) (a.0, sweep-Apart m n ms a.1)
  ]

  sweep-Reduced :
      (n : Str) (ms : List Str)
      → Reduced ms
      → is_covered fnmatch ms n ≡ false
      → Reduced ((sweep fnmatch n ms).0 ++ n ∷ [])
  unfolding sweep is_covered
  sweep-Reduced n [] r h = (tt, tt)
  sweep-Reduced n (x ∷ ms) r h = elim (Bool-cases (covers n x)) [
    | inl e ↦ rw (e, sweep) (sweep-Reduced n ms r.1 (ground arith))
    | inr e ↦
        rw (e, sweep)
          (
            Apart-append_last x n (sweep fnmatch n ms).0 (sweep-Apart x n ms r.0) (ground arith) e,
            sweep-Reduced n ms r.1 (ground arith),
          )
  ]

  -- Adding a mask keeps the list free of masks that cover another, whether the write succeeds or
  -- is lost, and says that it was added exactly when no mask covered the new one.
  pub add_ip_mask-Reduced :
      (saved : Bool) (u : UserData) (ip_mask : Str)
      → Reduced u.ip_masks
      → Leaves (λ v. Reduced v.ip_masks) (add_ip_mask fnmatch saved u ip_mask).2
        × ((add_ip_mask fnmatch saved u ip_mask).0 ≡ not (is_covered fnmatch u.ip_masks ip_mask))
  unfolding add_ip_mask
  add_ip_mask-Reduced saved u ip_mask r =
      elim (Bool-cases (is_covered fnmatch u.ip_masks ip_mask)) [
        | inl e ↦ rw (e, add_ip_mask) (r, refl)
        | inr e ↦
            rw (e, add_ip_mask)
              (
                save-Leaves (λ v. Reduced v.ip_masks) saved _
                    (sweep-Reduced ip_mask u.ip_masks r e),
                refl,
              )
      ]

  erase_mask-Apart : (m n : Str) (ms : List Str) → Apart m ms → Apart m (erase_mask n ms)
  unfolding erase_mask
  erase_mask-Apart m n [] a = tt
  erase_mask-Apart m n (x ∷ ms) a = elim (Bool-cases (str_eq x n)) [
    | inl e ↦ rw (e, erase_mask) a.1
    | inr e ↦ rw (e, erase_mask) (a.0, erase_mask-Apart m n ms a.1)
  ]

  erase_mask-Reduced : (n : Str) (ms : List Str) → Reduced ms → Reduced (erase_mask n ms)
  unfolding erase_mask
  erase_mask-Reduced n [] r = tt
  erase_mask-Reduced n (x ∷ ms) r = elim (Bool-cases (str_eq x n)) [
    | inl e ↦ rw (e, erase_mask) r.1
    | inr e ↦ rw (e, erase_mask) (erase_mask-Apart x n ms r.0, erase_mask-Reduced n ms r.1)
  ]

  erase_at-Apart : (m : Str) (i : ℕ) (ms : List Str) → Apart m ms → Apart m (erase_at i ms)
  unfolding erase_at
  erase_at-Apart m i [] a = tt
  erase_at-Apart m zero (x ∷ ms) a = a.1
  erase_at-Apart m (suc i) (x ∷ ms) a = (a.0, erase_at-Apart m i ms a.1)

  erase_at-Reduced : (i : ℕ) (ms : List Str) → Reduced ms → Reduced (erase_at i ms)
  unfolding erase_at
  erase_at-Reduced i [] r = tt
  erase_at-Reduced zero (x ∷ ms) r = r.1
  erase_at-Reduced (suc i) (x ∷ ms) r = (erase_at-Apart x i ms r.0, erase_at-Reduced i ms r.1)

  -- Deleting a mask, by its text or by its index, and clearing them keep the list free of masks
  -- that cover another, whether the write succeeds or is lost.
  pub del_ip_mask-Reduced :
      (saved : Bool) (u : UserData) (ip_mask : Str) (index : ℕ)
      → Reduced u.ip_masks
      → Leaves (λ v. Reduced v.ip_masks) (del_ip_mask saved u ip_mask)
        × Leaves (λ v. Reduced v.ip_masks) (del_ip_mask_at saved u index).1
        × Leaves (λ v. Reduced v.ip_masks) (clear_ip_masks saved u)
  unfolding del_ip_mask del_ip_mask_at clear_ip_masks
  del_ip_mask-Reduced saved u ip_mask index r = (by_text, by_index, save-Leaves _ saved _ tt)
    where
      by_text : Leaves (λ v. Reduced v.ip_masks) (del_ip_mask saved u ip_mask)
      by_text = elim (Bool-cases (has_mask ip_mask u.ip_masks)) [
        | inl e ↦
            rw (e, del_ip_mask)
              (save-Leaves (λ v. Reduced v.ip_masks) saved _
                (erase_mask-Reduced ip_mask u.ip_masks r))
        | inr e ↦ rw (e, del_ip_mask) r
      ]

      by_index : Leaves (λ v. Reduced v.ip_masks) (del_ip_mask_at saved u index).1
      by_index = elim (Bool-cases (ltb index (length u.ip_masks))) [
        | inl e ↦
            rw (e, del_ip_mask_at)
              (save-Leaves (λ v. Reduced v.ip_masks) saved _ (erase_at-Reduced index u.ip_masks r))
        | inr e ↦ rw (e, del_ip_mask_at) tt
      ]
