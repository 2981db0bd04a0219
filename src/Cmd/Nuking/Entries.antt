-- ===== src/Cmd/Nuking/Entries.antt =====
-- DecrCredits and IncrCredits of src/db/user/user.cpp, seen from one user's credits in one section.
use ebftpd.Prelude.{
  ◌≡◌, refl, sym, ap, ◌∙◌, inl, inr, Bool, true, false, none, some, Str, str_eq, str_eq_sound, ℤ,
  pos, ◌+ℤ◌, ◌-ℤ◌, eq_ℤ, eq_ℤ-iff, ◌&&◌, if◌then◌else◌, Bool-cases, Option-cases, arith,
}
use ebftpd.Acl.User.GidList.{eq_ℤ_sound}
use ebftpd.Cmd.Nuking.{Credits, Setup, charged, refunded, set_entry, decr_credits, incr_credits}
use ebftpd.Cmd.Nuking.Sums.{sub_zero, add_zero}

module _ (w : Setup) (x : ℤ) (y : Str) where
  -- Does the nuke of a user touch these credits?
  abbrev pub hits : ℤ → Bool
  hits uid = w.is_user uid && (eq_ℤ uid x && str_eq w.credit_section y)

  at_entry :
      (t : Credits) (uid : ℤ)
      → (eq_ℤ uid x && str_eq w.credit_section y) ≡ true
      → t uid w.credit_section ≡ t x y
  at_entry t uid h =
      ap (λ u. t u w.credit_section) (eq_ℤ_sound uid x (ground (arith, h)))
      ∙ ap (t x) (str_eq_sound w.credit_section y (ground (arith, h)))

  decr_credits-hit :
      (t : Credits) (uid k v : ℤ)
      → (eq_ℤ uid x && str_eq w.credit_section y) ≡ true
      → t x y ≡ some v
      → decr_credits t uid w.credit_section k x y ≡ some (v -ℤ k)
  unfolding decr_credits set_entry
  decr_credits-hit t uid k v h e = elim (Bool-cases (eq_ℤ k (pos 0))) [
    | inl z ↦
        rw (z, decr_credits)
          (e ∙ ap some (sym (ap (λ j. v -ℤ j) ((eq_ℤ-iff k (pos 0)).0 z) ∙ sub_zero v)))
    | inr z ↦ rw (z, decr_credits, at_entry t uid h ∙ e, set_entry, h) refl
  ]

  decr_credits-miss :
      (t : Credits) (uid k : ℤ)
      → (eq_ℤ uid x && str_eq w.credit_section y) ≡ false
      → decr_credits t uid w.credit_section k x y ≡ t x y
  unfolding decr_credits set_entry
  decr_credits-miss t uid k h = elim (Bool-cases (eq_ℤ k (pos 0))) [
    | inl z ↦ rw (z, decr_credits) refl
    | inr z ↦ elim (Option-cases (t uid w.credit_section)) [
      | inl f ↦ rw (z, decr_credits, f) refl
      | inr (v, f) ↦ rw (z, decr_credits, f, set_entry, h) refl
    ]
  ]

  incr_credits-hit :
      (t : Credits) (uid k v : ℤ)
      → (eq_ℤ uid x && str_eq w.credit_section y) ≡ true
      → t x y ≡ some v
      → incr_credits t uid w.credit_section k x y ≡ some (v +ℤ k)
  unfolding incr_credits set_entry
  incr_credits-hit t uid k v h e = rw (at_entry t uid h ∙ e, incr_credits, set_entry, h) refl

  incr_credits-new :
      (t : Credits) (uid k : ℤ)
      → (eq_ℤ uid x && str_eq w.credit_section y) ≡ true
      → t x y ≡ none
      → incr_credits t uid w.credit_section k x y ≡ some k
  unfolding incr_credits set_entry
  incr_credits-new t uid k h e = rw (at_entry t uid h ∙ e, incr_credits, set_entry, h) refl

  incr_credits-miss :
      (t : Credits) (uid k : ℤ)
      → (eq_ℤ uid x && str_eq w.credit_section y) ≡ false
      → incr_credits t uid w.credit_section k x y ≡ t x y
  unfolding incr_credits set_entry
  incr_credits-miss t uid k h = elim (Option-cases (t uid w.credit_section)) [
    | inl f ↦ rw (f, incr_credits, set_entry, h) refl
    | inr (v, f) ↦ rw (f, incr_credits, set_entry, h) refl
  ]

  pub charged-some :
      (t : Credits) (uid k v : ℤ)
      → t x y ≡ some v
      → charged w t uid k x y ≡ some (v -ℤ (if hits uid then k else pos 0))
  charged-some t uid k v e = elim (Bool-cases (w.is_user uid)) [
    | inr u ↦ rw (u, charged) (e ∙ ap some (sym (sub_zero v)))
    | inl u ↦ elim (Bool-cases (eq_ℤ uid x && str_eq w.credit_section y)) [
      | inl h ↦ rw (u, h) (decr_credits-hit t uid k v h e)
      | inr h ↦ rw (u, h) (decr_credits-miss t uid k h ∙ (e ∙ ap some (sym (sub_zero v))))
    ]
  ]

  pub refunded-some :
      (t : Credits) (uid k v : ℤ)
      → t x y ≡ some v
      → refunded w t uid k x y ≡ some (v +ℤ (if hits uid then k else pos 0))
  refunded-some t uid k v e = elim (Bool-cases (w.is_user uid)) [
    | inr u ↦ rw (u, refunded) (e ∙ ap some (sym (add_zero v)))
    | inl u ↦ elim (Bool-cases (eq_ℤ uid x && str_eq w.credit_section y)) [
      | inl h ↦ rw (u, h) (incr_credits-hit t uid k v h e)
      | inr h ↦ rw (u, h) (incr_credits-miss t uid k h ∙ (e ∙ ap some (sym (add_zero v))))
    ]
  ]

  pub charged-none : (t : Credits) (uid k : ℤ) → t x y ≡ none → charged w t uid k x y ≡ none
  unfolding decr_credits
  charged-none t uid k e = elim (Bool-cases (w.is_user uid)) [
    | inr u ↦ rw (u, charged) e
    | inl u ↦ elim (Bool-cases (eq_ℤ uid x && str_eq w.credit_section y)) [
      | inr h ↦ rw u (decr_credits-miss t uid k h ∙ e)
      | inl h ↦ elim (Bool-cases (eq_ℤ k (pos 0))) [
        | inl z ↦ rw (u, z, decr_credits) e
        | inr z ↦ rw (u, z, decr_credits, at_entry t uid h ∙ e) e
      ]
    ]
  ]

  pub refunded-new :
      (t : Credits) (uid k : ℤ) → hits uid ≡ true → t x y ≡ none → refunded w t uid k x y ≡ some k
  refunded-new t uid k h e =
      let u : w.is_user uid ≡ true = ground (arith, h) in
      rw (u, refunded) (incr_credits-new t uid k (ground (arith, h)) e)

  pub refunded-miss :
      (t : Credits) (uid k : ℤ) → hits uid ≡ false → t x y ≡ none → refunded w t uid k x y ≡ none
  refunded-miss t uid k h e = elim (Bool-cases (w.is_user uid)) [
    | inr u ↦ rw (u, refunded) e
    | inl u ↦ rw (u, refunded) (incr_credits-miss t uid k (ground (arith, h, u)) ∙ e)
  ]
