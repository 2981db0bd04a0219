-- ===== src/Cmd/Nuking/Credits.antt =====
-- TakeCredits and RestoreCredits of src/cmd/site/nuking.cpp, seen from one user's credits in one
-- section.
use ebftpd.Prelude.{
  ◌+◌, ◌/◌, ◌≡◌, refl, sym, ap, ◌∙◌, inl, inr, ℕ, Bool, true, false, not, none, some, List, [], ◌∷◌,
  Str, ℤ, pos, ◌+ℤ◌, ◌-ℤ◌, eq_ℤ, ltb_ℤ, ◌||◌, if◌then◌else◌, Bool-cases, Option-cases, arith,
}
use ebftpd.Cmd.Nuking.{
  FileEntry, add_file, calculate_nukees, nuke_credits, Nukee, Nukees, Credits, Setup, Amount,
  charged, refunded, take_each, take_credits, restore_credits, or_owner, empty_amount, full_amount,
}
use ebftpd.Cmd.Nuking.Sums.{sub_sub, add_add, sub_add, sub_zero, zero_add, add_zero}
use ebftpd.Cmd.Nuking.Entries.{
  hits, charged-some, refunded-some, charged-none, refunded-new, refunded-miss,
}

same_taken : {a b : Nukees × Credits} → some a ≡ some b → a ≡ b
same_taken e = cc

take_each-cons :
    (w : Setup) (amount : Amount) (uid : ℤ) (n : Nukee) (rest ns' : Nukees) (t t' : Credits)
    → take_each w amount ((uid, n) ∷ rest) t ≡ some (ns', t')
    → (k : ℤ) × (ns : Nukees) × (take_each w amount rest (charged w t uid k) ≡ some (ns, t'))
      × (ns' ≡ (uid, record n { credits = k }) ∷ ns)
unfolding take_each
take_each-cons w amount uid n rest ns' t t' f = elim (Option-cases (amount t uid n)) [
  | inl e ↦ absurd (ground (arith, e, f))
  | inr (k, e) ↦ elim (Option-cases (take_each w amount rest (charged w t uid k))) [
    | inl g ↦ absurd (ground (arith, e, g, f))
    | inr ((ns, t2), g) ↦
        let h : ((uid, record n { credits = k }) ∷ ns, t2) ≡ (ns', t') =
          same_taken (ground (arith, e, g, f)) in
        (
          k,
          ns,
          g ∙ ap (λ (p : Nukees × Credits). some (ns, p.1)) h,
          sym (ap (λ (p : Nukees × Credits). p.0) h),
        )
  ]
]

-- No credits are taken yet.
abbrev AllZero : Nukees → Type 0
AllZero [] = Unit
AllZero ((uid, n) ∷ rest) = (n.credits ≡ pos 0) × AllZero rest

add_file-AllZero : (uid : ℤ) (kb : ℕ) (ns : Nukees) → AllZero ns → AllZero (add_file uid kb ns)
unfolding add_file
add_file-AllZero uid kb [] h = (refl, tt)
add_file-AllZero uid kb ((x, n) ∷ rest) (z, h) = elim (Bool-cases (eq_ℤ x uid)) [
  | inl e ↦ rw (e, add_file) (z, h)
  | inr e ↦ elim (Bool-cases (ltb_ℤ uid x)) [
    | inl f ↦ rw (e, f, add_file) (refl, (z, h))
    | inr f ↦ rw (e, f, add_file) (z, add_file-AllZero uid kb rest h)
  ]
]

calculate_nukees-AllZero :
    (fs : List FileEntry) (ns : Nukees) (total : ℕ)
    → AllZero ns
    → AllZero (calculate_nukees fs ns total).0
unfolding calculate_nukees
calculate_nukees-AllZero [] ns total h = h
calculate_nukees-AllZero (f ∷ fs) ns total h = elim (Bool-cases (f.is_hidden || not f.is_regular)) [
  | inl e ↦ rw (e, calculate_nukees) (calculate_nukees-AllZero fs ns total h)
  | inr e ↦
      rw (e, calculate_nukees)
        (calculate_nukees-AllZero fs (add_file f.owner (f.size / 1024) ns) (total + f.size / 1024)
          (add_file-AllZero f.owner (f.size / 1024) ns h))
]

module _ (w : Setup) (x : ℤ) (y : Str) where
  -- What a nuke takes from these credits in all.
  unfoldable pub owed : Nukees → ℤ
  owed [] = pos 0
  owed ((uid, n) ∷ rest) = (if hits w x y uid then n.credits else pos 0) +ℤ owed rest

  restore_credits-some :
      (ns : Nukees) (t : Credits) (v : ℤ)
      → t x y ≡ some v
      → restore_credits w ns t x y ≡ some (v +ℤ owed ns)
  unfolding restore_credits owed
  restore_credits-some [] t v e = e ∙ ap some (sym (add_zero v))
  restore_credits-some ((uid, n) ∷ rest) t v e =
      restore_credits-some rest (refunded w t uid n.credits)
        (v +ℤ (if hits w x y uid then n.credits else pos 0))
        (refunded-some w x y t uid n.credits v e)
      ∙ ap some (add_add v (if hits w x y uid then n.credits else pos 0) (owed rest))

  take_each-some :
      (amount : Amount) (ns ns' : Nukees) (t t' : Credits) (v : ℤ)
      → take_each w amount ns t ≡ some (ns', t')
      → t x y ≡ some v
      → t' x y ≡ some (v -ℤ owed ns')
  unfolding take_each owed
  take_each-some amount [] ns' t t' v f e =
      let g : ([], t) ≡ (ns', t') = same_taken f in
      ap (λ (p : Nukees × Credits). p.1 x y) (sym g)
      ∙ (e ∙ (ap some (sym (sub_zero v)) ∙ ap (λ (p : Nukees × Credits). some (v -ℤ owed p.0)) g))
  take_each-some amount ((uid, n) ∷ rest) ns' t t' v f e =
      let (k, ns, g, l) = take_each-cons w amount uid n rest ns' t t' f in
      let charge = if hits w x y uid then k else pos 0 in
      take_each-some amount rest ns (charged w t uid k) t' (v -ℤ charge) g
        (charged-some w x y t uid k v e)
      ∙ (ap some (sub_sub v charge (owed ns)) ∙ ap (λ z. some (v -ℤ owed z)) (sym l))

  zero-owed : (ns : Nukees) → AllZero ns → owed ns ≡ pos 0
  unfolding owed
  zero-owed [] h = refl
  zero-owed ((uid, n) ∷ rest) (z, h) = elim (Bool-cases (hits w x y uid)) [
    | inl e ↦ rw (e, z, zero-owed rest h) (add_zero (pos 0))
    | inr e ↦ rw (e, zero-owed rest h) (add_zero (pos 0))
  ]

  take_credits-some :
      (ns ns' : Nukees) (total : ℕ) (t t' : Credits) (v : ℤ)
      → AllZero ns
      → take_credits w ns total t ≡ some (ns', t')
      → t x y ≡ some v
      → t' x y ≡ some (v -ℤ owed ns')
  unfolding take_credits
  take_credits-some ns ns' total t t' v z f e = elim (Bool-cases (eq_ℤ w.multiplier (pos 0))) [
    | inl m ↦
        let g : (ns, t) ≡ (ns', t') = same_taken (ground (arith, f, m)) in
        ap (λ (p : Nukees × Credits). p.1 x y) (sym g)
        ∙ (e
            ∙ (ap some (sym (ap (λ o. v -ℤ o) (zero-owed ns z) ∙ sub_zero v))
                ∙ ap (λ (p : Nukees × Credits). some (v -ℤ owed p.0)) g))
    | inr m ↦ elim (Bool-cases (ltb_ℤ (pos total) w.empty_kbytes)) [
      | inl k ↦
          take_each-some (empty_amount w) (or_owner w ns) ns' t t' v (ground (arith, f, m, k)) e
      | inr k ↦ take_each-some (full_amount w) ns ns' t t' v (ground (arith, f, m, k)) e
    ]
  ]

  -- Is one of the nukees the user, in this section?
  unfoldable pub is_hit : Nukees → Bool
  is_hit [] = false
  is_hit ((uid, n) ∷ rest) = hits w x y uid || is_hit rest

  take_each-none :
      (amount : Amount) (ns ns' : Nukees) (t t' : Credits)
      → take_each w amount ns t ≡ some (ns', t')
      → t x y ≡ none
      → t' x y ≡ none
  unfolding take_each
  take_each-none amount [] ns' t t' f e =
      let g : ([], t) ≡ (ns', t') = same_taken f in
      ap (λ (p : Nukees × Credits). p.1 x y) (sym g) ∙ e
  take_each-none amount ((uid, n) ∷ rest) ns' t t' f e =
      let (k, ns, g, l) = take_each-cons w amount uid n rest ns' t t' f in
      take_each-none amount rest ns (charged w t uid k) t' g (charged-none w x y t uid k e)

  take_credits-none :
      (ns ns' : Nukees) (total : ℕ) (t t' : Credits)
      → take_credits w ns total t ≡ some (ns', t')
      → t x y ≡ none
      → t' x y ≡ none
  unfolding take_credits
  take_credits-none ns ns' total t t' f e = elim (Bool-cases (eq_ℤ w.multiplier (pos 0))) [
    | inl m ↦
        let g : (ns, t) ≡ (ns', t') = same_taken (ground (arith, f, m)) in
        ap (λ (p : Nukees × Credits). p.1 x y) (sym g) ∙ e
    | inr m ↦ elim (Bool-cases (ltb_ℤ (pos total) w.empty_kbytes)) [
      | inl k ↦ take_each-none (empty_amount w) (or_owner w ns) ns' t t' (ground (arith, f, m, k)) e
      | inr k ↦ take_each-none (full_amount w) ns ns' t t' (ground (arith, f, m, k)) e
    ]
  ]

  restore_credits-none :
      (ns : Nukees) (t : Credits)
      → t x y ≡ none
      → is_hit ns ≡ true
      → restore_credits w ns t x y ≡ some (owed ns)
  unfolding restore_credits owed is_hit
  restore_credits-none [] t e h = cc h
  restore_credits-none ((uid, n) ∷ rest) t e h = elim (Bool-cases (hits w x y uid)) [
    | inl k ↦ rw k (
        restore_credits-some rest (refunded w t uid n.credits) n.credits
          (refunded-new w x y t uid n.credits k e))
    | inr k ↦ rw k (
        restore_credits-none rest (refunded w t uid n.credits)
          (refunded-miss w x y t uid n.credits k e) (ground (arith, h, k))
        ∙ ap some (sym (zero_add (owed rest))))
  ]

-- A nuke that goes through, and then its unnuke, leave the credits as they were that a user had an
-- entry for, in every section, whatever the multiplier and the owners of the files.
pub restore_credits-nuke_credits :
    (w : Setup) (files : List FileEntry) (ns : Nukees) (t t' : Credits) (x : ℤ) (y : Str) (v : ℤ)
    → nuke_credits w files t ≡ some (ns, t')
    → t x y ≡ some v
    → restore_credits w ns t' x y ≡ some v
unfolding nuke_credits
restore_credits-nuke_credits w files ns t t' x y v f e =
    let (fresh, total) = calculate_nukees files [] 0 in
    restore_credits-some w x y ns t' (v -ℤ owed w x y ns)
      (take_credits-some w x y fresh ns total t t' v (calculate_nukees-AllZero files [] 0 tt) f e)
    ∙ ap some (sub_add v (owed w x y ns))

-- A user who had no entry is charged nothing by the nuke, and has afterwards what the unnuke says
-- that it took.
pub restore_credits-gain :
    (w : Setup) (files : List FileEntry) (ns : Nukees) (t t' : Credits) (x : ℤ) (y : Str)
    → nuke_credits w files t ≡ some (ns, t')
    → t x y ≡ none
    → is_hit w x y ns ≡ true
    → (t' x y ≡ none) × (restore_credits w ns t' x y ≡ some (owed w x y ns))
unfolding nuke_credits
restore_credits-gain w files ns t t' x y f e h =
    let (fresh, total) = calculate_nukees files [] 0 in
    let gone = take_credits-none w x y fresh ns total t t' f e in
    (gone, restore_credits-none w x y ns t' gone h)
