-- ===== src/Cmd/Change/Flags.antt =====
-- The setting `flags` of src/cmd/site/change.cpp.
use ebftpd.Prelude.{
  ◌≡◌, ◌≢◌, ◌⊎◌, refl, sym, ap, ◌∙◌, inl, inr, ℕ, Bool, true, false, [], ◌∷◌, Str, has_char, pos,
  eq_ℤ, eq_ℤ-iff, Bool-cases, arith,
}
use ebftpd.Acl.User.Data.{UserData, Outcome, returned, unsaved, aborted, commit}
use ebftpd.Acl.User.Flags.{
  deleted_flag, template_flag, gadmin_flag, has_flag, add_flags, del_flags, set_flags, added_flags,
  deleted_flags,
}
use ebftpd.Acl.User.Flags.Laws.{Ascends, has_char-added_flags, has_char-deleted_flags}
use ebftpd.Cmd.Change.Checks.{FlagAction, add_them, delete_them, set_them}
use ebftpd.Cmd.Change.Apply.{keep_template, change_flags}

add_flags-returned :
    (saved : Bool) (u v : UserData) (flags : Str)
    → add_flags saved u flags ≡ returned v
    → v ≡ record u { flags = added_flags u.flags flags }
unfolding add_flags commit
add_flags-returned saved u v flags e = ground arith

del_flags-left :
    (saved : Bool) (u v : UserData) (flags : Str)
    → (del_flags saved u flags ≡ returned v) ⊎ (del_flags saved u flags ≡ unsaved v)
    → v ≡ record u { flags = deleted_flags u.flags flags }
unfolding del_flags commit
del_flags-left saved u v flags (inl e) = ground arith
del_flags-left saved u v flags (inr e) = ground arith

set_flags-left :
    (saved : Bool) (u v : UserData) (flags : Str)
    → (set_flags saved u flags ≡ returned v) ⊎ (set_flags saved u flags ≡ unsaved v)
    → v ≡ record u { flags = flags }
unfolding set_flags commit
set_flags-left saved u v flags (inl e) = ground arith
set_flags-left saved u v flags (inr e) = ground arith

-- What the template flag adds.
templated :
    (u v : UserData)
    → v ≡ record u { flags = added_flags u.flags (template_flag ∷ []) }
    → ((c : ℕ) → c ≢ template_flag → has_flag v c ≡ has_flag u c)
      × (has_flag v template_flag ≡ true)
unfolding has_flag has_char
templated u v e = (
  (λ c ne.
      let f = ap (λ (x : UserData). has_char c x.flags) e in
      ground (arith, f, has_char-added_flags c u.flags (template_flag ∷ []))),
  (let f = ap (λ (x : UserData). has_char template_flag x.flags) e in
      ground (arith, f, has_char-added_flags template_flag u.flags (template_flag ∷ []))),
)

-- With the template flag or without, the other flags stand as they were.
keep_template-returned :
    (saved : Bool) (o : Outcome UserData) (v : UserData)
    → keep_template saved o ≡ returned v
    → (u : UserData) × ((o ≡ returned u) ⊎ (o ≡ unsaved u))
      × ((c : ℕ) → c ≢ template_flag → has_flag v c ≡ has_flag u c)
      × (u.id ≡ pos 1 → has_flag v template_flag ≡ true)
unfolding keep_template
keep_template-returned saved (unsaved u) v e = elim (Bool-cases (eq_ℤ u.id (pos 1))) [
  | inl f ↦
      let (others, own) =
        templated u v (add_flags-returned saved u v (template_flag ∷ []) (ground (arith, e, f))) in
      (u, inr refl, others, λ k. own)
  | inr f ↦ let bad : unsaved u ≡ returned v = ground (arith, e, f) in cc bad
]
keep_template-returned saved aborted v e = cc e
keep_template-returned saved (returned u) v e = elim (Bool-cases (eq_ℤ u.id (pos 1))) [
  | inl f ↦
      let (others, own) =
        templated u v (add_flags-returned saved u v (template_flag ∷ []) (ground (arith, e, f))) in
      (u, inl refl, others, λ k. own)
  | inr f ↦
      let same : u ≡ v = ground (arith, e, f) in
      (
        u,
        inl refl,
        (λ c ne. ap (λ (x : UserData). has_flag x c) (sym same)),
        (λ k. cc ((eq_ℤ-iff u.id (pos 1)).1 k, f)),
      )
]

-- The flags that SITE CHANGE is not to touch.
abbrev pub Protected : ℕ → Type 0
Protected c = (c ≡ deleted_flag) ⊎ (c ≡ gadmin_flag)

absent :
    (c : ℕ) (flags : Str)
    → has_char deleted_flag flags ≡ false
    → has_char gadmin_flag flags ≡ false
    → Protected c
    → has_char c flags ≡ false
absent c flags d g (inl e) = ap (λ x. has_char x flags) e ∙ d
absent c flags d g (inr e) = ap (λ x. has_char x flags) e ∙ g

no_template : (c : ℕ) → Protected c → c ≢ template_flag
no_template c p e = ground arith

-- A change of flags that adds or deletes leaves the deleted flag and the group administrator's flag
-- as they were, for an account whose flags are in ascending order; one that sets the flags takes
-- both away; and where the account is the default user's, deleting and setting leave it a template.
pub change_flags_lem :
    (saves : Bool × Bool) (action : FlagAction) (flags : Str) (u v : UserData)
    → has_char deleted_flag flags ≡ false
    → has_char gadmin_flag flags ≡ false
    → Ascends u.flags
    → change_flags saves action flags u ≡ returned v
    → (action ≢ set_them → (c : ℕ) → Protected c → has_flag v c ≡ has_flag u c)
      × (action ≡ set_them → (c : ℕ) → Protected c → has_flag v c ≡ false)
      × (action ≢ add_them → u.id ≡ pos 1 → has_flag v template_flag ≡ true)
unfolding change_flags has_flag
change_flags_lem saves add_them flags u v d g a e =
    let same = add_flags-returned saves.0 u v flags e in
    (
      (λ ne c p.
          let f = ap (λ (x : UserData). has_char c x.flags) same in
          ground (arith, f, has_char-added_flags c u.flags flags, absent c flags d g p)),
      (λ k. cc k),
      (λ ne. absurd (ne refl)),
    )
change_flags_lem saves delete_them flags u v d g a e =
    let (x, f, others, own) = keep_template-returned saves.1 (del_flags saves.0 u flags) v e in
    let same = del_flags-left saves.0 u x flags f in
    (
      (λ ne c p.
          let k = ap (λ (y : UserData). has_char c y.flags) same in
          ground (
            arith,
            others c (no_template c p),
            k,
            has_char-deleted_flags c u.flags flags a,
            absent c flags d g p,
          )),
      (λ k. cc k),
      (λ ne k. own (ap (λ (y : UserData). y.id) same ∙ k)),
    )
change_flags_lem saves set_them flags u v d g a e =
    let (x, f, others, own) = keep_template-returned saves.1 (set_flags saves.0 u flags) v e in
    let same = set_flags-left saves.0 u x flags f in
    (
      (λ ne. absurd (ne refl)),
      (λ k c p.
          others c (no_template c p)
          ∙ (ap (λ (y : UserData). has_flag y c) same ∙ absent c flags d g p)),
      (λ ne k. own (ap (λ (y : UserData). y.id) same ∙ k)),
    )
