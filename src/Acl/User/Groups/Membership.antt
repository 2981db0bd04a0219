-- ===== src/Acl/User/Groups/Membership.antt =====
-- Which groups a user is in after each group operation of src/acl/user.cpp.
use ebftpd.Prelude.{
  ◌≡◌, ◌≢◌, refl, sym, ap, ◌∙◌, inl, inr, not, List, [], ◌∷◌, ℤ, eq_ℤ, minus_one, Bool-cases, ◌&&◌,
  ◌||◌, arith,
}
use ebftpd.Acl.User.Data.{UserData}
use ebftpd.Acl.User.GidList.{
  contains, keep, outside, eq_ℤ_sound, eq_ℤ-comm, contains-append, contains-keep,
  contains-erase_first,
}
use ebftpd.Acl.User.Groups.{
  has_gid, demoted, with_primary, grown, append_new, with_added, with_groups, remaining,
  with_deleted, with_set, diff_gids, with_toggled, clean_gadmin_gids,
}

contains-demoted : (u : UserData) (g : ℤ) → g ≢ minus_one → contains g (demoted u) ≡ has_gid u g
unfolding demoted has_gid contains
contains-demoted u g h = elim (Bool-cases (eq_ℤ u.primary_gid minus_one)) [
  | inl e ↦ elim (Bool-cases (eq_ℤ u.primary_gid g)) [
    | inl f ↦ absurd (h (sym (eq_ℤ_sound _ _ f) ∙ eq_ℤ_sound _ _ e))
    | inr f ↦ ground arith
  ]
  | inr e ↦ ground arith
]

has_gid-with_groups :
    (u : UserData) (gids : List ℤ) (g : ℤ)
    → g ≢ minus_one
    → has_gid (with_groups u gids) g ≡ contains g gids
unfolding has_gid with_groups contains
has_gid-with_groups u [] g h = elim (Bool-cases (eq_ℤ minus_one g)) [
  | inl e ↦ absurd (h (sym (eq_ℤ_sound _ _ e)))
  | inr e ↦ ground arith
]
has_gid-with_groups u (x ∷ xs) g h = refl

-- A group is added unless it is there already.
contains-grown :
    (p : ℤ) (sec : List ℤ) (x g : ℤ)
    → (eq_ℤ p g || contains g (grown p sec x)) ≡ (eq_ℤ p g || contains g sec || eq_ℤ x g)
unfolding contains
contains-grown p sec x g = elim (Bool-cases (eq_ℤ x g)) [
  | inl f ↦
      let same = eq_ℤ_sound x g f in
      ground (
        arith,
        f,
        ap (λ y. contains y sec) same,
        ap (λ y. eq_ℤ y p) same,
        eq_ℤ-comm g p,
        contains-append g sec (x ∷ []),
      )
  | inr f ↦ ground (arith, contains-append g sec (x ∷ []))
]

contains-append_new :
    (p : ℤ) (sec gids : List ℤ) (g : ℤ)
    → (eq_ℤ p g || contains g (append_new p sec gids))
      ≡ (eq_ℤ p g || contains g sec || contains g gids)
unfolding append_new contains
contains-append_new p sec [] g = ground arith
contains-append_new p sec (x ∷ gids) g =
    ground (arith, contains-grown p sec x g, contains-append_new p (grown p sec x) gids g)

-- A member's set of groups is closed under cleaning the groups it administers.
has_gid-clean : (u : UserData) (g : ℤ) → has_gid (clean_gadmin_gids u) g ≡ has_gid u g
unfolding has_gid clean_gadmin_gids
has_gid-clean u g = refl

-- Making a group the primary one adds it and takes no other away, -1 apart.
pub has_gid-with_primary :
    (u : UserData) (gid g : ℤ)
    → g ≢ minus_one
    → has_gid (with_primary u gid) g ≡ (eq_ℤ gid g || has_gid u g)
unfolding with_primary
has_gid-with_primary u gid g h =
    unfold has_gid in ground (arith, contains-erase_first g gid (demoted u), contains-demoted u g h)

-- Adding groups adds exactly those, -1 apart.
pub has_gid-with_added :
    (u : UserData) (front : ℤ) (rest : List ℤ) (g : ℤ)
    → g ≢ minus_one
    → has_gid (with_added u front rest) g ≡ (has_gid u g || contains g (front ∷ rest))
unfolding has_gid with_added contains
has_gid-with_added u front rest g h = elim (Bool-cases (eq_ℤ u.primary_gid minus_one)) [
  | inl e ↦ elim (Bool-cases (eq_ℤ u.primary_gid g)) [
    | inl f ↦ absurd (h (sym (eq_ℤ_sound _ _ f) ∙ eq_ℤ_sound _ _ e))
    | inr f ↦ ground (arith, contains-append_new front u.secondary_gids rest g)
  ]
  | inr e ↦ ground (arith, contains-append_new u.primary_gid u.secondary_gids (front ∷ rest) g)
]

has_gid-remaining :
    (u : UserData) (gids : List ℤ) (g : ℤ)
    → g ≢ minus_one
    → has_gid (remaining u gids) g ≡ (has_gid u g && not (contains g gids))
unfolding remaining
has_gid-remaining u gids g h =
    let kept = contains-keep g (outside gids) u.secondary_gids in
    let moved = has_gid-with_groups u (keep (outside gids) u.secondary_gids) g h in
    elim (Bool-cases (eq_ℤ u.primary_gid g)) [
      | inl f ↦
          unfold has_gid in
          ground (arith, kept, moved, f, ap (λ y. contains y gids) (eq_ℤ_sound u.primary_gid g f))
      | inr f ↦ unfold has_gid in ground (arith, kept, moved, f)
    ]

-- Deleting groups takes away exactly those, -1 apart.
pub has_gid-with_deleted :
    (u : UserData) (gids : List ℤ) (g : ℤ)
    → g ≢ minus_one
    → has_gid (with_deleted u gids) g ≡ (has_gid u g && not (contains g gids))
unfolding with_deleted
has_gid-with_deleted u gids g h = has_gid-clean (remaining u gids) g ∙ has_gid-remaining u gids g h

-- Setting the groups leaves exactly those, -1 apart.
pub has_gid-with_set :
    (u : UserData) (gids : List ℤ) (g : ℤ)
    → g ≢ minus_one
    → has_gid (with_set u gids) g ≡ contains g gids
unfolding with_set
has_gid-with_set u gids g h = has_gid-clean (with_groups u gids) g ∙ has_gid-with_groups u gids g h

contains-diff_gids :
    (u : UserData) (gids : List ℤ) (g : ℤ)
    → g ≢ minus_one
    → contains g (diff_gids u gids)
      ≡ ((has_gid u g && not (contains g gids)) || (contains g gids && not (has_gid u g)))
unfolding diff_gids
contains-diff_gids u gids g h = rw (
  contains-append g (keep (outside gids) (demoted u)) (keep (outside (demoted u)) gids),
  contains-keep g (outside gids) (demoted u),
  contains-keep g (outside (demoted u)) gids,
  contains-demoted u g h,
)

-- Toggling groups leaves the user in those that were on one side only, -1 apart.
pub has_gid-with_toggled :
    (u : UserData) (gids : List ℤ) (g : ℤ)
    → g ≢ minus_one
    → has_gid (with_toggled u gids) g
      ≡ ((has_gid u g && not (contains g gids)) || (contains g gids && not (has_gid u g)))
unfolding with_toggled
has_gid-with_toggled u gids g h =
    has_gid-clean (with_groups u (diff_gids u gids)) g
    ∙ has_gid-with_groups u (diff_gids u gids) g h
    ∙ contains-diff_gids u gids g h

-- The group operations act on the set of groups as the set operations that they are named for: for
-- every group but -1, the user is in it after making gid primary if it is gid or was there before,
-- after adding if it was there or is added, after deleting if it was there and is not deleted,
-- after setting if it is in the list, and after toggling if exactly one of user and list has it.
pub has_gid-operations :
    (u : UserData) (gid : ℤ) (rest : List ℤ) (g : ℤ)
    → g ≢ minus_one
    → (has_gid (with_primary u gid) g ≡ (eq_ℤ gid g || has_gid u g))
      × (has_gid (with_added u gid rest) g ≡ (has_gid u g || contains g (gid ∷ rest)))
      × (has_gid (with_deleted u (gid ∷ rest)) g ≡ (has_gid u g && not (contains g (gid ∷ rest))))
      × (has_gid (with_set u (gid ∷ rest)) g ≡ contains g (gid ∷ rest))
      × (has_gid (with_toggled u (gid ∷ rest)) g ≡ (
          (has_gid u g && not (contains g (gid ∷ rest)))
          || (contains g (gid ∷ rest) && not (has_gid u g))))
has_gid-operations u gid rest g h = (
  has_gid-with_primary u gid g h,
  has_gid-with_added u gid rest g h,
  has_gid-with_deleted u (gid ∷ rest) g h,
  has_gid-with_set u (gid ∷ rest) g h,
  has_gid-with_toggled u (gid ∷ rest) g h,
)
