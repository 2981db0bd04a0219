-- ===== src/Acl/User/Groups/Shape.antt =====
-- The shape of a user's groups: what is kept by the group operations of src/acl/user.cpp, with the
-- lemmas on its parts.
use ebftpd.Prelude.{
  ◌≡◌, refl, ap, inl, inr, Bool, true, false, List, [], ◌∷◌, ℤ, eq_ℤ, minus_one, Bool-cases, ◌||◌,
  arith,
}
use ebftpd.Acl.User.Data.{UserData}
use ebftpd.Acl.User.GidList.{
  contains, keep, outside, Distinct, eq_ℤ-refl, eq_ℤ_sound, contains-append, contains-append_last,
  append_last-Distinct, contains-keep, keep-Distinct, append-Distinct,
}
use ebftpd.Acl.User.Groups.{
  has_gid, demoted, grown, append_new, with_added, with_groups, remaining, diff_gids,
  clean_gadmin_gids,
}

-- A list of groups that can be assigned: none twice, and -1 not among them.
abbrev pub IsGroupList : List ℤ → Type 0
IsGroupList gids = Distinct gids × (contains minus_one gids ≡ false)

-- The secondary groups are distinct and without -1 and the primary group; a user without a primary
-- group has no other; and only groups of the user, and never -1, are administered.
pub record IsValid (u : UserData) : Type 0 where
  pub secondary : IsGroupList u.secondary_gids
  pub apart : contains u.primary_gid u.secondary_gids ≡ false
  pub rooted : u.primary_gid ≡ minus_one → u.secondary_gids ≡ []
  pub real : contains minus_one u.gadmin_gids ≡ false
  pub admins : (g : ℤ) → contains g u.gadmin_gids ≡ true → has_gid u g ≡ true

-- The part of it that does not speak of administered groups.
pub record IsGrouped (u : UserData) : Type 0 where
  pub secondary : IsGroupList u.secondary_gids
  pub apart : contains u.primary_gid u.secondary_gids ≡ false
  pub rooted : u.primary_gid ≡ minus_one → u.secondary_gids ≡ []

pub IsGrouped-of : {u : UserData} → IsValid u → IsGrouped u
IsGrouped-of v = record { secondary = v.secondary; apart = v.apart; rooted = v.rooted }

pub demoted-IsGroupList : (u : UserData) → IsGrouped u → IsGroupList (demoted u)
unfolding demoted contains
demoted-IsGroupList u v = ground (arith, v.apart, v.secondary.0, v.secondary.1)

pub with_groups-IsGrouped :
    (u : UserData) (gids : List ℤ) → IsGroupList gids → IsGrouped (with_groups u gids)
unfolding with_groups contains
with_groups-IsGrouped u [] v = record { secondary = (tt, refl); apart = refl; rooted = λ e. refl }
with_groups-IsGrouped u (x ∷ xs) v = record {
  secondary = (v.0.1, ground (arith));
  apart = v.0.0;
  rooted = λ e. ground (arith, ap (λ y. eq_ℤ y minus_one) e, eq_ℤ-refl minus_one);
}

-- Cleaning leaves a user who administers only groups of his own.
pub clean-IsValid :
    (u : UserData)
    → IsGrouped u
    → contains minus_one u.gadmin_gids ≡ false
    → IsValid (clean_gadmin_gids u)
unfolding clean_gadmin_gids
clean-IsValid u v n = record {
  real = ground (arith, contains-keep minus_one (has_gid u) u.gadmin_gids);
  secondary = v.secondary;
  apart = v.apart;
  rooted = v.rooted;
  admins = λ g h. unfold has_gid in ground (arith, contains-keep g (has_gid u) u.gadmin_gids);
}

pub keep-IsGroupList : (p : ℤ → Bool) (xs : List ℤ) → IsGroupList xs → IsGroupList (keep p xs)
keep-IsGroupList p xs v =
    (keep-Distinct p xs v.0, ground (arith, contains-keep minus_one p xs, v.1))

pub remaining-IsGrouped :
    (u : UserData) (gids : List ℤ) → IsGrouped u → IsGrouped (remaining u gids)
unfolding remaining keep
remaining-IsGrouped u gids v =
    let kept = keep-IsGroupList (outside gids) u.secondary_gids v.secondary in
    elim (Bool-cases (contains u.primary_gid gids)) [
      | inl e ↦
          rw (e, remaining) (with_groups-IsGrouped u (keep (outside gids) u.secondary_gids) kept)
      | inr e ↦
          rw (e, remaining)
            (record {
              secondary = kept;
              apart =
                  ground
                    (arith, contains-keep u.primary_gid (outside gids) u.secondary_gids, v.apart);
              rooted = λ f. ap (keep (outside gids)) (v.rooted f);
            })
    ]

pub diff_gids-IsGroupList :
    (u : UserData) (gids : List ℤ) → IsGrouped u → IsGroupList gids → IsGroupList (diff_gids u gids)
unfolding diff_gids
diff_gids-IsGroupList u gids v w =
    let mine = demoted-IsGroupList u v in
    let left = keep-IsGroupList (outside gids) (demoted u) mine in
    let right = keep-IsGroupList (outside (demoted u)) gids w in
    (
      append-Distinct _ _ left.0 right.0 (λ g h. ground (
        arith,
        contains-keep g (outside gids) (demoted u),
        contains-keep g (outside (demoted u)) gids,
      )),
      rw (contains-append minus_one (keep (outside gids) (demoted u)), left.1, right.1),
    )

-- The secondary groups beside the primary group `p`.
abbrev pub IsBeside : ℤ → List ℤ → Type 0
IsBeside p sec = IsGroupList sec × (contains p sec ≡ false)

pub grown-IsBeside :
    (p : ℤ) (sec : List ℤ) (x : ℤ)
    → eq_ℤ x minus_one ≡ false
    → IsBeside p sec
    → IsBeside p (grown p sec x)
grown-IsBeside p sec x h v = elim (Bool-cases (contains x sec || eq_ℤ x p)) [
  | inl e ↦ rw e v
  | inr e ↦ rw e (
    (
      append_last-Distinct x sec v.0.0 (ground arith),
      ground (arith, contains-append_last minus_one x sec, v.0.1),
    ),
    ground (arith, contains-append_last p x sec, v.1),
  )
]

pub append_new-IsBeside :
    (p : ℤ) (sec gids : List ℤ)
    → contains minus_one gids ≡ false
    → IsBeside p sec
    → IsBeside p (append_new p sec gids)
unfolding append_new contains
append_new-IsBeside p sec [] h v = v
append_new-IsBeside p sec (x ∷ gids) h v =
    append_new-IsBeside p (grown p sec x) gids (ground arith)
      (grown-IsBeside p sec x (ground arith) v)

pub with_added-IsGrouped :
    (u : UserData) (front : ℤ) (rest : List ℤ)
    → contains minus_one (front ∷ rest) ≡ false
    → IsGrouped u
    → IsGrouped (with_added u front rest)
unfolding with_added contains
with_added-IsGrouped u front rest h v = elim (Bool-cases (eq_ℤ u.primary_gid minus_one)) [
  | inl e ↦
      let alone = v.rooted (eq_ℤ_sound _ _ e) in
      let b =
        append_new-IsBeside front u.secondary_gids rest (ground arith)
          (rw alone ((tt, refl), refl)) in
      rw (e, with_added)
        (record { secondary = b.0; apart = b.1; rooted = λ f. cc (eq_ℤ-refl minus_one, first h) })
  | inr e ↦
      let b =
        append_new-IsBeside u.primary_gid u.secondary_gids (front ∷ rest) h
          (v.secondary, v.apart) in
      rw (e, with_added)
        (record { secondary = b.0; apart = b.1; rooted = λ f. cc (eq_ℤ-refl minus_one) })
]
  where
    first : contains minus_one (front ∷ rest) ≡ false → eq_ℤ front minus_one ≡ false
    first k = ground arith

pub gadmin-with_added :
    (u : UserData) (front : ℤ) (rest : List ℤ)
    → (with_added u front rest).gadmin_gids ≡ u.gadmin_gids
unfolding with_added
gadmin-with_added u front rest = ground arith

pub gadmin-with_groups :
    (u : UserData) (gids : List ℤ) → (with_groups u gids).gadmin_gids ≡ u.gadmin_gids
unfolding with_groups
gadmin-with_groups u [] = refl
gadmin-with_groups u (x ∷ xs) = refl

pub gadmin-remaining :
    (u : UserData) (gids : List ℤ) → (remaining u gids).gadmin_gids ≡ u.gadmin_gids
unfolding remaining
gadmin-remaining u gids =
    ground (arith, gadmin-with_groups u (keep (outside gids) u.secondary_gids))
