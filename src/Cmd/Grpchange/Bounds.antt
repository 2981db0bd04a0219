-- ===== src/Cmd/Grpchange/Bounds.antt =====
-- What the setters of src/acl/group.cpp leave of groups whose numbers are in bounds, through the
-- loop of SITE GRPCHANGE (src/cmd/site/grpchange.cpp).
use ebftpd.Prelude.{
  ◌≡◌, refl, sym, ap, ◌∙◌, subst, inl, inr, Bool, true, false, some, List, [], ◌∷◌, ℤ, pos, negsuc,
  minus_one, ◌≤ℤ◌, eq_ℤ, Bool-cases, Option-cases, arith,
}
use ebftpd.Acl.Group.{
  GroupData, set_description, set_comment, set_slots, set_leech_slots, set_allotment_slots,
  set_max_allotment_size, set_max_logins,
}
use ebftpd.Acl.User.GidList.{eq_ℤ_sound}
use ebftpd.Cmd.Grpchange.{
  GroupChange, slots_to, leech_slots_to, allotment_slots_to, max_allotment_size_to, max_logins_to,
  description_to, comment_to, apply_group_change, Groups, store_group, loaded, change_groups,
}

-- The numbers of a group: -1 is unlimited, and -2 no slots for leechers and allotments.
pub record Bounded (g : GroupData) : Type 0 where
  pub slots_low : minus_one ≤ℤ g.slots
  pub leech_low : negsuc 1 ≤ℤ g.leech_slots
  pub allotment_low : negsuc 1 ≤ℤ g.allotment_slots
  pub size_low : pos 0 ≤ℤ g.max_allotment_size
  pub logins_low : minus_one ≤ℤ g.max_logins

-- The bounds of a change, by its kind.
abbrev pub InBounds : GroupChange → Type 0
InBounds (slots_to n) = minus_one ≤ℤ n
InBounds (leech_slots_to n) = negsuc 1 ≤ℤ n
InBounds (allotment_slots_to n) = negsuc 1 ≤ℤ n
InBounds (max_allotment_size_to n) = pos 0 ≤ℤ n
InBounds (max_logins_to n) = minus_one ≤ℤ n
InBounds (description_to s) = Unit
InBounds (comment_to s) = Unit

-- What a change does to a group, as far as its numbers and its comment go.
abbrev Keeps : GroupData → GroupData → Type 0
Keeps g h = Bounded h × (h.comment ≡ g.comment)

apply_group_change-Keeps :
    (saved : Bool) (change : GroupChange) (g : GroupData)
    → InBounds change
    → Bounded g
    → Keeps g ((apply_group_change saved change (loaded g)).stored)
unfolding apply_group_change set_slots set_leech_slots set_allotment_slots set_max_allotment_size
    set_max_logins set_description set_comment
apply_group_change-Keeps true (slots_to n) g i b = (
  record {
    slots_low = i;
    leech_low = b.leech_low;
    allotment_low = b.allotment_low;
    size_low = b.size_low;
    logins_low = b.logins_low;
  },
  refl,
)
apply_group_change-Keeps false (slots_to n) g i b = (b, refl)
apply_group_change-Keeps true (leech_slots_to n) g i b = (
  record {
    slots_low = b.slots_low;
    leech_low = i;
    allotment_low = b.allotment_low;
    size_low = b.size_low;
    logins_low = b.logins_low;
  },
  refl,
)
apply_group_change-Keeps false (leech_slots_to n) g i b = (b, refl)
apply_group_change-Keeps true (allotment_slots_to n) g i b = (
  record {
    slots_low = b.slots_low;
    leech_low = b.leech_low;
    allotment_low = i;
    size_low = b.size_low;
    logins_low = b.logins_low;
  },
  refl,
)
apply_group_change-Keeps false (allotment_slots_to n) g i b = (b, refl)
apply_group_change-Keeps true (max_allotment_size_to n) g i b = (
  record {
    slots_low = b.slots_low;
    leech_low = b.leech_low;
    allotment_low = b.allotment_low;
    size_low = i;
    logins_low = b.logins_low;
  },
  refl,
)
apply_group_change-Keeps false (max_allotment_size_to n) g i b = (b, refl)
apply_group_change-Keeps true (max_logins_to n) g i b = (
  record {
    slots_low = b.slots_low;
    leech_low = b.leech_low;
    allotment_low = b.allotment_low;
    size_low = b.size_low;
    logins_low = i;
  },
  refl,
)
apply_group_change-Keeps false (max_logins_to n) g i b = (b, refl)
apply_group_change-Keeps true (description_to s) g i b = (
  record {
    slots_low = b.slots_low;
    leech_low = b.leech_low;
    allotment_low = b.allotment_low;
    size_low = b.size_low;
    logins_low = b.logins_low;
  },
  refl,
)
apply_group_change-Keeps false (description_to s) g i b = (
  record {
    slots_low = b.slots_low;
    leech_low = b.leech_low;
    allotment_low = b.allotment_low;
    size_low = b.size_low;
    logins_low = b.logins_low;
  },
  refl,
)
apply_group_change-Keeps true (comment_to s) g i b = (
  record {
    slots_low = b.slots_low;
    leech_low = b.leech_low;
    allotment_low = b.allotment_low;
    size_low = b.size_low;
    logins_low = b.logins_low;
  },
  refl,
)
apply_group_change-Keeps false (comment_to s) g i b = (
  record {
    slots_low = b.slots_low;
    leech_low = b.leech_low;
    allotment_low = b.allotment_low;
    size_low = b.size_low;
    logins_low = b.logins_low;
  },
  refl,
)

-- Every group of a database after is one of the database before, with its comment.
abbrev pub AllKeep : Groups → Groups → Type 0
AllKeep before after =
    (gid : ℤ) (h : GroupData)
    → after gid ≡ some h
    → (g : GroupData) × (before gid ≡ some g) × Keeps g h

abbrev pub AllBounded : Groups → Type 0
AllBounded groups = (gid : ℤ) (g : GroupData) → groups gid ≡ some g → Bounded g

pub same-AllKeep : (groups : Groups) → AllBounded groups → AllKeep groups groups
same-AllKeep groups b gid h e = (h, e, (b gid h e, refl))

store_group-AllKeep :
    (groups : Groups) (x : ℤ) (g now : GroupData)
    → AllBounded groups
    → groups x ≡ some g
    → Keeps g now
    → AllKeep groups (store_group groups x now)
unfolding store_group
store_group-AllKeep groups x g now b e k gid h f = elim (Bool-cases (eq_ℤ x gid)) [
  | inl c ↦
      let same : now ≡ h = ground (arith, f, c) in
      (g, ap groups (sym (eq_ℤ_sound x gid c)) ∙ e, subst (Keeps g) same k)
  | inr c ↦ same-AllKeep groups b gid h (ground (arith, f, c))
]

pub AllKeep-AllBounded : (a c : Groups) → AllKeep a c → AllBounded c
AllKeep-AllBounded a c k gid h e = let (g, f, l) = k gid h e in l.0

AllKeep-trans : (a b c : Groups) → AllKeep a b → AllKeep b c → AllKeep a c
AllKeep-trans a b c k l gid h e =
    let (g, f, m) = l gid h e in let (g2, f2, m2) = k gid g f in (g2, f2, (m.0, m.1 ∙ m2.1))

pub change_groups-AllKeep :
    (saves : ℤ → Bool) (change : GroupChange) (gids : List ℤ) (groups : Groups)
    → InBounds change
    → AllBounded groups
    → AllKeep groups (change_groups saves change gids groups)
unfolding change_groups
change_groups-AllKeep saves change [] groups i b = same-AllKeep groups b
change_groups-AllKeep saves change (gid ∷ gids) groups i b = elim (Option-cases (groups gid)) [
  | inl e ↦ rw (e, change_groups) (change_groups-AllKeep saves change gids groups i b)
  | inr (g, e) ↦
      let o = apply_group_change (saves gid) change (loaded g) in
      let now = store_group groups gid o.stored in
      let step : AllKeep groups now =
        store_group-AllKeep groups gid g o.stored b e
          (apply_group_change-Keeps (saves gid) change g i (b gid g e)) in
      rw (e, change_groups)
        (AllKeep-trans groups now (change_groups saves change gids now) step
          (change_groups-AllKeep saves change gids now i (AllKeep-AllBounded groups now step)))
]

-- No group appears, and none has another comment than before.
abbrev pub SameComments : Groups → Groups → Type 0
SameComments before after =
    (gid : ℤ) (h : GroupData)
    → after gid ≡ some h
    → (g : GroupData) × (before gid ≡ some g) × (h.comment ≡ g.comment)

pub AllKeep-SameComments : (a c : Groups) → AllKeep a c → SameComments a c
AllKeep-SameComments a c k gid h e = let (g, f, l) = k gid h e in (g, f, l.1)
