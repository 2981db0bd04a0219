-- ===== src/Acl/User/Flags/Admins.antt =====
-- Group administrators: the groups that a user administers and the flag that goes with them.
use ebftpd.Prelude.{
  ◌≡◌, refl, sym, ap, ◌∙◌, inl, inr, true, false, not, List, [], ◌∷◌, Str, ℤ, eq_ℤ, has_char, ◌||◌,
  Bool-cases, if◌then◌else◌, arith,
}
use ebftpd.Acl.Rules.{valid_flags}
use ebftpd.Acl.User.Data.{UserData, returned, commit}
use ebftpd.Acl.User.GidList.{contains, keep, contains-keep, eq_ℤ-comm, eq_ℤ_sound}
use ebftpd.Acl.User.Flags.{
  has_flag, added_flags, deleted_flags, add_flags, del_flags, gadmin_flag, has_gadmin_gid,
  insert_gid, is_empty, add_gadmin_gid, del_gadmin_gid, toggle_gadmin_gid,
}
use ebftpd.Acl.User.Flags.Laws.{Ascends, has_char-added_flags, has_char-deleted_flags}

gadmin_flag-valid : valid_flags (gadmin_flag ∷ []) ≡ true
unfolding valid_flags has_char
gadmin_flag-valid = refl

abbrev pub admin_text : Str
admin_text = gadmin_flag ∷ []

-- The object after a call that returns.
abbrev with_admin : UserData → ℤ → UserData
with_admin u gid = record u { gadmin_gids = insert_gid gid u.gadmin_gids }

abbrev without_admin : UserData → ℤ → UserData
without_admin u gid = record u { gadmin_gids = keep (λ g. not (eq_ℤ g gid)) u.gadmin_gids }

unfoldable pub appointed : UserData → ℤ → UserData
appointed u gid =
    if has_char gadmin_flag u.flags
    then with_admin u gid
    else record (with_admin u gid) { flags = added_flags u.flags admin_text }

unfoldable pub dismissed : UserData → ℤ → UserData
dismissed u gid =
    if is_empty (without_admin u gid).gadmin_gids
    then record (without_admin u gid) { flags = deleted_flags u.flags admin_text }
    else without_admin u gid

add_gadmin_gid-returned :
    (u : UserData) (gid : ℤ) → add_gadmin_gid true true u gid ≡ returned (appointed u gid)
unfolding add_gadmin_gid add_flags commit appointed
add_gadmin_gid-returned u gid = elim (Bool-cases (has_char gadmin_flag u.flags)) [
  | inl e ↦ rw (e, add_gadmin_gid, appointed)
  | inr e ↦ rw (e, add_gadmin_gid, appointed) (rw (gadmin_flag-valid, add_flags))
]

del_gadmin_gid-returned :
    (u : UserData) (gid : ℤ) → del_gadmin_gid true true u gid ≡ returned (dismissed u gid)
unfolding del_gadmin_gid del_flags commit dismissed
del_gadmin_gid-returned u gid = elim (Bool-cases (is_empty (without_admin u gid).gadmin_gids)) [
  | inl e ↦ rw (e, del_gadmin_gid, dismissed)
  | inr e ↦ rw (e, del_gadmin_gid, dismissed)
]

contains-insert_gid :
    (g gid : ℤ) (gids : List ℤ) → contains g (insert_gid gid gids) ≡ (eq_ℤ gid g || contains g gids)
unfolding contains
contains-insert_gid g gid gids = elim (Bool-cases (eq_ℤ gid g)) [
  | inl e ↦ ground (arith, e, ap (λ y. contains y gids) (eq_ℤ_sound gid g e))
  | inr e ↦ ground (arith, e)
]

gadmin-appointed :
    (u : UserData) (gid : ℤ) → (appointed u gid).gadmin_gids ≡ insert_gid gid u.gadmin_gids
unfolding appointed
gadmin-appointed u gid = elim (Bool-cases (has_char gadmin_flag u.flags)) [
  | inl e ↦ rw (e, appointed)
  | inr e ↦ rw (e, appointed)
]

gadmin-dismissed :
    (u : UserData) (gid : ℤ)
    → (dismissed u gid).gadmin_gids ≡ keep (λ g. not (eq_ℤ g gid)) u.gadmin_gids
unfolding dismissed
gadmin-dismissed u gid = elim (Bool-cases (is_empty (without_admin u gid).gadmin_gids)) [
  | inl e ↦ rw (e, dismissed)
  | inr e ↦ rw (e, dismissed)
]

has_flag-appointed : (u : UserData) (gid : ℤ) → has_flag (appointed u gid) gadmin_flag ≡ true
unfolding has_flag appointed
has_flag-appointed u gid = elim (Bool-cases (has_char gadmin_flag u.flags)) [
  | inl e ↦ rw (e, appointed) e
  | inr e ↦
      rw (e, appointed)
        (unfold has_char in ground (arith, has_char-added_flags gadmin_flag u.flags admin_text))
]

has_flag-dismissed :
    (u : UserData) (gid : ℤ)
    → Ascends u.flags
    → keep (λ g. not (eq_ℤ g gid)) u.gadmin_gids ≡ []
    → has_flag (dismissed u gid) gadmin_flag ≡ false
unfolding has_flag dismissed
has_flag-dismissed u gid a h =
    rw (h, dismissed)
      (unfold has_char in ground (arith, has_char-deleted_flags gadmin_flag u.flags admin_text a))

-- When both writes succeed, toggling an administered group returns, and it changes the groups that
-- the user administers at that one group only. The answer says whether the user now administers
-- it. If he does, he has the administrator flag; if that was the last group of a user whose flags
-- ascend, he has it no more.
pub toggle_gadmin_gid_lem :
    (u : UserData) (gid : ℤ)
    → Ascends u.flags
    → (v : UserData) × (toggle_gadmin_gid true true u gid
        ≡ (not (has_gadmin_gid u gid), returned v))
      × ((g : ℤ)
          → has_gadmin_gid v g
            ≡ (if eq_ℤ gid g then not (has_gadmin_gid u gid) else has_gadmin_gid u g))
      × (has_gadmin_gid u gid ≡ false → has_flag v gadmin_flag ≡ true)
      × (has_gadmin_gid u gid ≡ true → v.gadmin_gids ≡ [] → has_flag v gadmin_flag ≡ false)
unfolding toggle_gadmin_gid has_gadmin_gid
toggle_gadmin_gid_lem u gid a = elim (Bool-cases (has_gadmin_gid u gid)) [
  | inl e ↦ (
    dismissed u gid,
    rw (e, del_gadmin_gid-returned u gid),
    (λ g. rw e (rw (gadmin-dismissed u gid, contains-keep g) (ground (arith, eq_ℤ-comm g gid)))),
    (λ f. cc),
    (λ f empty. has_flag-dismissed u gid a (sym (gadmin-dismissed u gid) ∙ empty)),
  )
  | inr e ↦ (
    appointed u gid,
    rw (e, add_gadmin_gid-returned u gid),
    (λ g. rw e (rw (gadmin-appointed u gid, contains-insert_gid g) (ground arith))),
    (λ f. has_flag-appointed u gid),
    (λ f. cc),
  )
]
