-- ===== src/Cmd/Grpchange/Laws.antt =====
-- What SITE GRPCHANGE of src/cmd/site/grpchange.cpp leaves of the groups.
use ebftpd.Prelude.{
  ◌≡◌, subst, inl, inr, ℕ, Bool, Option, some, List, [], ◌∷◌, Str, str_eq, ℤ, pos, negsuc,
  minus_one, ◌≤ℤ◌, ltb_ℤ, Bool-cases, Option-cases, arith,
}
use ebftpd.Cmd.Grpchange.Bounds.{
  InBounds, AllBounded, AllKeep, same-AllKeep, AllKeep-AllBounded, AllKeep-SameComments,
  SameComments, change_groups-AllKeep,
}
use ebftpd.Cmd.Change.Values.{Server, Request, str_to_number}
use ebftpd.Cmd.Change.Checks.{rest_of_line}
use ebftpd.Cmd.Grpchange.{
  GroupChange, slots_to, leech_slots_to, allotment_slots_to, max_allotment_size_to, max_logins_to,
  description_to, comment_to, GroupCheck, check_number, check_description, check_group_comment,
  GroupSetting, group_settings, find_group_setting, check_group, Groups, execute_group,
}

-- Every row of the table gives changes in their bounds.
abbrev Sound : GroupCheck → Type 0
Sound check =
    (w : Server) (r : Request) (change : GroupChange) → check w r ≡ some change → InBounds change

abbrev AllSound : List GroupSetting → Type 0
AllSound [] = Unit
AllSound (s ∷ rest) = Sound s.check × AllSound rest

check_number-Sound :
    (read : Server → Str → Option (ℤ × ℕ)) (least : ℤ) (change : ℤ → GroupChange)
    → ((n : ℤ) → least ≤ℤ n → InBounds (change n))
    → Sound (check_number read least change)
check_number-Sound read least change h w r c e =
    elim (Option-cases (str_to_number (read w) r.value)) [
      | inl f ↦ cc (e, f)
      | inr (n, f) ↦ elim (Bool-cases (ltb_ℤ n least)) [
        | inl g ↦ absurd (ground (arith, e, f, g))
        | inr g ↦
            let same : change n ≡ c = ground (arith, e, f, g) in
            subst InBounds same (h n (ground (arith, g)))
      ]
    ]

check_description-Sound : Sound check_description
unfolding check_description
check_description-Sound w r c e = elim (Option-cases (rest_of_line r)) [
  | inl f ↦ absurd (ground (arith, e, f))
  | inr (s, f) ↦ elim (Bool-cases (w.valid_tagline s)) [
    | inl g ↦ let same : description_to s ≡ c = ground (arith, e, f, g) in subst InBounds same tt
    | inr g ↦ absurd (ground (arith, e, f, g))
  ]
]

check_group_comment-Sound : Sound check_group_comment
unfolding check_group_comment
check_group_comment-Sound w r c e = elim (Option-cases (rest_of_line r)) [
  | inl f ↦ absurd (ground (arith, e, f))
  | inr (s, f) ↦ let same : comment_to s ≡ c = ground (arith, e, f) in subst InBounds same tt
]

group_settings-AllSound : AllSound group_settings
group_settings-AllSound = (
  check_number-Sound _ minus_one slots_to (λ n h. h),
  (
    check_number-Sound _ (negsuc 1) leech_slots_to (λ n h. h),
    (
      check_number-Sound _ (negsuc 1) allotment_slots_to (λ n h. h),
      (
        check_number-Sound _ (pos 0) max_allotment_size_to (λ n h. h),
        (
          check_number-Sound _ minus_one max_logins_to (λ n h. h),
          (check_description-Sound, (check_group_comment-Sound, tt)),
        ),
      ),
    ),
  ),
)

find_group_setting-Sound :
    (name : Str) (defs : List GroupSetting)
    → AllSound defs
    → (def : GroupSetting) → find_group_setting name defs ≡ some def
    → Sound def.check
unfolding find_group_setting
find_group_setting-Sound name [] h def e = cc e
find_group_setting-Sound name (d ∷ defs) (k, h) def e = elim (Bool-cases (str_eq d.name name)) [
  | inl f ↦
      let same : d ≡ def = ground (arith, f, e) in
      subst (λ (x : GroupSetting). Sound x.check) same k
  | inr f ↦ find_group_setting-Sound name defs h def (ground (arith, f, e))
]

check_group-InBounds : Sound check_group
unfolding check_group
check_group-InBounds w r c e =
    elim (Option-cases (find_group_setting (w.to_lower r.setting) group_settings)) [
      | inl f ↦ absurd (ground (arith, e, f))
      | inr (def, f) ↦
          find_group_setting-Sound (w.to_lower r.setting) group_settings group_settings-AllSound def
            f w (record r { setting = w.to_lower r.setting }) c (ground (arith, e, f))
    ]

execute_group-AllKeep :
    (w : Server) (saves : ℤ → Bool) (gids : List ℤ) (r : Request) (groups : Groups)
    → AllBounded groups
    → AllKeep groups (execute_group w saves gids r groups)
unfolding execute_group
execute_group-AllKeep w saves gids r groups b = elim (Option-cases (check_group w r)) [
  | inl e ↦ rw (e, execute_group) (same-AllKeep groups b)
  | inr (c, e) ↦
      rw (e, execute_group)
        (change_groups-AllKeep saves c gids groups (check_group-InBounds w r c e) b)
]

-- From a database whose groups have their numbers in bounds, SITE GRPCHANGE leads to one whose
-- groups do, whatever its arguments and whichever writes are lost, after which the loop goes on;
-- and no group has another comment than before, whichever setting was given.
pub execute_group-AllBounded :
    (w : Server) (saves : ℤ → Bool) (gids : List ℤ) (r : Request) (groups : Groups)
    → AllBounded groups
    → AllBounded (execute_group w saves gids r groups)
      × SameComments groups (execute_group w saves gids r groups)
execute_group-AllBounded w saves gids r groups b =
    let now = execute_group w saves gids r groups in
    let k = execute_group-AllKeep w saves gids r groups b in
    (AllKeep-AllBounded groups now k, AllKeep-SameComments groups now k)
