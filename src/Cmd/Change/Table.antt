-- ===== src/Cmd/Change/Table.antt =====
-- Check of src/cmd/site/change.cpp: whatever the setting, the change is within its bounds.
use ebftpd.Prelude.{
  ◌≡◌, inl, inr, ◌+◌, Bool, not, some, List, [], ◌∷◌, Str, str_eq, length, pos, minus_one, subst,
  ◌+ℤ◌, ltb_ℤ, eq_ℤ, ◌&&◌, Bool-cases, Option-cases, arith,
}
use ebftpd.Cmd.Change.Bounds.{
  Sane, AllSane, AllSane-at, wrong, denied, check_ratio-AllSane, check_flags-AllSane,
  check_count-AllSane,
}
use ebftpd.Cmd.Change.Fields.{
  check_section_ratio-AllSane, check_weekly_allotment-AllSane, check_home_dir-AllSane,
  check_start_up_dir-AllSane, check_expires-AllSane, check_tagline-AllSane, check_comment-AllSane,
  check_speed-AllSane,
}
use ebftpd.Cmd.Change.Values.{Server, Request, allow_site_cmd}
use ebftpd.Cmd.Change.Checks.{
  Change, idle_time_to, num_logins_to, max_up_speed_to, max_down_speed_to, max_sim_up_to,
  max_sim_down_to, checked, check, SettingDef, settings, find_setting,
}

-- Every row of the table checks soundly.
abbrev Sound : SettingDef → Type 0
Sound def = (w : Server) (r : Request) → AllSane w r.value (def.check w r)

abbrev AllSound : List SettingDef → Type 0
AllSound [] = Unit
AllSound (def ∷ defs) = Sound def × AllSound defs

settings-AllSound : AllSound settings
settings-AllSound = (
  (λ w r. check_ratio-AllSane w r.value r),
  (
    (λ w r. check_section_ratio-AllSane w r.value r),
    (
      check_weekly_allotment-AllSane,
      (
        (λ w r. check_home_dir-AllSane w r.value r),
        (
          (λ w r. check_start_up_dir-AllSane w r.value r),
          (
            (λ w r. check_flags-AllSane w r.value r),
            (
              (λ w r. check_count-AllSane idle_time_to w r.value r (λ n h. h)),
              (
                (λ w r. check_expires-AllSane w r.value r),
                (
                  (λ w r. check_count-AllSane num_logins_to w r.value r (λ n h. h)),
                  (
                    (λ w r. check_tagline-AllSane w r.value r),
                    (
                      (λ w r. check_comment-AllSane w r.value r),
                      (
                        (λ w r. check_speed-AllSane max_up_speed_to w r (λ n h. h)),
                        (
                          (λ w r. check_speed-AllSane max_down_speed_to w r (λ n h. h)),
                          (
                            (λ w r. check_count-AllSane max_sim_up_to w r.value r (λ n h. h)),
                            (
                              (λ w r. check_count-AllSane max_sim_down_to w r.value r (λ n h. h)),
                              tt,
                            ),
                          ),
                        ),
                      ),
                    ),
                  ),
                ),
              ),
            ),
          ),
        ),
      ),
    ),
  ),
)

find_setting-Sound :
    (name : Str) (defs : List SettingDef)
    → AllSound defs
    → (def : SettingDef) → find_setting name defs ≡ some def
    → Sound def
unfolding find_setting
find_setting-Sound name [] h def e = cc e
find_setting-Sound name (d ∷ defs) (k, h) def e = elim (Bool-cases (str_eq d.name name)) [
  | inl f ↦ let same : d ≡ def = ground (arith, f, e) in subst Sound same k
  | inr f ↦ find_setting-Sound name defs h def (ground (arith, f, e))
]

check-AllSane : (w : Server) (r : Request) → AllSane w r.value (check w r)
unfolding check
check-AllSane w r = elim (Option-cases (find_setting (w.to_lower r.setting) settings)) [
  | inl e ↦ rw (e, check) (wrong w r.value)
  | inr (def, e) ↦ elim (Bool-cases (allow_site_cmd w def.acl_keyword)) [
    | inr a ↦ rw (e, check, a) (denied w r.value)
    | inl a ↦
        elim (Bool-cases (
          not (eq_ℤ def.maximum_args minus_one)
          && ltb_ℤ (def.maximum_args +ℤ pos 3) (pos (4 + length r.more)))) [
            | inl k ↦ rw (e, check, a, k) (wrong w r.value)
            | inr k ↦
                rw (e, check, a, k)
                  (find_setting-Sound (w.to_lower r.setting) settings settings-AllSound def e w
                    (record r { setting = w.to_lower r.setting }))
          ]
  ]
]

-- A change that the checks let through is within its bounds: a ratio is at least 0 and at most the
-- configured maximum, or is the default user's; a section exists; a size or speed is not negative,
-- or was read of the value, whose number is 2 ^ 43 or more, which ParseSize may overflow; counts and
-- times are not below -1; flags are known, and neither the one of deleted users nor the one
-- of group administrators is among them.
pub check-Sane :
    (w : Server) (r : Request) (gadmin : Bool) (change : Change)
    → check w r ≡ checked gadmin change
    → Sane w r.value change
check-Sane w r gadmin change e =
    AllSane-at w r.value gadmin change (subst (AllSane w r.value) e (check-AllSane w r))
