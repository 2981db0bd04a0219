-- ===== src/Cmd/Change/Assertions.antt =====
-- The assertions that src/cmd/site/change.cpp reaches in the setters of src/acl/user.cpp.
use ebftpd.Prelude.{
  ◌≡◌, ◌≢◌, refl, inl, inr, ℕ, ◌+◌, Bool, true, false, not, none, some, List, [], ◌∷◌, Str, ℤ, pos,
  has_char, eq_ℤ, ◌&&◌, if◌then◌else◌, Bool-cases, Option-cases, arith,
}
use ebftpd.Acl.Rules.{valid_flags}
use ebftpd.Acl.User.Data.{
  UserData, Outcome, returned, unsaved, aborted, commit, set_home_dir, set_start_up_dir,
  set_idle_time, set_expires, set_num_logins, set_tagline, set_comment, set_max_up_speed,
  set_max_down_speed, set_max_sim_up, set_max_sim_down, set_section_ratio,
  set_section_weekly_allotment,
}
use ebftpd.Acl.User.Flags.{template_flag, add_flags, del_flags, set_flags}
use ebftpd.Cmd.Change.Values.{Accounts, Server, Request}
use ebftpd.Cmd.Change.Bounds.{Sane}
use ebftpd.Cmd.Change.Table.{check-Sane}
use ebftpd.Cmd.Change.Checks.{
  FlagAction, add_them, delete_them, set_them, Change, ratio_to, section_ratio_to,
  weekly_allotment_to, home_dir_to, start_up_dir_to, flags_by, idle_time_to, expires_to,
  num_logins_to, tagline_to, comment_to, max_up_speed_to, max_down_speed_to, max_sim_up_to,
  max_sim_down_to, Checked, checked, syntax_error, refused, permission_error, out_of_range,
  undefined, check,
}
use ebftpd.Cmd.Change.Apply.{
  keep_template, change_flags, Applied, apply_change, apply_flags, apply_ratio,
  apply_weekly_allotment, store, Ending, changed, no_such_user, no_permission, assertion,
  change_all, execute_checked, all_administered, execute,
}

abbrev Fine : Outcome UserData → Type 0
Fine o = o ≢ aborted

commit-Fine : (saved : Bool) (new : UserData) → Fine (commit saved new)
unfolding commit
commit-Fine saved new e = ground arith

add_flags-Fine :
    (saved : Bool) (u : UserData) (flags : Str)
    → valid_flags flags ≡ true
    → Fine (add_flags saved u flags)
unfolding add_flags commit
add_flags-Fine saved u flags v e = ground (arith, v, e)

set_flags-Fine :
    (saved : Bool) (u : UserData) (flags : Str)
    → valid_flags flags ≡ true
    → Fine (set_flags saved u flags)
unfolding set_flags commit
set_flags-Fine saved u flags v e = ground (arith, v, e)

template_valid : valid_flags (template_flag ∷ []) ≡ true
unfolding valid_flags has_char
template_valid = refl

keep_template-Fine : (saved : Bool) (o : Outcome UserData) → Fine o → Fine (keep_template saved o)
unfolding keep_template
keep_template-Fine saved (unsaved u) h = elim (Bool-cases (eq_ℤ u.id (pos 1))) [
  | inl e ↦ rw (e, keep_template) (add_flags-Fine saved u (template_flag ∷ []) template_valid)
  | inr e ↦ rw (e, keep_template) h
]
keep_template-Fine saved aborted h = h
keep_template-Fine saved (returned u) h = elim (Bool-cases (eq_ℤ u.id (pos 1))) [
  | inl f ↦ rw (f, keep_template) (add_flags-Fine saved u (template_flag ∷ []) template_valid)
  | inr f ↦ rw (f, keep_template) (λ e. cc e)
]

change_flags-Fine :
    (saves : Bool × Bool) (action : FlagAction) (flags : Str) (u : UserData)
    → valid_flags flags ≡ true
    → Fine (change_flags saves action flags u)
unfolding change_flags del_flags
change_flags-Fine saves add_them flags u v = add_flags-Fine saves.0 u flags v
change_flags-Fine saves delete_them flags u v =
    keep_template-Fine saves.1 (del_flags saves.0 u flags) (commit-Fine saves.0 _)
change_flags-Fine saves set_them flags u v =
    keep_template-Fine saves.1 (set_flags saves.0 u flags) (set_flags-Fine saves.0 u flags v)

-- The call of the setter does not fail an assertion.
abbrev Passes : Applied → Type 0
Passes o = o ≢ some aborted

passes : (o : Outcome UserData) → Fine o → Passes (some o)
passes o h e = h (ground arith)

guarded-Passes : (b : Bool) (o : Outcome UserData) → Fine o → Passes (if b then none else some o)
guarded-Passes true o h = λ e. cc e
guarded-Passes false o h = passes o h

apply_change-Passes :
    (w : Server) (text : Str) (gadmin : Bool) (change : Change) (accounts : Accounts) (u : UserData)
    → Sane w text change
    → Passes (apply_change w gadmin change accounts u)
unfolding apply_change apply_ratio apply_weekly_allotment apply_flags set_home_dir set_start_up_dir
    set_idle_time set_expires set_num_logins set_tagline set_comment set_max_up_speed
    set_max_down_speed set_max_sim_up set_max_sim_down set_section_ratio
    set_section_weekly_allotment
apply_change-Passes w text gadmin (ratio_to n) accounts u h =
    guarded-Passes _ _ (commit-Fine (w.saves u.id).0 _)
apply_change-Passes w text gadmin (section_ratio_to s n) accounts u h =
    passes _ (commit-Fine (w.saves u.id).0 _)
apply_change-Passes w text gadmin (weekly_allotment_to s n) accounts u h =
    guarded-Passes _ _ (commit-Fine (w.saves u.id).0 _)
apply_change-Passes w text gadmin (home_dir_to s) accounts u h =
    passes _ (commit-Fine (w.saves u.id).0 _)
apply_change-Passes w text gadmin (start_up_dir_to s) accounts u h =
    passes _ (commit-Fine (w.saves u.id).0 _)
apply_change-Passes w text gadmin (flags_by action flags) accounts u (v, d, g) =
    guarded-Passes _ _ (change_flags-Fine (w.saves u.id) action flags u v)
apply_change-Passes w text gadmin (idle_time_to n) accounts u h =
    passes _ (commit-Fine (w.saves u.id).0 _)
apply_change-Passes w text gadmin (expires_to d) accounts u h =
    passes _ (commit-Fine (w.saves u.id).0 _)
apply_change-Passes w text gadmin (num_logins_to n) accounts u h =
    passes _ (commit-Fine (w.saves u.id).0 _)
apply_change-Passes w text gadmin (tagline_to s) accounts u h =
    passes _ (commit-Fine (w.saves u.id).0 _)
apply_change-Passes w text gadmin (comment_to s) accounts u h =
    passes _ (commit-Fine (w.saves u.id).0 _)
apply_change-Passes w text gadmin (max_up_speed_to n) accounts u h =
    passes _ (commit-Fine (w.saves u.id).0 _)
apply_change-Passes w text gadmin (max_down_speed_to n) accounts u h =
    passes _ (commit-Fine (w.saves u.id).0 _)
apply_change-Passes w text gadmin (max_sim_up_to n) accounts u h =
    passes _ (commit-Fine (w.saves u.id).0 _)
apply_change-Passes w text gadmin (max_sim_down_to n) accounts u h =
    passes _ (commit-Fine (w.saves u.id).0 _)

change_all-ne-assertion :
    (w : Server) (text : Str) (gadmin : Bool) (change : Change) (uids : List ℤ) (n : ℕ)
    (accounts : Accounts)
    → Sane w text change
    → (change_all w gadmin change uids n accounts).0 ≢ assertion
unfolding change_all
change_all-ne-assertion w text gadmin change [] n accounts h = λ e. cc e
change_all-ne-assertion w text gadmin change (x ∷ xs) n accounts h =
    elim (Option-cases (accounts x)) [
      | inl f ↦ rw (f, change_all) (change_all-ne-assertion w text gadmin change xs n accounts h)
      | inr (u, f) ↦
          rw (f, change_all)
            (applied (apply_change w gadmin change accounts u)
              (apply_change-Passes w text gadmin change accounts u h)
              (λ m b. change_all-ne-assertion w text gadmin change xs m b h))
    ]
  where
    applied :
        (o : Applied)
        → Passes o
        → ((m : ℕ) (b : Accounts) → (change_all w gadmin change xs m b).0 ≢ assertion)
        → (elim o as (λ (y : Applied). Ending × Accounts) [
          | none ↦ (changed n, accounts)
          | some (returned v) ↦ change_all w gadmin change xs (n + 1) (store accounts x v)
          | some (unsaved v) ↦ change_all w gadmin change xs (n + 1) accounts
          | some aborted ↦ (assertion, accounts)
        ]).0
          ≢ assertion
    applied none k ih = λ e. cc e
    applied (some (returned v)) k ih = ih (n + 1) (store accounts x v)
    applied (some (unsaved v)) k ih = ih (n + 1) accounts
    applied (some aborted) k ih = λ e. k refl

-- SITE CHANGE fails no assertion of the setters that it calls, whatever its arguments and however
-- the writes end.
pub execute-ne-assertion :
    (w : Server) (r : Request) (accounts : Accounts) → (execute w r accounts).0 ≢ assertion
unfolding execute execute_checked
execute-ne-assertion w r accounts = of_check (check w r) refl
  where
    of_uids :
        (gadmin : Bool) (change : Change) (uids : List ℤ)
        → Sane w r.value change
        → (elim uids as (λ (y : List ℤ). Ending × Accounts) [
          | [] ↦ (no_such_user, accounts)
          | x ∷ xs ↦
              if gadmin && not (all_administered w accounts (x ∷ xs))
              then (no_permission, accounts)
              else change_all w gadmin change (x ∷ xs) 0 accounts
        ]).0
          ≢ assertion
    of_uids gadmin change [] h = λ e. cc e
    of_uids gadmin change (x ∷ xs) h =
        elim (Bool-cases (gadmin && not (all_administered w accounts (x ∷ xs)))) [
          | inl b ↦ rw b (λ e. cc e)
          | inr b ↦ rw b (change_all-ne-assertion w r.value gadmin change (x ∷ xs) 0 accounts h)
        ]

    of_check : (c : Checked) → check w r ≡ c → (execute_checked w r accounts c).0 ≢ assertion
    of_check syntax_error e = λ k. cc k
    of_check refused e = λ k. cc k
    of_check permission_error e = λ k. cc k
    of_check out_of_range e = λ k. cc k
    of_check undefined e = λ k. cc k
    of_check (checked gadmin change) e =
        of_uids gadmin change (w.get_uids r.user_mask) (check-Sane w r gadmin change e)
