-- ===== src/Cmd/Change/Bounds.antt =====
-- What is known of a change that the checks of src/cmd/site/change.cpp let through.
use ebftpd.Acl.User.Flags.{deleted_flag, gadmin_flag}
use ebftpd.Prelude.{
  ◌≡◌, ◌⊎◌, refl, inl, inr, ℕ, Bool, true, false, not, Option, none, some, [], ◌∷◌, Str, has_char,
  ℤ, pos, minus_one, negsuc, ◌≤ℤ◌, ltb_ℤ, eq_ℤ, ◌==◌, ◌&&◌, if◌then◌else◌, Bool-cases, Option-cases,
  arith,
}
use ebftpd.Acl.Rules.{valid_flags}
use ebftpd.Cmd.Change.Values.{Server, Request, str_to_number, IsSize}
use ebftpd.Cmd.Change.Checks.{
  add_them, delete_them, set_them, Change, ratio_to, section_ratio_to, weekly_allotment_to,
  home_dir_to, start_up_dir_to, flags_by, idle_time_to, expires_to, num_logins_to, tagline_to,
  comment_to, max_up_speed_to, max_down_speed_to, max_sim_up_to, max_sim_down_to, Checked, checked,
  syntax_error, refused, permission_error, out_of_range, undefined, check_ratio, check_flags,
  check_count, flags_action, is_nil, as_gadmin,
}

-- The bounds of a change, by its kind.
abbrev pub Sane : Server → Str → Change → Type 0
Sane w v (ratio_to n) = ((pos 0 ≤ℤ n) × (n ≤ℤ w.maximum_ratio)) ⊎ (w.default_ratio ≡ some n)
Sane w v (section_ratio_to section n) =
    (w.is_section section ≡ true) × (pos 0 ≤ℤ n) × (n ≤ℤ w.maximum_ratio)
Sane w v (weekly_allotment_to section n) =
    IsSize w v n × ((section ≡ []) ⊎ (w.is_section section ≡ true))
Sane w v (home_dir_to path) = Unit
Sane w v (start_up_dir_to path) = Unit
Sane w v (flags_by action flags) =
    (valid_flags flags ≡ true)
    × (has_char deleted_flag flags ≡ false)
    × (has_char gadmin_flag flags ≡ false)
Sane w v (idle_time_to n) = minus_one ≤ℤ n
Sane w v (expires_to date) = Unit
Sane w v (num_logins_to n) = minus_one ≤ℤ n
Sane w v (tagline_to text) = w.valid_tagline text ≡ true
Sane w v (comment_to text) = Unit
Sane w v (max_up_speed_to n) = IsSize w v n
Sane w v (max_down_speed_to n) = IsSize w v n
Sane w v (max_sim_up_to n) = minus_one ≤ℤ n
Sane w v (max_sim_down_to n) = minus_one ≤ℤ n

-- A result that holds no change out of bounds.
unfoldable pub AllSane : Server → Str → Checked → Type 0
AllSane w v (checked gadmin change) = Sane w v change
AllSane w v result = Unit

pub wrong : (w : Server) (v : Str) → AllSane w v syntax_error
unfolding AllSane
wrong w v = tt

pub denied : (w : Server) (v : Str) → AllSane w v permission_error
unfolding AllSane
denied w v = tt

pub no : (w : Server) (v : Str) → AllSane w v refused
unfolding AllSane
no w v = tt

pub beyond : (w : Server) (v : Str) → AllSane w v out_of_range
unfolding AllSane
beyond w v = tt

pub lost : (w : Server) (v : Str) → AllSane w v undefined
unfolding AllSane
lost w v = tt

pub yes :
    (w : Server) (v : Str) (gadmin : Bool) (change : Change)
    → Sane w v change
    → AllSane w v (checked gadmin change)
unfolding AllSane
yes w v gadmin change h = h

pub AllSane-at :
    (w : Server) (v : Str) (gadmin : Bool) (change : Change)
    → AllSane w v (checked gadmin change)
    → Sane w v change
unfolding AllSane
AllSane-at w v gadmin change h = h

default-AllSane :
    (w : Server) (v : Str) (d : Option ℤ)
    → w.default_ratio ≡ d
    → AllSane w v (elim d [ none ↦ refused | some x ↦ checked (as_gadmin w) (ratio_to x) ])
default-AllSane w v none e = no w v
default-AllSane w v (some x) e = yes w v (as_gadmin w) (ratio_to x) (inr e)

above : (n : ℤ) → ltb_ℤ n minus_one ≡ false → eq_ℤ n minus_one ≡ false → pos 0 ≤ℤ n
unfolding eq_ℤ
above (pos n) f k = omega arith
above (negsuc n) f k = ground arith

pub check_ratio-AllSane : (w : Server) (v : Str) (r : Request) → AllSane w v (check_ratio w r)
unfolding check_ratio
check_ratio-AllSane w v r = elim (Option-cases (str_to_number w.stoi r.value)) [
  | inl e ↦ rw (e, check_ratio) (wrong w v)
  | inr (n, e) ↦ elim (Bool-cases (ltb_ℤ n minus_one)) [
    | inl f ↦ rw (e, check_ratio, f) (wrong w v)
    | inr f ↦ elim (Bool-cases (ltb_ℤ w.maximum_ratio n)) [
      | inl g ↦ rw (e, check_ratio, f, g) (no w v)
      | inr g ↦ elim (Bool-cases (eq_ℤ n minus_one)) [
        | inl k ↦ rw (e, check_ratio, f, g, k) (default-AllSane w v w.default_ratio refl)
        | inr k ↦ elim (Bool-cases (as_gadmin w && ltb_ℤ (pos 0) n)) [
          | inl l ↦ rw (e, check_ratio, f, g, k, l) (no w v)
          | inr l ↦
              rw (e, check_ratio, f, g, k, l)
                (yes w v (as_gadmin w) (ratio_to n) (inl (above n f k, ground (arith, g))))
        ]
      ]
    ]
  ]
]

pub check_count-AllSane :
    (change : ℤ → Change)
    → (w : Server) (v : Str) (r : Request) → ((n : ℤ) → minus_one ≤ℤ n → Sane w v (change n))
    → AllSane w v (check_count change w r)
check_count-AllSane change w v r h = elim (Option-cases (str_to_number w.stoi r.value)) [
  | inl e ↦ rw (e, check_count) (wrong w v)
  | inr (n, e) ↦ elim (Bool-cases (ltb_ℤ n minus_one)) [
    | inl f ↦ rw (e, check_count, f) (wrong w v)
    | inr f ↦ rw (e, check_count, f) (yes w v false (change n) (h n (ground (arith, f))))
  ]
]

flags_action-AllSane :
    (w : Server) (v : Str) (action : ℕ) (flags : Str)
    → valid_flags flags ≡ true
    → has_char deleted_flag flags ≡ false
    → has_char gadmin_flag flags ≡ false
    → AllSane w v (flags_action action flags)
flags_action-AllSane w v action flags ok d g = elim (Bool-cases (action == b'+')) [
  | inl e ↦ rw e (yes w v false (flags_by add_them flags) (ok, d, g))
  | inr e ↦ elim (Bool-cases (action == b'-')) [
    | inl f ↦ rw (e, f) (yes w v false (flags_by delete_them flags) (ok, d, g))
    | inr f ↦ elim (Bool-cases (action == b'=')) [
      | inl k ↦ rw (e, f, k) (yes w v false (flags_by set_them flags) (ok, d, g))
      | inr k ↦ rw (e, f, k) (wrong w v)
    ]
  ]
]

-- The tests of the flags, in the order of the source.
tested_flags-AllSane :
    (w : Server) (v : Str) (action : ℕ) (flags : Str)
    → AllSane w v (
        if is_nil flags
        then syntax_error
        else if not (valid_flags flags)
        then refused
        else if has_char deleted_flag flags
        then refused
        else if has_char gadmin_flag flags
        then refused
        else flags_action action flags)
tested_flags-AllSane w v action flags = elim (Bool-cases (is_nil flags)) [
  | inl e ↦ rw e (wrong w v)
  | inr e ↦ elim (Bool-cases (valid_flags flags)) [
    | inr ok ↦ rw (e, ok) (no w v)
    | inl ok ↦ elim (Bool-cases (has_char deleted_flag flags)) [
      | inl d ↦ rw (e, ok, d) (no w v)
      | inr d ↦ elim (Bool-cases (has_char gadmin_flag flags)) [
        | inl g ↦ rw (e, ok, d, g) (no w v)
        | inr g ↦ rw (e, ok, d, g) (flags_action-AllSane w v action flags ok d g)
      ]
    ]
  ]
]

pub check_flags-AllSane : (w : Server) (v : Str) (r : Request) → AllSane w v (check_flags w r)
unfolding check_flags
check_flags-AllSane w v r = of_value r.value
  where
    of_value : (s : Str) → AllSane w v (check_flags w (record r { value = s }))
    of_value [] = beyond w v
    of_value (action ∷ text) = tested_flags-AllSane w v action (w.to_upper text)
