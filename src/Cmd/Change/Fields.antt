-- ===== src/Cmd/Change/Fields.antt =====
-- The checks of src/cmd/site/change.cpp that read sizes, dates, sections and texts.
use ebftpd.Prelude.{
  ◌≡◌, ◌⊎◌, refl, inl, inr, ℕ, true, false, Option, none, some, List, [], ◌∷◌, Str, codes, str_eq,
  ℤ, pos, ◌≤ℤ◌, ltb_ℤ, negsuc, ap, ltb, ◌<◌, ◌%◌, ◌^◌, ◌*◌, if◌then◌else◌, Bool-cases, Option-cases,
  arith,
}
use ebftpd.Cmd.Change.Bounds.{Sane, AllSane, wrong, no, beyond, lost, yes}
use ebftpd.Cmd.Change.Values.{
  Server, Request, str_to_number, parse_size, scale, scale_read, size_parts, wrapped, IsSize,
}
use ebftpd.Cmd.Change.Checks.{
  Change, section_ratio_to, weekly_allotment_to, home_dir_to, start_up_dir_to, expires_to,
  tagline_to, comment_to, Checked, checked, syntax_error, refused, undefined, check_section_ratio,
  check_weekly_allotment, check_home_dir, check_start_up_dir, check_expires, check_tagline,
  check_comment, check_speed, rest_of_line, with_rest, as_gadmin, the_only, check_allotment,
}

wrapped_small : (n : ℕ) → n < 2 ^ 63 → wrapped n ≡ pos n
unfolding wrapped
wrapped_small n h =
    let same : n % 2 ^ 64 ≡ n = omega (arith, h) in
    let small : ltb (n % 2 ^ 64) (2 ^ 63) ≡ true = ground (arith, same, h) in
    rw (small, wrapped) (ap pos same)

scale_bound : (unit : Str) (k : ℕ) (n : ℤ) → k < 2 ^ 43 → scale unit (pos k) ≡ some n → pos 0 ≤ℤ n
unfolding scale
scale_bound unit k n h e = ground (
  arith,
  e,
  wrapped_small (k * 1024) (omega (arith, h)),
  wrapped_small (k * (1024 * 1024)) (omega (arith, h)),
)

parsed-IsSize :
    (w : Server) (s unit digits : Str) (v : Option ℤ) (n : ℤ)
    → size_parts w s ≡ some (unit, digits)
    → str_to_number w.stoll digits ≡ v
    → parse_size w s ≡ some n
    → scale_read unit v ≡ some n
    → IsSize w s n
parsed-IsSize w s unit digits none n e f g h = cc h
parsed-IsSize w s unit digits (some (negsuc k)) n e f g h =
    let bad : scale unit (negsuc k) ≡ none = unfold scale in refl in cc (h, bad)
parsed-IsSize w s unit digits (some (pos k)) n e f g h = elim (Bool-cases (ltb k (2 ^ 43))) [
  | inl l ↦ inl (scale_bound unit k n (ground (arith, l)) h)
  | inr l ↦ inr (unit, digits, k, e, f, ground (arith, l), g)
]

pub parse_size-IsSize : (w : Server) (s : Str) (n : ℤ) → parse_size w s ≡ some n → IsSize w s n
unfolding parse_size
parse_size-IsSize w s n g = elim (Option-cases (size_parts w s)) [
  | inl e ↦ cc (rw (parse_size, e) at g)
  | inr ((unit, digits), e) ↦
      parsed-IsSize w s unit digits (str_to_number w.stoll digits) n e refl g
        (rw (parse_size, e) at g)
]

pub check_speed-AllSane :
    (change : ℤ → Change) (w : Server) (r : Request)
    → ((n : ℤ) → IsSize w r.value n → Sane w r.value (change n))
    → AllSane w r.value (check_speed change w r)
check_speed-AllSane change w r h = elim (Option-cases (parse_size w r.value)) [
  | inl e ↦ rw (e, check_speed) (wrong w r.value)
  | inr (n, e) ↦
      rw (e, check_speed) (yes w r.value false (change n) (h n (parse_size-IsSize w r.value n e)))
]

pub check_expires-AllSane : (w : Server) (v : Str) (r : Request) → AllSane w v (check_expires w r)
unfolding check_expires
check_expires-AllSane w v r = elim (Bool-cases (str_eq (w.to_lower r.value) (codes "never"))) [
  | inl e ↦ rw (e, check_expires) (yes w v false (expires_to none) tt)
  | inr e ↦ elim (Option-cases (w.from_simple_string (w.replace_slashes (w.to_lower r.value)))) [
    | inl f ↦ rw (e, check_expires, f) (no w v)
    | inr (d, f) ↦ rw (e, check_expires, f) (yes w v false (expires_to (some d)) tt)
  ]
]

with_rest-AllSane :
    (test : Str → Checked) (w : Server) (v : Str) (r : Request)
    → ((s : Str) → AllSane w v (test s))
    → AllSane w v (with_rest test r)
with_rest-AllSane test w v r h = elim (Option-cases (rest_of_line r)) [
  | inl e ↦ rw (e, with_rest) (beyond w v)
  | inr (s, e) ↦ rw (e, with_rest) (h s)
]

pub check_tagline-AllSane : (w : Server) (v : Str) (r : Request) → AllSane w v (check_tagline w r)
unfolding check_tagline
check_tagline-AllSane w v r = with_rest-AllSane _ w v r (λ s.
    elim (Bool-cases (w.valid_tagline s)) [
      | inl e ↦ rw e (yes w v false (tagline_to s) e)
      | inr e ↦ rw e (no w v)
    ])

-- The section ratio, once the section is known.
section_value-AllSane :
    (w : Server) (v : Str) (section : Str) (more : List Str)
    → w.is_section section ≡ true
    → AllSane w v (elim more [
      | [] ↦ undefined
      | value ∷ _ ↦ elim (str_to_number w.stoi value) [
        | none ↦ syntax_error
        | some ratio ↦
            if ltb_ℤ ratio (pos 0)
            then syntax_error
            else if ltb_ℤ w.maximum_ratio ratio
            then refused
            else checked false (section_ratio_to section ratio)
      ]
    ])
section_value-AllSane w v section [] k = lost w v
section_value-AllSane w v section (value ∷ rest) k =
    elim (Option-cases (str_to_number w.stoi value)) [
      | inl e ↦ rw e (wrong w v)
      | inr (n, e) ↦ elim (Bool-cases (ltb_ℤ n (pos 0))) [
        | inl f ↦ rw (e, f) (wrong w v)
        | inr f ↦ elim (Bool-cases (ltb_ℤ w.maximum_ratio n)) [
          | inl g ↦ rw (e, f, g) (no w v)
          | inr g ↦
              rw (e, f, g)
                (yes w v false (section_ratio_to section n)
                  (k, ground (arith, f), ground (arith, g)))
        ]
      ]
    ]

pub check_section_ratio-AllSane :
    (w : Server) (v : Str) (r : Request) → AllSane w v (check_section_ratio w r)
unfolding check_section_ratio
check_section_ratio-AllSane w v r = elim (Bool-cases (w.is_section (w.to_upper r.value))) [
  | inr e ↦ rw (e, check_section_ratio) (no w v)
  | inl e ↦ rw (e, check_section_ratio) (section_value-AllSane w v (w.to_upper r.value) r.more e)
]

allotment-AllSane :
    (w : Server) (section value : Str)
    → ((section ≡ []) ⊎ (w.is_section section ≡ true))
    → AllSane w value (check_allotment w section value)
allotment-AllSane w section value k = elim (Option-cases (parse_size w value)) [
  | inl e ↦ rw (e, check_allotment) (wrong w value)
  | inr (n, e) ↦
      rw (e, check_allotment)
        (yes w value (as_gadmin w) (weekly_allotment_to section n)
          (parse_size-IsSize w value n e, k))
]

pub check_weekly_allotment-AllSane :
    (w : Server) (r : Request) → AllSane w r.value (check_weekly_allotment w r)
unfolding check_weekly_allotment
check_weekly_allotment-AllSane w r = elim (Option-cases (the_only r.more)) [
  | inl e ↦ rw (e, check_weekly_allotment) (allotment-AllSane w [] r.value (inl refl))
  | inr (a, e) ↦ elim (Bool-cases (w.is_section (w.to_upper a))) [
    | inr f ↦ rw (e, check_weekly_allotment, f) (no w r.value)
    | inl f ↦ rw (e, check_weekly_allotment, f) (allotment-AllSane w (w.to_upper a) r.value (inr f))
  ]
]

pub check_home_dir-AllSane : (w : Server) (v : Str) (r : Request) → AllSane w v (check_home_dir w r)
unfolding check_home_dir
check_home_dir-AllSane w v r =
    with_rest-AllSane _ w v r (λ s. yes w v false (home_dir_to (w.path_from_user s)) tt)

pub check_start_up_dir-AllSane :
    (w : Server) (v : Str) (r : Request) → AllSane w v (check_start_up_dir w r)
unfolding check_start_up_dir
check_start_up_dir-AllSane w v r =
    with_rest-AllSane _ w v r (λ s. yes w v false (start_up_dir_to (w.path_from_user s)) tt)

pub check_comment-AllSane : (w : Server) (v : Str) (r : Request) → AllSane w v (check_comment w r)
unfolding check_comment
check_comment-AllSane w v r = with_rest-AllSane _ w v r (λ s. yes w v false (comment_to s) tt)
