-- ===== src/Acl/Rules/Laws.antt =====
-- What the rules of src/acl/acl.cpp and permission.cpp decide.
use ebftpd.Prelude.{
  ℕ, ◌≡◌, ◌≢◌, ◌↔◌, ◌⊎◌, refl, subst, inl, inr, Bool, true, false, not, none, some, List, [], ◌∷◌,
  Str, In, str_eq, str_eq_refl, str_eq_sound, has_char, has_any, has_char_sound, has_char_complete,
  has_any_sound, has_any_complete, Bool-cases, if◌then◌else◌, arith,
}
use ebftpd.Acl.Rules.{
  Permission, flag_permission, user_permission, group_permission, AclInfo, Acl, permission_evaluate,
  first_result, evaluate, fresh, from_string_arg,
}

-- Whom a permission names.
abbrev pub Matches : AclInfo → Permission → Type 0
Matches info (flag_permission flags negate) =
    In b'*' flags ⊎ ((c : ℕ) × In c info.flags × In c flags)
Matches info (user_permission name negate) = info.username ≡ name
Matches info (group_permission name negate) = info.groupname ≡ name

abbrev pub is_negated : Permission → Bool
is_negated (flag_permission flags negate) = negate
is_negated (user_permission name negate) = negate
is_negated (group_permission name negate) = negate

-- The verdict of a list of permissions: that of the first which names the user.
pub data Decides (info : AclInfo) : List Permission → Bool → Type 0 where
  nobody : {b : Bool} → b ≡ false → Decides info [] b
  hit :
      {b : Bool} (p : Permission) (ps : List Permission)
      → Matches info p
      → b ≡ not (is_negated p)
      → Decides info (p ∷ ps) b
  skip :
      {b : Bool} (p : Permission) (ps : List Permission)
      → ¬ Matches info p
      → Decides info ps b
      → Decides info (p ∷ ps) b

abbrev Verdict : AclInfo → Permission → Type 0
Verdict info p =
    (Matches info p × (permission_evaluate p info ≡ some (not (is_negated p))))
    ⊎ ((¬ Matches info p) × (permission_evaluate p info ≡ none))

flag-Verdict :
    (info : AclInfo) (flags : Str) (negate : Bool) → Verdict info (flag_permission flags negate)
unfolding permission_evaluate
flag-Verdict info flags negate = elim (Bool-cases (has_char b'*' flags)) [
  | inl star ↦ inl (inl (has_char_sound b'*' flags star), rw star)
  | inr plain ↦ elim (Bool-cases (has_any flags info.flags)) [
    | inl shared ↦ inl (inr (has_any_sound flags info.flags shared), rw (plain, shared))
    | inr apart ↦ inr (unnamed plain apart, rw (plain, apart))
  ]
]
  where
    unnamed :
        has_char b'*' flags ≡ false
        → has_any flags info.flags ≡ false
        → ¬ Matches info (flag_permission flags negate)
    unnamed plain apart (inl star) = cc (has_char_complete b'*' flags star)
    unnamed plain apart (inr (c, h, k)) = cc (has_any_complete flags info.flags c h k)

permission-Verdict : (info : AclInfo) (p : Permission) → Verdict info p
unfolding permission_evaluate
permission-Verdict info (flag_permission flags negate) = flag-Verdict info flags negate
permission-Verdict info (user_permission name negate) =
    elim (Bool-cases (str_eq info.username name)) [
      | inl same ↦ inl (str_eq_sound info.username name same, rw same)
      | inr other ↦ inr (λ e. cc (str_eq_refl name), rw other)
    ]
permission-Verdict info (group_permission name negate) =
    elim (Bool-cases (str_eq info.groupname name)) [
      | inl same ↦ inl (str_eq_sound info.groupname name same, rw same)
      | inr other ↦ inr (λ e. cc (str_eq_refl name), rw other)
    ]

first_result-Decides :
    (info : AclInfo) (ps : List Permission) → Decides info ps (first_result ps info)
unfolding first_result
first_result-Decides info [] = Decides.nobody refl
first_result-Decides info (p ∷ ps) = elim (permission-Verdict info p) [
  | inl (named, e) ↦ Decides.hit p ps named (rw (e, first_result))
  | inr (other, e) ↦ rw (e, first_result) (Decides.skip p ps other (first_result-Decides info ps))
]

Decides-unique :
    {info : AclInfo} {ps : List Permission} {a b : Bool}
    → Decides info ps a
    → Decides info ps b
    → a ≡ b
Decides-unique (Decides.nobody e) (Decides.nobody f) = cc
Decides-unique (Decides.hit p ps m e) (Decides.hit _ _ n f) = cc
Decides-unique (Decides.hit p ps m e) (Decides.skip _ _ n d) = absurd (n m)
Decides-unique (Decides.skip p ps n d) (Decides.hit _ _ m f) = absurd (n m)
Decides-unique (Decides.skip p ps n d) (Decides.skip _ _ _ d') = Decides-unique d d'

-- The first evaluation of a rule list returns b exactly when b is the verdict of the first
-- permission that names the user (by "*", a shared flag, the user name or the primary group),
-- negated where the permission is, or false where none names the user.
pub evaluate-fresh_iff :
    (ps : List Permission) (info : AclInfo) (b : Bool)
    → ((evaluate (fresh ps) info).0 ≡ b) ↔ Decides info ps b
unfolding evaluate fresh
evaluate-fresh_iff ps info b = (
  λ e. subst (Decides info ps) e (first_result-Decides info ps),
  λ d. Decides-unique (first_result-Decides info ps) d,
)

-- A rule list that was evaluated once gives every later user the first user's verdict, and does
-- not change any more.
pub evaluate_twice :
    (acl : Acl) (first later : AclInfo)
    → evaluate (evaluate acl first).1 later ≡ ((evaluate acl first).0, (evaluate acl first).1)
unfolding evaluate
evaluate_twice acl first later = ground arith

-- The text of a permission, as it stands in a configuration.
abbrev pub body_text : Permission → Str
body_text (flag_permission flags negate) = flags
body_text (user_permission name negate) = b'-' ∷ name
body_text (group_permission name negate) = b'=' ∷ name

abbrev pub permission_text : Permission → Str
permission_text p = if is_negated p then b'!' ∷ body_text p else body_text p

-- Flags that read as flags: they begin with none of the three marks.
abbrev pub IsPlain : Permission → Type 0
IsPlain (flag_permission [] negate) = Unit
IsPlain (flag_permission (c ∷ cs) negate) = (c ≢ b'!') × (c ≢ b'-') × (c ≢ b'=')
IsPlain _ = Unit

-- Parsing the text of a permission gives the permission back, if its flags begin with none of the
-- marks "!", "-" and "=".
pub from_string_arg-permission_text :
    (p : Permission) → IsPlain p → from_string_arg (permission_text p) ≡ p
unfolding from_string_arg
from_string_arg-permission_text (flag_permission [] true) h = refl
from_string_arg-permission_text (flag_permission [] false) h = refl
from_string_arg-permission_text (flag_permission (c ∷ cs) true) h = ground arith
from_string_arg-permission_text (flag_permission (c ∷ cs) false) h = ground arith
from_string_arg-permission_text (user_permission name true) h = refl
from_string_arg-permission_text (user_permission name false) h = refl
from_string_arg-permission_text (group_permission name true) h = refl
from_string_arg-permission_text (group_permission name false) h = refl
