-- ===== src/Acl/Access/Rights.antt =====
-- The rights of the configuration, evaluated by the loop of src/acl/path.cpp.
use ebftpd.Prelude.{
  ◌≡◌, ◌↔◌, ◌⊎◌, refl, ap, subst, ◌∙◌, inl, inr, Bool, true, false, List, [], ◌∷◌, Str, eq_ℤ,
  minus_one, Bool-cases, if◌then◌else◌,
}
use ebftpd.Acl.Rules.{evaluate}
use ebftpd.Acl.Rules.Laws.{evaluate_twice}
use ebftpd.Acl.User.Data.{UserData}
use ebftpd.Acl.Config.{Right}
use ebftpd.Acl.Access.{Site, matches, acl_info, group_of, special_path, evaluate_loop}

module _ (site : Site) (user : UserData) where
  -- The group that the user's special paths name: none without a primary group.
  abbrev pub own_group : Str
  own_group = if eq_ℤ user.primary_gid minus_one then [] else site.gid_to_name user.primary_gid

  -- The pattern of a right for the user.
  abbrev pub pattern_of : Right → Str
  pattern_of r = if r.special_var then special_path site r user own_group else r.path

  -- The verdict of the first right whose pattern matches.
  pub data Governs (path : Str) : List Right → Bool → Type 0 where
    unmatched : {b : Bool} → b ≡ false → Governs path [] b
    hit :
        {b : Bool} (r : Right) (rs : List Right)
        → matches site (pattern_of r) path ≡ true
        → b ≡ (evaluate r.acl (acl_info site user)).0
        → Governs path (r ∷ rs) b
    skip :
        {b : Bool} (r : Right) (rs : List Right)
        → matches site (pattern_of r) path ≡ false
        → Governs path rs b
        → Governs path (r ∷ rs) b

  -- What the loop knows of the group: nothing before the first special right, and then all.
  abbrev Knows : Bool → Str → Type 0
  Knows first group = ((first ≡ true) × (group ≡ [])) ⊎ ((first ≡ false) × (group ≡ own_group))

  learn :
      (first : Bool) (group : Str) → Knows first group → group_of site first group user ≡ own_group
  learn first group (inl (e, f)) = rw (e, f)
  learn first group (inr (e, f)) = rw (e, f)

  -- One right of the loop, once it is known which pattern it has.
  loop_step :
      (path : Str) (first : Bool) (group : Str) (r : Right) (rs : List Right)
      → Knows first group
      → (evaluate_loop site first group (r ∷ rs) user path).0 ≡ (
          if matches site (pattern_of r) path
          then (evaluate r.acl (acl_info site user)).0
          else (evaluate_loop site
              (if r.special_var then false else first)
              (if r.special_var then own_group else group)
              rs
              user
              path).0)
  unfolding evaluate_loop
  loop_step path first group r rs k = elim (Bool-cases r.special_var) [
    | inl e ↦ elim (Bool-cases (matches site (special_path site r user own_group) path)) [
      | inl m ↦ rw (e, learn first group k, m, evaluate_loop)
      | inr m ↦ rw (e, learn first group k, m, evaluate_loop)
    ]
    | inr e ↦ elim (Bool-cases (matches site r.path path)) [
      | inl m ↦ rw (e, m, evaluate_loop)
      | inr m ↦ rw (e, m, evaluate_loop)
    ]
  ]

  loop-Governs :
      (path : Str) (first : Bool) (group : Str) (rs : List Right)
      → Knows first group
      → Governs path rs (evaluate_loop site first group rs user path).0
  loop-Governs path first group [] k = unfold evaluate_loop in unmatched refl
  loop-Governs path first group (r ∷ rs) k = elim (Bool-cases (matches site (pattern_of r) path)) [
    | inl m ↦ rw (loop_step path first group r rs k, m) (hit r rs m refl)
    | inr m ↦
        rw (loop_step path first group r rs k, m)
          (skip r rs m (
            loop-Governs path (if r.special_var then false else first)
              (if r.special_var then own_group else group) rs (knows_on r.special_var k)))
  ]
    where
      knows_on :
          (b : Bool)
          → Knows first group
          → Knows (if b then false else first) (if b then own_group else group)
      knows_on true k = inr (refl, refl)
      knows_on false k = k

  Governs-unique :
      {path : Str} {rs : List Right} {a b : Bool} → Governs path rs a → Governs path rs b → a ≡ b
  Governs-unique (unmatched e) (unmatched f) = cc
  Governs-unique (hit r rs m e) (hit _ _ n f) = cc
  Governs-unique (hit r rs m e) (skip _ _ n d) = cc
  Governs-unique (skip r rs m d) (hit _ _ n f) = cc
  Governs-unique (skip r rs m d) (skip _ _ n d') = Governs-unique d d'

  -- A kind of right is granted on a path exactly when the first right of that kind whose pattern
  -- matches the path has rules whose evaluation admits, which for rules that were evaluated before
  -- is the verdict of that time, for whichever user it was; the pattern of a special right has the
  -- user's name and, if he has a primary group, its name filled in, and no match means no.
  pub evaluate_loop_iff :
      (path : Str) (rs : List Right) (b : Bool)
      → ((evaluate_loop site true [] rs user path).0 ≡ b) ↔ Governs path rs b
  evaluate_loop_iff path rs b = (
    (λ e. subst (Governs path rs) e (loop-Governs path true [] rs (inl (refl, refl)))),
    (λ g. Governs-unique (loop-Governs path true [] rs (inl (refl, refl))) g),
  )

-- No right has a special variable.
abbrev pub AllPlain : List Right → Type 0
AllPlain [] = Unit
AllPlain (r ∷ rs) = (r.special_var ≡ false) × AllPlain rs

-- The verdict of a first right without special variable, and the rights that it leaves.
plain_hit :
    (site : Site) (first : Bool) (group : Str) (r : Right) (rs : List Right) (user : UserData)
    (path : Str)
    → r.special_var ≡ false
    → matches site r.path path ≡ true
    → evaluate_loop site first group (r ∷ rs) user path ≡ (
      (evaluate r.acl (acl_info site user)).0,
      record r { acl = (evaluate r.acl (acl_info site user)).1 } ∷ rs,
    )
unfolding evaluate_loop
plain_hit site first group r rs user path e m = rw (e, m, evaluate_loop)

plain_skip :
    (site : Site) (first : Bool) (group : Str) (r : Right) (rs : List Right) (user : UserData)
    (path : Str)
    → r.special_var ≡ false
    → matches site r.path path ≡ false
    → evaluate_loop site first group (r ∷ rs) user path ≡ (
      (evaluate_loop site first group rs user path).0,
      r ∷ (evaluate_loop site first group rs user path).1,
    )
unfolding evaluate_loop
plain_skip site first group r rs user path e m = rw (e, m, evaluate_loop)

-- Rights without special variables give every later user the verdict of the first user who was
-- judged by them on the same path.
pub evaluate_loop_twice :
    (site : Site) (rs : List Right) (user later : UserData) (path : Str)
    → AllPlain rs
    → (evaluate_loop site true [] (evaluate_loop site true [] rs user path).1 later path).0
      ≡ (evaluate_loop site true [] rs user path).0
evaluate_loop_twice site [] user later path p = unfold evaluate_loop in refl
evaluate_loop_twice site (r ∷ rs) user later path p = elim (Bool-cases (matches site r.path path)) [
  | inl m ↦ rw (plain_hit site true [] r rs user path p.0 m) (
      ap (λ x. x.0) (plain_hit site true [] _ rs later path p.0 m)
      ∙ ap (λ x. x.0) (evaluate_twice r.acl (acl_info site user) (acl_info site later)))
  | inr m ↦ rw (plain_skip site true [] r rs user path p.0 m) (
      ap (λ x. x.0) (plain_skip site true [] r _ later path p.0 m)
      ∙ evaluate_loop_twice site rs user later path p.1)
]
