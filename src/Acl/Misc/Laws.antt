-- ===== src/Acl/Misc/Laws.antt =====
-- The lookups of src/acl/misc.cpp on rules that were not evaluated yet.
use ebftpd.Prelude.{
  ◌≡◌, ◌⊎◌, refl, sym, ◌∙◌, inl, inr, Bool, true, false, Option, none, some, List, [], ◌∷◌, ◌++◌,
  Str, ℤ, Bool-cases, Option-cases, ◌&&◌, if◌then◌else◌,
}
use ebftpd.Util.Wildcard.{Fnmatch, wildcard_match}
use ebftpd.Acl.Rules.{AclInfo, Permission, first_result, evaluate, fresh}
use ebftpd.Acl.Strength.{PasswdStrength, passwd_strength, passwd_allowed}
use ebftpd.Acl.Strength.Laws.{passwd_allowed-append}
use ebftpd.Acl.Misc.{
  Ruled, first_ruled, always, SpeedLimit, upload_minimum, download_minimum, minimum_speed,
  limit_uploads, limit_downloads, secure_pass,
}

-- The settings as they are read, before any evaluation: the rules and the value of each.
abbrev pub loaded {ℓ} : {A : Type ℓ} → List (List Permission × A) → List (Ruled A)
loaded [] = []
loaded ((ps, a) ∷ rest) = record { value = a; acl = fresh ps } ∷ loaded rest

-- The first value that passes the test, whose rules admit the user.
unfoldable pub chosen {ℓ} :
    {A : Type ℓ} → (A → Bool) → List (List Permission × A) → AclInfo → Option A
chosen test [] info = none
chosen test ((ps, a) ∷ rest) info =
    if test a && first_result ps info then some a else chosen test rest info

first_ruled-chosen {ℓ} :
    {A : Type ℓ} (before after : A → Bool) (rs : List (List Permission × A)) (info : AclInfo)
    → (first_ruled before after (loaded rs) info).0 ≡ chosen (λ a. before a && after a) rs info
unfolding first_ruled chosen evaluate fresh
first_ruled-chosen before after [] info = refl
first_ruled-chosen before after ((ps, a) ∷ rs) info = elim (Bool-cases (before a)) [
  | inr e ↦ rw e (first_ruled-chosen before after rs info)
  | inl e ↦ elim (Bool-cases (first_result ps info)) [
    | inl f ↦ elim (Bool-cases (after a)) [
      | inl g ↦ rw (e, f, g) refl
      | inr g ↦ rw (e, f, g) (first_ruled-chosen before after rs info)
    ]
    | inr f ↦ elim (Bool-cases (after a)) [
      | inl g ↦ rw (e, f, g) (first_ruled-chosen before after rs info)
      | inr g ↦ rw (e, f, g) (first_ruled-chosen before after rs info)
    ]
  ]
]

-- What the answer to a password says: it is admitted with no change of the minimum where no rules
-- admit the user, or the first that do ask for no more than its strength; it is refused where it
-- is weaker than the first, which is the minimum reported.
pub secure_pass_lem :
    (rules : List (List Permission × PasswdStrength)) (info : AclInfo) (password : Str)
    (minimum : PasswdStrength)
    → ((chosen always rules info ≡ none)
        × ((secure_pass (loaded rules) info password minimum).0 ≡ true)
        × ((secure_pass (loaded rules) info password minimum).1 ≡ minimum))
      ⊎ ((s : PasswdStrength) × (chosen always rules info ≡ some s)
          × ((secure_pass (loaded rules) info password minimum).0
              ≡ passwd_allowed s (passwd_strength password))
          × ((secure_pass (loaded rules) info password minimum).1
              ≡ (if passwd_allowed s (passwd_strength password) then minimum else s)))
unfolding secure_pass
secure_pass_lem rules info password minimum = elim (Option-cases (chosen always rules info)) [
  | inl e ↦
      let f = first_ruled-chosen always always rules info ∙ e in
      inl (e, rw (f, secure_pass), rw (f, secure_pass))
  | inr (s, e) ↦
      let f = first_ruled-chosen always always rules info ∙ e in
      elim (Bool-cases (passwd_allowed s (passwd_strength password))) [
        | inl g ↦ inr (s, e, rw (f, g, secure_pass), rw (f, g, secure_pass))
        | inr g ↦ inr (s, e, rw (f, g, secure_pass), rw (f, g, secure_pass))
      ]
]

secure_pass-chosen :
    (rules : List (List Permission × PasswdStrength)) (info : AclInfo) (password : Str)
    (minimum s : PasswdStrength)
    → chosen always rules info ≡ some s
    → (secure_pass (loaded rules) info password minimum).0
      ≡ passwd_allowed s (passwd_strength password)
unfolding secure_pass passwd_allowed
secure_pass-chosen rules info password minimum s e =
    let f = first_ruled-chosen always always rules info ∙ e in
    elim (Bool-cases (passwd_allowed s (passwd_strength password))) [
      | inl g ↦ rw (f, g, secure_pass)
      | inr g ↦ rw (f, g, secure_pass)
    ]

-- A password that is admitted under the rules stays so with any text before and after it.
pub secure_pass-append :
    (rules : List (List Permission × PasswdStrength)) (info : AclInfo) (minimum : PasswdStrength)
    (before p after : Str)
    → (secure_pass (loaded rules) info p minimum).0 ≡ true
    → (secure_pass (loaded rules) info (before ++ (p ++ after)) minimum).0 ≡ true
unfolding secure_pass
secure_pass-append rules info minimum before p after h =
    elim (Option-cases (chosen always rules info)) [
      | inl e ↦ let f = first_ruled-chosen always always rules info ∙ e in rw (f, secure_pass)
      | inr (s, e) ↦
          secure_pass-chosen rules info (before ++ (p ++ after)) minimum s e
          ∙ passwd_allowed-append s before p after
              (sym (secure_pass-chosen rules info p minimum s e) ∙ h)
    ]

-- The limit of a user on a path: the first whose rules admit him and whose mask matches the path.
abbrev pub limit_of :
    Fnmatch → List (List Permission × SpeedLimit) → AclInfo → Str → Option SpeedLimit
limit_of fnmatch limits info path =
    chosen (λ l. wildcard_match fnmatch l.path path false) limits info

minimum_speed_lem :
    (fnmatch : Fnmatch) (speed : SpeedLimit → ℤ) (limits : List (List Permission × SpeedLimit))
    (info : AclInfo) (path : Str) (l : SpeedLimit)
    → limit_of fnmatch limits info path ≡ some l
    → (minimum_speed fnmatch speed (loaded limits) info path).0 ≡ speed l
unfolding minimum_speed
minimum_speed_lem fnmatch speed limits info path l e =
    let f =
      first_ruled-chosen always (λ l. wildcard_match fnmatch l.path path false) limits info ∙ e in
    rw (minimum_speed, f)

-- The least speed asked of an upload is the one that the user's limit gives for downloads, and that
-- asked of a download the one for uploads.
pub minimum_speeds_lem :
    (fnmatch : Fnmatch) (limits : List (List Permission × SpeedLimit)) (info : AclInfo) (path : Str)
    (l : SpeedLimit)
    → limit_of fnmatch limits info path ≡ some l
    → ((upload_minimum fnmatch (loaded limits) info path).0 ≡ l.downloads)
      × ((download_minimum fnmatch (loaded limits) info path).0 ≡ l.uploads)
unfolding upload_minimum download_minimum limit_uploads limit_downloads
minimum_speeds_lem fnmatch limits info path l e = (
  minimum_speed_lem fnmatch limit_uploads limits info path l e,
  minimum_speed_lem fnmatch limit_downloads limits info path l e,
)
