-- ===== src/Acl/Misc.antt =====
-- src/acl/misc.cpp with the settings of src/cfg/setting.hpp that it reads: the maximum of
-- statistics, speed limits, transfers between servers, credits, and the strength that is asked for.
-- All its loops evaluate the rules of an element and return at the first one that fits; each
-- function returns its settings too, with what the rules cached.
pub mod Laws
pub mod Tests
use ebftpd.Prelude.{
  Bool, true, false, not, Option, none, some, List, [], ◌∷◌, Str, ℤ, pos, minus_one, ltb_ℤ, ◌&&◌,
  if◌then◌else◌,
}
use ebftpd.Util.Wildcard.{Fnmatch, wildcard_match}
use ebftpd.Acl.Rules.{Acl, AclInfo, evaluate}
use ebftpd.Acl.Strength.{
  PasswdStrength, passwd_strength, passwd_allowed, IpStrength, ip_strength, ip_allowed, IpAnswer,
  accepted,
}

-- A setting and its rules.
pub record Ruled {ℓ} (A : Type ℓ) : Type ℓ where
  pub value : A
  pub acl : Acl

-- The loop: `before` and `after` are what is asked of the element before and after its rules.
unfoldable pub first_ruled {ℓ} :
    {A : Type ℓ} → (A → Bool) → (A → Bool) → List (Ruled A) → AclInfo → Option A × List (Ruled A)
first_ruled before after [] info = (none, [])
first_ruled before after (r ∷ rs) info =
    let rest = first_ruled before after rs info in
    let verdict = evaluate r.acl info in
    if before r.value
    then (if verdict.0 && after r.value
        then (some r.value, record r { acl = verdict.1 } ∷ rs)
        else (rest.0, record r { acl = verdict.1 } ∷ rest.1))
    else (rest.0, r ∷ rest.1)

abbrev pub always {ℓ} : {A : Type ℓ} → A → Bool
always a = true

abbrev pub get_or_else {ℓ} : {A : Type ℓ} → Option A → A → A
get_or_else none a = a
get_or_else (some b) a = b

-- `stats::Max`
unfoldable pub max_stat : List (Ruled ℤ) → AclInfo → ℤ × List (Ruled ℤ)
max_stat max_stats info =
    let r = first_ruled always always max_stats info in (get_or_else r.0 minus_one, r.1)

-- cfg::SpeedLimit, with the two accessors as they are.
pub record SpeedLimit : Type 0 where
  pub path : Str
  pub downloads : ℤ
  pub uploads : ℤ

unfoldable pub limit_uploads : SpeedLimit → ℤ
limit_uploads limit = limit.downloads

unfoldable pub limit_downloads : SpeedLimit → ℤ
limit_downloads limit = limit.uploads

-- cfg::AllowFxp
pub record AllowFxp : Type 0 where
  pub downloads : Bool
  pub uploads : Bool
  pub logging : Bool

-- cfg::Creditcheck and cfg::Creditloss
pub record CreditRule : Type 0 where
  pub path : Str
  pub ratio : ℤ

module _ (fnmatch : Fnmatch) where
  -- `UploadMinimum` and `DownloadMinimum`
  unfoldable pub minimum_speed :
      (SpeedLimit → ℤ) → List (Ruled SpeedLimit) → AclInfo → Str → ℤ × List (Ruled SpeedLimit)
  minimum_speed speed limits info path =
      let r = first_ruled always (λ l. wildcard_match fnmatch l.path path false) limits info in
      (elim r.0 [ none ↦ pos 0 | some l ↦ speed l ], r.1)

  unfoldable pub upload_minimum :
      List (Ruled SpeedLimit) → AclInfo → Str → ℤ × List (Ruled SpeedLimit)
  upload_minimum = minimum_speed limit_uploads

  unfoldable pub download_minimum :
      List (Ruled SpeedLimit) → AclInfo → Str → ℤ × List (Ruled SpeedLimit)
  download_minimum = minimum_speed limit_downloads

  -- `CreditCheck` and `CreditLoss`
  unfoldable pub credit_rule :
      List (Ruled CreditRule) → AclInfo → Str → Option CreditRule × List (Ruled CreditRule)
  credit_rule rules info path =
      first_ruled (λ c. wildcard_match fnmatch c.path path false) always rules info

-- `AllowFxp`; the answer and, where a rule fits, the new value of `logging`.
unfoldable pub allow_fxp :
    (AllowFxp → Bool) → List (Ruled AllowFxp) → AclInfo → Bool → Bool × Bool × List (Ruled AllowFxp)
allow_fxp is_allowed fxp info logging =
    let r = first_ruled always always fxp info in
    elim r.0 [ none ↦ (false, logging, r.1) | some af ↦ (is_allowed af, af.logging, r.1) ]

-- The answer, and `minimum`, which a refusal assigns.
unfoldable pub secure_pass :
    List (Ruled PasswdStrength)
    → AclInfo
    → Str
    → PasswdStrength
    → Bool × PasswdStrength × List (Ruled PasswdStrength)
secure_pass rules info password minimum =
    let r = first_ruled always always rules info in
    elim r.0 [
      | none ↦ (true, minimum, r.1)
      | some s ↦
          if passwd_allowed s (passwd_strength password)
          then (true, minimum, r.1)
          else (false, s, r.1)
    ]

abbrev pub is_accepted : IpAnswer → Bool
is_accepted accepted = true
is_accepted _ = false

unfoldable pub secure_ip :
    List (Ruled IpStrength)
    → AclInfo
    → Str
    → IpStrength
    → Bool × IpStrength × List (Ruled IpStrength)
secure_ip rules info ip minimum =
    let r = first_ruled always always rules info in
    elim r.0 [
      | none ↦ (true, minimum, r.1)
      | some s ↦
          if is_accepted (ip_allowed s (ip_strength ip))
          then (true, minimum, r.1)
          else (false, s, r.1)
    ]
