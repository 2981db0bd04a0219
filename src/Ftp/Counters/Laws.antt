-- ===== src/Ftp/Counters/Laws.antt =====
-- What one call of a counter does on each of its branches.
use ebftpd.Prelude.{
  ◌≡◌, ◌≢◌, ◌⊎◌, sym, ap, ◌∙◌, inl, inr, Bool, true, false, ℤ, pos, minus_one, ◌-ℤ◌, ◌≤ℤ◌, ◌<ℤ◌,
  eq_ℤ, eq_ℤ-iff, leb_ℤ, Bool-cases, arith, leb→le, not_leb→lt,
}
use ebftpd.Ftp.Counters.{
  CounterResult, personal_fail, global_fail, okay, Counter, enter, bit, start_login, start_transfer,
}

-- No login is refused for the number of users online, whatever the configured maximum.
pub start_login-ne-global_fail :
    (users exempt_users : ℤ) (c : Counter) (uid limit : ℤ) (kick_login exempt : Bool)
    → (start_login users exempt_users c uid limit kick_login exempt).0 ≢ global_fail
unfolding start_login
start_login-ne-global_fail users exempt_users c uid limit kick_login exempt = ground arith

-- A login is refused exactly when the user has a limit, and has at least that many logins beside
-- the one to be kicked; refused, it leaves the counter alone, and otherwise it is counted.
pub start_login_lem :
    (users exempt_users : ℤ) (c : Counter) (uid limit : ℤ) (kick_login exempt : Bool)
    → ((start_login users exempt_users c uid limit kick_login exempt ≡ (personal_fail, c))
        × (limit ≢ minus_one)
        × (limit ≤ℤ pos (c.personal uid) -ℤ bit kick_login))
      ⊎ ((start_login users exempt_users c uid limit kick_login exempt ≡ (okay, enter c uid))
          × ((limit ≡ minus_one) ⊎ (pos (c.personal uid) -ℤ bit kick_login <ℤ limit)))
unfolding start_login
start_login_lem users exempt_users c uid limit kick_login exempt =
    elim (Bool-cases (eq_ℤ limit minus_one)) [
      | inl unlimited ↦
          inr (
            rw (unlimited, start_login) (ground arith),
            inl ((eq_ℤ-iff limit minus_one).0 unlimited),
          )
      | inr limited ↦ elim (Bool-cases (leb_ℤ limit (pos (c.personal uid) -ℤ bit kick_login))) [
        | inl full ↦ inl (
          rw (limited, full, start_login),
          (λ e. cc ((eq_ℤ-iff limit minus_one).1 e, limited)),
          leb→le _ _ full,
        )
        | inr free ↦ inr (rw (limited, free, start_login) (ground arith), inr (not_leb→lt _ _ free))
      ]
    ]

-- A transfer is refused for the user's limit, or for the global maximum unless he is exempt, and
-- otherwise it is counted. Refused, it leaves the counter alone.
pub start_transfer_lem :
    (max_global : ℤ) (c : Counter) (uid limit : ℤ) (exempt : Bool)
    → ((start_transfer max_global c uid limit exempt ≡ (personal_fail, c))
        × (limit ≢ minus_one)
        × (limit ≤ℤ pos (c.personal uid)))
      ⊎ (((start_transfer max_global c uid limit exempt ≡ (global_fail, c))
            × (exempt ≡ false)
            × (max_global ≢ minus_one)
            × (max_global ≤ℤ pos c.global))
          ⊎ ((start_transfer max_global c uid limit exempt ≡ (okay, enter c uid))
              × ((limit ≡ minus_one) ⊎ (pos (c.personal uid) <ℤ limit))
              × ((exempt ≡ true) ⊎ ((max_global ≡ minus_one) ⊎ (pos c.global <ℤ max_global)))))
unfolding start_transfer
start_transfer_lem max_global c uid limit exempt =
    ground (arith, eq_ℤ-iff limit minus_one, eq_ℤ-iff max_global minus_one)

-- What is known when a transfer was admitted.
pub start_transfer-okay :
    (max_global : ℤ) (c c' : Counter) (uid limit : ℤ) (exempt : Bool)
    → start_transfer max_global c uid limit exempt ≡ (okay, c')
    → (c' ≡ enter c uid)
      × ((limit ≡ minus_one) ⊎ (pos (c.personal uid) <ℤ limit))
      × ((exempt ≡ true) ⊎ ((max_global ≡ minus_one) ⊎ (pos c.global <ℤ max_global)))
start_transfer-okay max_global c c' uid limit exempt e =
    elim (start_transfer_lem max_global c uid limit exempt) [
      | inl (f, _, _) ↦ cc
      | inr (inl (f, _, _, _)) ↦ cc
      | inr (inr (f, h, k)) ↦ (ap (λ r. r.1) (sym e ∙ f), h, k)
    ]

pub start_transfer-refused :
    (max_global : ℤ) (c c' : Counter) (uid limit : ℤ) (exempt : Bool) (r : CounterResult)
    → start_transfer max_global c uid limit exempt ≡ (r, c')
    → r ≢ okay
    → c' ≡ c
start_transfer-refused max_global c c' uid limit exempt r e ne =
    elim (start_transfer_lem max_global c uid limit exempt) [
      | inl (f, _, _) ↦ ap (λ x. x.1) (sym e ∙ f)
      | inr (inl (f, _, _, _)) ↦ ap (λ x. x.1) (sym e ∙ f)
      | inr (inr (f, _, _)) ↦ absurd (ne (ap (λ x. x.0) (sym e ∙ f)))
    ]
