-- ===== src/Ftp/Counters/Sessions.antt =====
-- The counters of src/ftp/transfercounter.cpp and logincounter.cpp count the sessions that are
-- open: the abstract state is the list of the users who have one, newest first.
use ebftpd.Prelude.{
  ℕ, suc, ◌+◌, ◌-◌, ◌≤◌, ◌<◌, ◌≡◌, ◌≢◌, ◌⊎◌, refl, sym, ap, subst, ◌∙◌, inl, inr, Bool, true, false,
  some, ℤ, pos, minus_one, ◌<ℤ◌, eq_ℤ, Bool-cases, if◌then◌else◌, arith, List, [], ◌∷◌, length,
}
use ebftpd.Acl.User.GidList.{contains, erase_first, eq_ℤ_sound}
use ebftpd.Ftp.Counters.{
  CounterResult, okay, Counter, new_counter, update, enter, stop, start_transfer,
}
use ebftpd.Ftp.Counters.Laws.{start_transfer-okay, start_transfer-refused}

-- How many sessions a user has.
unfoldable pub occurrences : ℤ → List ℤ → ℕ
occurrences uid [] = 0
occurrences uid (x ∷ xs) = (if eq_ℤ x uid then 1 else 0) + occurrences uid xs

pub record Represents (c : Counter) (sessions : List ℤ) : Type 0 where
  pub every : (uid : ℤ) → c.personal uid ≡ occurrences uid sessions
  pub total : c.global ≡ length sessions

new_counter-Represents : Represents new_counter []
unfolding new_counter occurrences
new_counter-Represents = record { every = λ uid. refl; total = refl }

enter-Represents :
    (c : Counter) (sessions : List ℤ) (uid : ℤ)
    → Represents c sessions
    → Represents (enter c uid) (uid ∷ sessions)
unfolding enter occurrences
enter-Represents c sessions uid r = record {
  every = λ x. elim (Bool-cases (eq_ℤ uid x)) [
    | inl e ↦ ground (arith, e, r.every x, r.every uid, ap c.personal (eq_ℤ_sound uid x e))
    | inr e ↦ ground (arith, e, r.every x)
  ];
  total = omega (arith, r.total);
}

occurrences-pos : (uid : ℤ) (xs : List ℤ) → contains uid xs ≡ true → 0 < occurrences uid xs
unfolding contains occurrences
occurrences-pos uid [] h = cc
occurrences-pos uid (x ∷ xs) h = ground (arith, occurrences-pos uid xs)

occurrences-le-length : (uid : ℤ) (xs : List ℤ) → occurrences uid xs ≤ length xs
unfolding occurrences
occurrences-le-length uid [] = omega arith
occurrences-le-length uid (x ∷ xs) = ground (arith, occurrences-le-length uid xs)

occurrences-erase_first :
    (uid x : ℤ) (xs : List ℤ)
    → contains uid xs ≡ true
    → occurrences x xs ≡ (if eq_ℤ uid x then 1 else 0) + occurrences x (erase_first uid xs)
unfolding contains occurrences erase_first
occurrences-erase_first uid x [] h = cc
occurrences-erase_first uid x (y ∷ xs) h = elim (Bool-cases (eq_ℤ y uid)) [
  | inl e ↦ ground (arith, e, ap (λ z. eq_ℤ z x) (eq_ℤ_sound y uid e))
  | inr e ↦ ground (arith, e, occurrences-erase_first uid x xs)
]

length-erase_first :
    (uid : ℤ) (xs : List ℤ) → contains uid xs ≡ true → length xs ≡ suc (length (erase_first uid xs))
unfolding contains erase_first
length-erase_first uid [] h = cc
length-erase_first uid (y ∷ xs) h = ground (arith, length-erase_first uid xs)

-- Ending an open session passes the assertions and leaves the counter of the others.
pub stop-Represents :
    (c : Counter) (sessions : List ℤ) (uid : ℤ)
    → Represents c sessions
    → contains uid sessions ≡ true
    → (c' : Counter) × (stop c uid ≡ some c') × Represents c' (erase_first uid sessions)
unfolding stop
stop-Represents c sessions uid r h = (
  record { global = c.global - 1; personal = update c.personal uid (c.personal uid - 1) },
  ground (
    arith,
    r.every uid,
    r.total,
    occurrences-pos uid sessions h,
    occurrences-le-length uid sessions,
  ),
  record {
    every = λ x. elim (Bool-cases (eq_ℤ uid x)) [
      | inl e ↦ ground (
        arith,
        e,
        r.every x,
        ap c.personal (eq_ℤ_sound uid x e),
        occurrences-erase_first uid x sessions h,
      )
      | inr e ↦ ground (arith, e, r.every x, occurrences-erase_first uid x sessions h)
    ];
    total = omega (arith, r.total, length-erase_first uid sessions h);
  },
)

some_eq : {c d : Counter} → some c ≡ some d → c ≡ d
some_eq e = cc

-- A limit that is set and not reached.
below_limit : (limit : ℤ) (n l : ℕ) → (limit ≡ minus_one) ⊎ (pos n <ℤ limit) → limit ≡ pos l → n < l
below_limit limit n l h e = ground arith

occurrences-erase_first_le :
    (uid x : ℤ) (xs : List ℤ)
    → contains uid xs ≡ true
    → occurrences x (erase_first uid xs) ≤ occurrences x xs
occurrences-erase_first_le uid x xs h = ground (arith, occurrences-erase_first uid x xs h)

-- The runs of one transfer counter: any interleaving of the clients' calls, with the limits and the
-- exemptions of the users and the maximum of the configuration.
module _ (limit_of : ℤ → ℤ) (exempt_of : ℤ → Bool) (max_global : ℤ) where
  pub data Run : Counter → List ℤ → Type 0 where
    idle : Run new_counter []
    begin :
        {c c' : Counter} {s : List ℤ} (uid : ℤ)
        → Run c s
        → start_transfer max_global c uid (limit_of uid) (exempt_of uid) ≡ (okay, c')
        → Run c' (uid ∷ s)
    refuse :
        {c c' : Counter} {s : List ℤ} (uid : ℤ) (r : CounterResult)
        → Run c s
        → start_transfer max_global c uid (limit_of uid) (exempt_of uid) ≡ (r, c')
        → r ≢ okay
        → Run c' s
    end :
        {c c' : Counter} {s : List ℤ} (uid : ℤ)
        → Run c s
        → contains uid s ≡ true
        → stop c uid ≡ some c'
        → Run c' (erase_first uid s)

  Run-Represents : {c : Counter} {s : List ℤ} → Run c s → Represents c s
  Run-Represents idle = new_counter-Represents
  Run-Represents (begin {c} {c'} {s} uid run e) =
      let k = start_transfer-okay max_global c c' uid (limit_of uid) (exempt_of uid) e in
      subst (λ d. Represents d (uid ∷ s)) (sym k.0) (enter-Represents c s uid (Run-Represents run))
  Run-Represents (refuse {c} {c'} {s} uid r run e ne) =
      subst (λ d. Represents d s)
        (sym (start_transfer-refused max_global c c' uid (limit_of uid) (exempt_of uid) r e ne))
        (Run-Represents run)
  Run-Represents (end {c} {c'} {s} uid run h e) =
      let k = stop-Represents c s uid (Run-Represents run) h in
      subst (λ d. Represents d (erase_first uid s)) (some_eq (sym k.1 ∙ e)) k.2

  -- The limits hold for the open sessions.
  pub record Within (s : List ℤ) : Type 0 where
    pub own : (uid : ℤ) (l : ℕ) → limit_of uid ≡ pos l → occurrences uid s ≤ l
    pub all : (m : ℕ) → max_global ≡ pos m → ((uid : ℤ) → exempt_of uid ≡ false) → length s ≤ m

  begin-Within :
      (c : Counter) (s : List ℤ) (uid : ℤ)
      → Represents c s
      → Within s
      → ((limit_of uid ≡ minus_one) ⊎ (pos (c.personal uid) <ℤ limit_of uid))
      → ((exempt_of uid ≡ true) ⊎ ((max_global ≡ minus_one) ⊎ (pos c.global <ℤ max_global)))
      → Within (uid ∷ s)
  unfolding occurrences
  begin-Within c s uid r w h k = record {
    own = λ x l e. elim (Bool-cases (eq_ℤ uid x)) [
      | inl f ↦
          let same = eq_ℤ_sound uid x f in
          let room = below_limit (limit_of uid) (c.personal uid) l h (ap limit_of same ∙ e) in
          ground (arith, f, room, r.every uid, ap (λ y. occurrences y s) same)
      | inr f ↦ ground (arith, f, w.own x l e)
    ];
    all = λ m e none_exempt.
        omega (arith, below_limit max_global c.global m (counted (none_exempt uid)) e, r.total);
  }
    where
      counted : exempt_of uid ≡ false → (max_global ≡ minus_one) ⊎ (pos c.global <ℤ max_global)
      counted f = ground arith

  -- Whatever the interleaving of the calls, the counter of a run from the start counts exactly the
  -- open sessions, each user's and all; no user with a limit has more open sessions than that; and
  -- where nobody is exempt and a maximum is configured, no more than that are open in all.
  pub Run_lem : {c : Counter} {s : List ℤ} → Run c s → Represents c s × Within s
  unfolding occurrences
  Run_lem idle =
      (new_counter-Represents, record { own = λ uid l e. omega arith; all = λ m e f. omega arith })
  Run_lem (begin {c} {c'} {s} uid run e) =
      let k = start_transfer-okay max_global c c' uid (limit_of uid) (exempt_of uid) e in
      let ih = Run_lem run in
      (Run-Represents (begin uid run e), begin-Within c s uid ih.0 ih.1 k.1 k.2)
  Run_lem (refuse uid r run e ne) = (Run-Represents (refuse uid r run e ne), (Run_lem run).1)
  Run_lem (end {s} uid run h e) =
      let w = (Run_lem run).1 in
      (
        Run-Represents (end uid run h e),
        record {
          own = λ x l f. omega (arith, w.own x l f, occurrences-erase_first_le uid x s h);
          all = λ m f g. omega (arith, w.all m f g, length-erase_first uid s h);
        },
      )
