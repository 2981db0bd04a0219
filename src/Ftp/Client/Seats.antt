-- ===== src/Ftp/Client/Seats.antt =====
-- The login counter (src/ftp/logincounter.cpp) against the sessions that it counts.
use ebftpd.Prelude.{
  ◌-◌, ◌<◌, ◌++◌, ◌≡◌, refl, ap, inl, inr, true, Option, none, some, List, [], ◌∷◌, ℤ, ℕ, ◌+◌,
  Bool-cases, if◌then◌else◌, arith, eq_ℤ,
}
use ebftpd.Acl.User.GidList.{eq_ℤ-refl, eq_ℤ_sound}
use ebftpd.Ftp.Counters.{Counter, update, enter, stop}
use ebftpd.Ftp.Client.{Client}
use ebftpd.Ftp.Client.Laws.{CanStop, Effect, open_uid}

-- How often a session counts for a user, and how often at all.
unfoldable pub seat : ℤ → Option ℤ → ℕ
seat uid none = 0
seat uid (some x) = if eq_ℤ x uid then 1 else 0

unfoldable pub taken : Option ℤ → ℕ
taken none = 0
taken (some x) = 1

unfoldable pub seats : ℤ → List Client → ℕ
seats uid [] = 0
seats uid (c ∷ cs) = seat uid (open_uid c) + seats uid cs

unfoldable pub all_seats : List Client → ℕ
all_seats [] = 0
all_seats (c ∷ cs) = taken (open_uid c) + all_seats cs

same_count : (n : Counter) (x uid : ℤ) → eq_ℤ x uid ≡ true → n.personal x ≡ n.personal uid
same_count n x uid e = ap n.personal (eq_ℤ_sound x uid e)

enter-seat :
    (n : Counter) (x uid : ℤ) → (enter n x).personal uid ≡ n.personal uid + seat uid (some x)
unfolding seat enter update
enter-seat n x uid = elim (Bool-cases (eq_ℤ x uid)) [
  | inl e ↦ ground (arith, e, same_count n x uid e)
  | inr e ↦ ground (arith, e)
]

stop_lem :
    (n n' : Counter) (x : ℤ)
    → stop n x ≡ some n'
    → (0 < n.personal x)
      × (0 < n.global)
      × (n' ≡ record { global = n.global - 1; personal = update n.personal x (n.personal x - 1) })
unfolding stop
stop_lem n n' x e = ground arith

stop-seat :
    (n n' : Counter) (x uid : ℤ)
    → stop n x ≡ some n'
    → (n'.personal uid + seat uid (some x) ≡ n.personal uid) × (n'.global + 1 ≡ n.global)
unfolding seat stop update
stop-seat n n' x uid e =
    let (p, g, f) = stop_lem n n' x e in
    elim (Bool-cases (eq_ℤ x uid)) [
      | inl k ↦ rw (f, k) (omega (arith, p, g, same_count n x uid k), omega (arith, g))
      | inr k ↦ rw (f, k) (omega arith, omega (arith, g))
    ]

-- What a command changes in the counter is what it changes in its session's place there.
Effect-seat :
    (a b : Option ℤ) (n n' : Counter)
    → Effect a b n n'
    → (uid : ℤ) → n'.personal uid + seat uid a ≡ n.personal uid + seat uid b
unfolding seat
Effect-seat a b n n' (inl (e, f)) uid = rw (e, f) refl
Effect-seat a b n n' (inr (inl (x, e, f, g))) uid = rw (e, f, g) (omega (arith, enter-seat n x uid))
Effect-seat a b n n' (inr (inr (x, e, f, g))) uid =
    rw (e, f) (omega (arith, (stop-seat n n' x uid g).0))

Effect-taken :
    (a b : Option ℤ) (n n' : Counter) → Effect a b n n' → n'.global + taken a ≡ n.global + taken b
unfolding taken enter
Effect-taken a b n n' (inl (e, f)) = rw (e, f) refl
Effect-taken a b n n' (inr (inl (x, e, f, g))) = rw (e, f, g) (omega arith)
Effect-taken a b n n' (inr (inr (x, e, f, g))) = rw (e, f) (omega (arith, (stop-seat n n' x x g).1))

-- The counter counts exactly the sessions that are logged in.
pub record Counts (n : Counter) (cs : List Client) : Type 0 where
  pub every : (uid : ℤ) → n.personal uid ≡ seats uid cs
  pub total : n.global ≡ all_seats cs

seats-append :
    (uid : ℤ) (before : List Client) (c : Client) (after : List Client)
    → seats uid (before ++ c ∷ after) ≡ seats uid before + seat uid (open_uid c) + seats uid after
unfolding seats
seats-append uid [] c after = omega arith
seats-append uid (d ∷ before) c after = omega (arith, seats-append uid before c after)

all_seats-append :
    (before : List Client) (c : Client) (after : List Client)
    → all_seats (before ++ c ∷ after) ≡ all_seats before + taken (open_uid c) + all_seats after
unfolding all_seats
all_seats-append [] c after = omega arith
all_seats-append (d ∷ before) c after = omega (arith, all_seats-append before c after)

pub step-Counts :
    (before : List Client) (c c' : Client) (after : List Client) (n n' : Counter)
    → Counts n (before ++ c ∷ after)
    → Effect (open_uid c) (open_uid c') n n'
    → Counts n' (before ++ c' ∷ after)
step-Counts before c c' after n n' h e = record {
  every = λ uid. omega (
    arith,
    h.every uid,
    Effect-seat _ _ n n' e uid,
    seats-append uid before c after,
    seats-append uid before c' after,
  );
  total = omega (
    arith,
    h.total,
    Effect-taken _ _ n n' e,
    all_seats-append before c after,
    all_seats-append before c' after,
  );
}

seat_own : (uid : ℤ) → seat uid (some uid) ≡ 1
unfolding seat
seat_own uid = rw (eq_ℤ-refl uid) refl

stop-some :
    (n : Counter) (x : ℤ) → 0 < n.personal x → 0 < n.global → (n' : Counter) × (stop n x ≡ some n')
unfolding stop
stop-some n x p g = (
  record { global = n.global - 1; personal = update n.personal x (n.personal x - 1) },
  ground (arith, p, g),
)

-- The assertions of `Stop` hold for every session.
pub Counts-CanStop :
    (before : List Client) (c : Client) (after : List Client) (n : Counter)
    → Counts n (before ++ c ∷ after)
    → CanStop c n
unfolding taken
Counts-CanStop before c after n h uid e =
    let own = h.every uid in
    let mine = seats-append uid before c after in
    let all = all_seats-append before c after in
    stop-some n uid (omega (arith, own, mine, ap (seat uid) e, seat_own uid))
      (omega (arith, h.total, all, ap taken e))
