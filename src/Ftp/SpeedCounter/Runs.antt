-- ===== src/Ftp/SpeedCounter/Runs.antt =====
-- The runs of a speed counter: transfers that begin, go on and end, in any order
-- (src/ftp/speedcounter.cpp). Apply of src/ftp/speedcontrol.hpp keeps the last state of a transfer
-- after a sleep, which may be interrupted: in the first sleep there is none yet. An interrupt of a
-- later sleep, which leaves the state before the last update, is left out.
use ebftpd.Prelude.{
  ◌≡◌, refl, sym, ap, ◌∙◌, inl, inr, ℕ, ◌+◌, ◌*◌, ◌/◌, ◌≤◌, ◌<◌, Option, none, some, List, [], ◌∷◌,
  ◌++◌, Str, str_eq, Bool-cases, arith,
}
use ebftpd.Util.Map.{assign, name_key}
use ebftpd.Ftp.SpeedCounter.{
  SpeedInfo, Entry, Speeds, Limit, max, speed_limit_sleep, entry_sleep, update_loop, update,
  clear_loop, clear,
}
use ebftpd.Ftp.SpeedCounter.Laws.{
  Share, plus, load, Represents, join-Represents, replace-Represents, leave-Represents,
}

-- A transfer that was counted: the limits that it runs under, and its last state.
pub record Transfer : Type 0 where
  pub limits : List Limit
  pub last : SpeedInfo

unfoldable pub shares_of : List Limit → SpeedInfo → List Share
shares_of [] i = []
shares_of (limit ∷ limits) i = (limit.path, i) ∷ shares_of limits i

unfoldable pub all_shares : List Transfer → List Share
all_shares [] = []
all_shares (t ∷ ts) = shares_of t.limits t.last ++ all_shares ts

-- The sum over two lists.
abbrev both : Entry → Entry → Entry
both a b = record {
  transfers = a.transfers + b.transfers;
  info = record {
    xfertime = a.info.xfertime + b.info.xfertime;
    bytes = a.info.bytes + b.info.bytes;
  };
}

load-append : (xs ys : List Share) (p : Str) → load (xs ++ ys) p ≡ both (load xs p) (load ys p)
unfolding load
load-append [] ys p = ground arith
load-append ((q, i) ∷ xs) ys p = elim (Bool-cases (str_eq q p)) [
  | inl e ↦ rw (e) (ap (plus i) (load-append xs ys p) ∙ ground arith)
  | inr e ↦ rw (e) (load-append xs ys p)
]

-- The same shares in another order.
abbrev pub Same : List Share → List Share → Type 0
Same xs ys = (p : Str) → load xs p ≡ load ys p

pub Same-Represents :
    (speeds : Speeds) (xs ys : List Share)
    → Same xs ys
    → Represents speeds xs
    → Represents speeds ys
Same-Represents speeds xs ys same r p = rw (← same p) (r p)

Same-middle : (x : Share) (xs ys : List Share) → Same (xs ++ (x ∷ ys)) (x ∷ (xs ++ ys))
unfolding load
Same-middle (q, i) xs ys p = elim (Bool-cases (str_eq q p)) [
  | inl e ↦ load-append xs ((q, i) ∷ ys) p ∙ rw (e, load-append xs ys p) (ground (arith, e))
  | inr e ↦ load-append xs ((q, i) ∷ ys) p ∙ rw (e, load-append xs ys p) refl
]

abbrev pub Succeeds : Option (ℕ × Speeds) → List Share → Type 0
Succeeds o shares = (n : ℕ) × (s : Speeds) × (o ≡ some (n, s)) × (n ≤ 100000) × Represents s shares

entry_sleep-le :
    (least_time : ℕ → ℕ → ℕ) (e : Entry) (speed : ℕ)
    → 0 < e.transfers
    → (n : ℕ) × (entry_sleep least_time e speed ≡ some n) × (n ≤ 100000)
unfolding entry_sleep speed_limit_sleep
entry_sleep-le least_time e speed h =
    let asleep =
      speed_limit_sleep least_time (e.info.xfertime / e.transfers) e.info.bytes (speed * 1024) in
    (asleep, ground (arith, h), ground arith)

-- The loop of Update does for the shares of a transfer what a step does for one.
module _ (least_time : ℕ → ℕ → ℕ) where
  pub begin_loop :
      (current : SpeedInfo) (limits : List Limit) (sleep : ℕ) (speeds : Speeds)
      (shares : List Share)
      → sleep ≤ 100000
      → Represents speeds shares
      → Succeeds
          (update_loop least_time none current limits sleep speeds)
          (shares_of limits current ++ shares)
  unfolding update_loop shares_of
  begin_loop current [] sleep speeds shares h r = (sleep, speeds, refl, h, r)
  begin_loop current (limit ∷ limits) sleep speeds shares h r =
      let (e, f, pos, r1) = join-Represents speeds shares limit.path current r in
      let (n, g, b) = entry_sleep-le least_time e limit.speed pos in
      let (m, s, k, c, r2) =
        begin_loop current limits (max sleep n) (assign limit.path e speeds)
          ((limit.path, current) ∷ shares) (ground (arith, h, b)) r1 in
      (
        m,
        s,
        rw (f, update_loop, g) k,
        c,
        Same-Represents s (shares_of limits current ++ ((limit.path, current) ∷ shares))
            ((limit.path, current) ∷ (shares_of limits current ++ shares))
            (Same-middle (limit.path, current) (shares_of limits current) shares) r2,
      )

  pub progress_loop :
      (l current : SpeedInfo) (limits : List Limit) (sleep : ℕ) (speeds : Speeds)
      (shares : List Share)
      → sleep ≤ 100000
      → Represents speeds (shares_of limits l ++ shares)
      → Succeeds
          (update_loop least_time (some l) current limits sleep speeds)
          (shares_of limits current ++ shares)
  unfolding update_loop shares_of
  progress_loop l current [] sleep speeds shares h r = (sleep, speeds, refl, h, r)
  progress_loop l current (limit ∷ limits) sleep speeds shares h r =
      let rest = shares_of limits l ++ shares in
      let (e, f, pos, r1) = replace-Represents speeds rest limit.path l current r in
      let (n, g, b) = entry_sleep-le least_time e limit.speed pos in
      let now = assign limit.path e speeds in
      let (m, s, k, c, r2) =
        progress_loop l current limits (max sleep n) now ((limit.path, current) ∷ shares)
          (ground (arith, h, b))
          (Same-Represents now ((limit.path, current) ∷ rest)
            (shares_of limits l ++ ((limit.path, current) ∷ shares))
            (λ p. sym (Same-middle (limit.path, current) (shares_of limits l) shares p)) r1) in
      (
        m,
        s,
        rw (f, update_loop, g) k,
        c,
        Same-Represents s (shares_of limits current ++ ((limit.path, current) ∷ shares))
            ((limit.path, current) ∷ (shares_of limits current ++ shares))
            (Same-middle (limit.path, current) (shares_of limits current) shares) r2,
      )

pub end_loop :
    (l : SpeedInfo) (limits : List Limit) (speeds : Speeds) (shares : List Share)
    → Represents speeds (shares_of limits l ++ shares)
    → (s : Speeds) × (clear_loop l limits speeds ≡ some s) × Represents s shares
unfolding clear_loop shares_of
end_loop l [] speeds shares r = (speeds, refl, r)
end_loop l (limit ∷ limits) speeds shares r =
    let (s1, f, r1) = leave-Represents speeds (shares_of limits l ++ shares) limit.path l r in
    let (s, g, r2) = end_loop l limits s1 shares r1 in (s, rw (f, clear_loop) g, r2)

-- A transfer among the others.
pub middle-Same :
    (xs ys : List Transfer) (limits : List Limit) (i : SpeedInfo)
    → Same
        (all_shares (xs ++ (record { limits = limits; last = i } ∷ ys)))
        (shares_of limits i ++ all_shares (xs ++ ys))
unfolding all_shares
middle-Same [] ys limits i p = refl
middle-Same (x ∷ xs) ys limits i p =
    let a = shares_of x.limits x.last in
    let t = all_shares (xs ++ (record { limits = limits; last = i } ∷ ys)) in
    let u = shares_of limits i in
    let v = all_shares (xs ++ ys) in
    load-append a t p
    ∙ ap (both (load a p)) (middle-Same xs ys limits i p ∙ load-append u v p)
    ∙ ground arith
    ∙ ap (both (load u p)) (sym (load-append a v p))
    ∙ sym (load-append u (a ++ v) p)

-- The runs of one counter. A transfer that goes without a last state clears nothing: it has not begun,
-- or was interrupted in its first sleep, and then it stays in the list.
pub data Run (least_time : ℕ → ℕ → ℕ) : Speeds → List Transfer → Type 0 where
  idle : Run least_time [] []
  begin :
      {s s' : Speeds} {ts : List Transfer} (n : ℕ) (limits : List Limit) (current : SpeedInfo)
      → Run least_time s ts
      → update least_time none current limits s ≡ some (n, s')
      → Run least_time s' (record { limits = limits; last = current } ∷ ts)
  progress :
      {s s' : Speeds} (xs ys : List Transfer) (n : ℕ) (limits : List Limit) (l current : SpeedInfo)
      → Run least_time s (xs ++ (record { limits = limits; last = l } ∷ ys))
      → update least_time (some l) current limits s ≡ some (n, s')
      → Run least_time s' (xs ++ (record { limits = limits; last = current } ∷ ys))
  end :
      {s s' : Speeds} (xs ys : List Transfer) (limits : List Limit) (l : SpeedInfo)
      → Run least_time s (xs ++ (record { limits = limits; last = l } ∷ ys))
      → clear (some l) limits s ≡ some s'
      → Run least_time s' (xs ++ ys)
  go :
      {s s' : Speeds} {ts : List Transfer} (limits : List Limit)
      → Run least_time s ts
      → clear none limits s ≡ some s'
      → Run least_time s' ts
