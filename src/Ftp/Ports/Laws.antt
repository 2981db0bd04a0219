-- ===== src/Ftp/Ports/Laws.antt =====
-- Which ports src/ftp/portallocator.hpp hands out.
use ebftpd.Prelude.{
  ℕ, suc, ◌+◌, ◌≤◌, ◌<◌, ◌≡◌, ◌⊎◌, refl, sym, subst, ==_iff, inl, inr, false, Option, some, List,
  [], ◌∷◌, length, leb, leb→le, Bool-cases, ◌==◌, arith,
}
use ebftpd.Ftp.Ports.{
  PortRange, port_range, PortAllocator, new_port_allocator, set_ports, advance, from_of,
  next_port_loop, next_port,
}

-- What the configuration admits as a range.
pub record IsRange (r : PortRange) : Type 0 where
  pub low : 1024 ≤ r.from
  pub order : r.from ≤ r.upto
  pub high : r.upto ≤ 65535

-- A range that passes the tests of the configuration is one in order, between 1024 and 65535.
pub port_range-IsRange : (from upto : ℕ) (r : PortRange) → port_range from upto ≡ some r → IsRange r
unfolding port_range
port_range-IsRange from upto r e = ground arith

abbrev pub AllRanges : List PortRange → Type 0
AllRanges [] = Unit
AllRanges (r ∷ rs) = IsRange r × AllRanges rs

-- The port lies in one of the ranges.
abbrev pub Inside : ℕ → List PortRange → Type 0
Inside p [] = ⊥
Inside p (r ∷ rs) = ((r.from ≤ p) × (p ≤ r.upto)) ⊎ Inside p rs

-- The second list is an end part of the first.
pub data Suffix (rs : List PortRange) : List PortRange → Type 0 where
  whole : Suffix rs rs
  shorter : {r : PortRange} {ts : List PortRange} → Suffix rs (r ∷ ts) → Suffix rs ts

Suffix-Inside : (p : ℕ) {rs ts : List PortRange} → Suffix rs ts → Inside p ts → Inside p rs
Suffix-Inside p whole h = h
Suffix-Inside p (shorter s) h = Suffix-Inside p s (inr h)

Suffix-AllRanges : {rs ts : List PortRange} → Suffix rs ts → AllRanges rs → AllRanges ts
Suffix-AllRanges whole h = h
Suffix-AllRanges (shorter s) h = (Suffix-AllRanges s h).1

Suffix-length : {rs ts : List PortRange} → Suffix rs ts → length ts ≤ length rs
Suffix-length whole = omega arith
Suffix-length (shorter s) = omega (arith, Suffix-length s)

-- The next port is at most one past the range of the iterator.
abbrev pub IsNear : ℕ → List PortRange → Type 0
IsNear next [] = ⊥
IsNear next (r ∷ ts) = (next ≡ 0) ⊎ ((r.from ≤ next) × (next ≤ r.upto + 1))

-- The allocator works on the ranges it was given.
pub record IsValid (a : PortAllocator) : Type 0 where
  pub ranges : AllRanges a.ranges
  pub within : Suffix a.ranges a.it
  pub near : IsNear a.next a.it

abbrev allocator : List PortRange → List PortRange → ℕ → PortAllocator
allocator rs ts n = record { ranges = rs; it = ts; next = n }

-- A port of the ranges is handed out, and the allocator stays valid.
abbrev pub Serves : PortAllocator → Option (ℕ × PortAllocator) → Type 0
Serves a r =
    (p : ℕ) × (a' : PortAllocator) × (r ≡ some (p, a'))
    × Inside p a.ranges
    × IsValid a'
    × (a'.ranges ≡ a.ranges)

advance-Suffix :
    (q : PortRange) (rs : List PortRange) (r : PortRange) (ts : List PortRange)
    → Suffix (q ∷ rs) (r ∷ ts)
    → (s : PortRange) × (us : List PortRange) × (advance (q ∷ rs) (r ∷ ts) ≡ s ∷ us)
      × Suffix (q ∷ rs) (s ∷ us)
unfolding advance
advance-Suffix q rs r [] s = (q, rs, refl, whole)
advance-Suffix q rs r (t ∷ ts) s = (t, ts, refl, shorter s)

-- The first pass of the loop returns where the next port is still in the range.
serve_here :
    (q : PortRange) (rs : List PortRange) (r : PortRange) (ts : List PortRange) (n fuel : ℕ)
    → AllRanges (q ∷ rs)
    → Suffix (q ∷ rs) (r ∷ ts)
    → r.from ≤ n
    → n ≤ r.upto
    → Serves
        (allocator (q ∷ rs) (r ∷ ts) n)
        (next_port_loop (suc fuel) (allocator (q ∷ rs) (r ∷ ts) n))
unfolding next_port_loop
serve_here q rs r ts n fuel v s h k = (
  n,
  allocator (q ∷ rs) (r ∷ ts) (n + 1),
  ground arith,
  Suffix-Inside n s (inl (h, k)),
  record { ranges = v; within = s; near = inr (omega arith, omega arith) },
  refl,
)

-- Past the end of a range the loop goes on at the first port of the next one.
next_port_loop_past :
    (rs : List PortRange) (r : PortRange) (ts : List PortRange) (n fuel : ℕ)
    → leb n r.upto ≡ false
    → next_port_loop (suc fuel) (allocator rs (r ∷ ts) n)
      ≡ next_port_loop fuel (allocator rs (advance rs (r ∷ ts)) (from_of (advance rs (r ∷ ts))))
unfolding next_port_loop
next_port_loop_past rs r ts n fuel e = rw e

serve_loop :
    (q : PortRange) (rs : List PortRange) (r : PortRange) (ts : List PortRange) (n fuel : ℕ)
    → AllRanges (q ∷ rs)
    → Suffix (q ∷ rs) (r ∷ ts)
    → r.from ≤ n
    → n ≤ r.upto + 1
    → Serves
        (allocator (q ∷ rs) (r ∷ ts) n)
        (next_port_loop (suc (suc fuel)) (allocator (q ∷ rs) (r ∷ ts) n))
serve_loop q rs r ts n fuel v s h k = elim (Bool-cases (leb n r.upto)) [
  | inl e ↦ serve_here q rs r ts n (suc fuel) v s h (leb→le n r.upto e)
  | inr e ↦
      let (t, us, f, w) = advance-Suffix q rs r ts s in
      let ok = (Suffix-AllRanges w v).0 in
      rw (next_port_loop_past (q ∷ rs) r ts n (suc fuel) e, f)
        (serve_here q rs t us t.from fuel v w (omega arith) ok.order)
]

-- The first port of the range of the iterator, which a fresh allocator hands out.
serve_first :
    (q : PortRange) (rs : List PortRange) (r : PortRange) (ts : List PortRange) (fuel : ℕ)
    → AllRanges (q ∷ rs)
    → Suffix (q ∷ rs) (r ∷ ts)
    → Serves (allocator (q ∷ rs) (r ∷ ts) 0) (next_port fuel (allocator (q ∷ rs) (r ∷ ts) 0))
unfolding next_port
serve_first q rs r ts fuel v s = (
  r.from,
  allocator (q ∷ rs) (r ∷ ts) (r.from + 1),
  refl,
  Suffix-Inside r.from s (inl (omega arith, order)),
  record { ranges = v; within = s; near = inr (omega arith, omega (arith, order)) },
  refl,
)
  where
    order : r.from ≤ r.upto
    order = (Suffix-AllRanges s v).0.order

serve :
    (q : PortRange) (rs ts : List PortRange) (n fuel : ℕ)
    → IsValid (allocator (q ∷ rs) ts n)
    → Serves (allocator (q ∷ rs) ts n) (next_port (suc (suc fuel)) (allocator (q ∷ rs) ts n))
serve q rs [] n fuel v = absurd v.near
serve q rs (r ∷ ts) n fuel v = elim (Bool-cases (n == 0)) [
  | inl e ↦
      subst
        (λ m.
          Serves (allocator (q ∷ rs) (r ∷ ts) m)
            (next_port (suc (suc fuel)) (allocator (q ∷ rs) (r ∷ ts) m)))
        (sym ((==_iff n 0).0 e)) (serve_first q rs r ts (suc (suc fuel)) v.ranges v.within)
  | inr e ↦
      let between = later v.near e in
      unfold next_port in rw e (serve_loop q rs r ts n fuel v.ranges v.within between.0 between.1)
]
  where
    later : IsNear n (r ∷ ts) → (n == 0) ≡ false → (r.from ≤ n) × (n ≤ r.upto + 1)
    later (inl h) f = ground arith
    later (inr h) f = h

serve_any :
    (rs ts : List PortRange) (n fuel : ℕ)
    → IsValid (allocator rs ts n)
    → Serves (allocator rs ts n) (next_port (suc (suc fuel)) (allocator rs ts n))
serve_any [] ts n fuel v = absurd (none_near ts v.within v.near)
  where
    none_near : (us : List PortRange) → Suffix [] us → ¬ IsNear n us
    none_near [] s h = h
    none_near (u ∷ us) s h = absurd (omega (arith, Suffix-length s))
serve_any (q ∷ rs) ts n fuel v = serve q rs ts n fuel v

-- With fuel for two passes of the loop a valid allocator hands out a port of its ranges, keeps the
-- ranges and stays valid: the iterator stands in the ranges, and the next port at most one past
-- the range that it stands at.
pub next_port-Serves :
    (a : PortAllocator) (fuel : ℕ) → IsValid a → Serves a (next_port (suc (suc fuel)) a)
next_port-Serves a fuel v = serve_any a.ranges a.it a.next fuel v

-- An allocator that has not handed out a port is valid once it is given ranges that the
-- configuration admits.
pub set_ports-IsValid :
    (r : PortRange) (rs : List PortRange)
    → AllRanges (r ∷ rs)
    → IsValid (set_ports new_port_allocator (r ∷ rs))
unfolding set_ports new_port_allocator
set_ports-IsValid r rs v = record { ranges = v; within = whole; near = inl refl }

-- All ports of the ranges lie above the bound.
abbrev pub AllAbove : ℕ → List PortRange → Type 0
AllAbove n [] = Unit
AllAbove n (r ∷ rs) = (n < r.from) × AllAbove n rs

Inside-above : (n : ℕ) (rs : List PortRange) → AllAbove n rs → ¬ Inside n rs
Inside-above n [] a h = h
Inside-above n (r ∷ rs) a (inl h) = omega arith
Inside-above n (r ∷ rs) a (inr h) = Inside-above n rs a.1 h

-- New ranges do not reset the next port: an allocator that has handed out ports, and is given
-- ranges that all lie above its next port, hands that port out, which is in none of them.
set_ports_stale :
    (a : PortAllocator) (r : PortRange) (rs : List PortRange) (fuel : ℕ)
    → 0 < a.next
    → AllRanges (r ∷ rs)
    → AllAbove a.next (r ∷ rs)
    → (a' : PortAllocator) × (next_port (suc fuel) (set_ports a (r ∷ rs)) ≡ some (a.next, a'))
      × (¬ Inside a.next (r ∷ rs))
unfolding next_port set_ports next_port_loop
set_ports_stale a r rs fuel h v above = (
  record { ranges = r ∷ rs; it = r ∷ rs; next = a.next + 1 },
  ground (arith, v.0.order),
  Inside-above a.next (r ∷ rs) above,
)
