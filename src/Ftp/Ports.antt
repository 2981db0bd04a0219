-- ===== src/Ftp/Ports.antt =====
-- src/ftp/portallocator.hpp and addrallocator.hpp: the ports and addresses for data connections,
-- handed out in turn. A call holds the mutex, so each is one step. An iterator into a vector is the
-- rest of the list from it on. The loop of `NextPort` has fuel, and `none` is fuel that ran out or
-- an iterator that points nowhere.
pub mod Laws
pub mod Addresses
pub mod Tests
use ebftpd.Prelude.{
  ℕ, zero, suc, ◌+◌, ◌≤◌, Bool, Option, none, some, List, [], ◌∷◌, Str, leb, ltb, ◌==◌, ◌||◌,
  if◌then◌else◌,
}

-- cfg::PortRange, of src/cfg/setting.hpp.
pub record PortRange : Type 0 where
  pub from : ℕ
  pub upto : ℕ

-- The tests of cfg::Ports on a range, `none` for an exception.
unfoldable pub port_range : ℕ → ℕ → Option PortRange
port_range from upto =
    if ltb upto from
    then none
    else if ltb upto 1024 || ltb from 1024 || ltb 65535 upto || ltb 65535 from
    then none
    else some (record { from = from; upto = upto })

pub record PortAllocator : Type 0 where
  pub ranges : List PortRange
  pub it : List PortRange
  pub next : ℕ

unfoldable pub new_port_allocator : PortAllocator
new_port_allocator = record { ranges = []; it = []; next = 0 }

unfoldable pub set_ports : PortAllocator → List PortRange → PortAllocator
set_ports a ranges = record a { ranges = ranges; it = ranges }

-- `if (++it == end) it = begin`
unfoldable pub advance : List PortRange → List PortRange → List PortRange
advance ranges [] = []
advance ranges (r ∷ []) = ranges
advance ranges (r ∷ q ∷ rest) = q ∷ rest

abbrev from_of : List PortRange → ℕ
from_of [] = 0
from_of (r ∷ rest) = r.from

unfoldable pub next_port_loop : ℕ → PortAllocator → Option (ℕ × PortAllocator)
unfolding advance
next_port_loop zero a = none
next_port_loop (suc fuel) a = elim a.it [
  | [] ↦ none
  | r ∷ rest ↦
      let further =
        next_port_loop fuel
          (record a { it = advance a.ranges a.it; next = from_of (advance a.ranges a.it) }) in
      if leb a.next r.upto then some (a.next, record a { next = a.next + 1 }) else further
]

-- 0 is `Endpoint::AnyPort()`.
unfoldable pub next_port : ℕ → PortAllocator → Option (ℕ × PortAllocator)
next_port fuel a = elim a.ranges [
  | [] ↦ some (0, a)
  | _ ↦
      if a.next == 0
      then elim a.it [ [] ↦ none | r ∷ rest ↦ some (r.from, record a { next = r.from + 1 }) ]
      else next_port_loop fuel a
]

pub record AddrAllocator : Type 0 where
  pub addresses : List Str
  pub it : List Str

unfoldable pub set_addrs : AddrAllocator → List Str → AddrAllocator
set_addrs a addresses = record { addresses = addresses; it = addresses }

-- `return *it++`, where the iterator is not at the end.
abbrev take_addr : List Str → List Str → Str × AddrAllocator
take_addr addresses [] = ([], record { addresses = addresses; it = [] })
take_addr addresses (x ∷ rest) = (x, record { addresses = addresses; it = rest })

unfoldable pub next_addr : AddrAllocator → Str × AddrAllocator
next_addr a = elim a.addresses [
  | [] ↦ ([], a)
  | _ ↦ elim a.it [ [] ↦ take_addr a.addresses a.addresses | _ ↦ take_addr a.addresses a.it ]
]
