-- ===== src/Ftp/Ports/Tests.antt =====
-- The allocators at concrete inputs.
use ebftpd.Prelude.{List, [], ◌∷◌, Str, codes, arith}
use ebftpd.Ftp.Ports.{
  PortRange, PortAllocator, new_port_allocator, set_ports, next_port, AddrAllocator,
}
use ebftpd.Ftp.Ports.Laws.{AllRanges, Serves, next_port-Serves, set_ports-IsValid}

abbrev low : PortRange
low = record { from = 2000; upto = 2010 }

abbrev high : PortRange
high = record { from = 5000; upto = 6000 }

low-AllRanges : AllRanges (low ∷ [])
low-AllRanges = (record { low = omega arith; order = omega arith; high = omega arith }, tt)

high-AllRanges : AllRanges (high ∷ [])
high-AllRanges = (record { low = omega arith; order = omega arith; high = omega arith }, tt)

next_port-Serves_example :
    Serves
      (set_ports new_port_allocator (low ∷ []))
      (next_port 2 (set_ports new_port_allocator (low ∷ [])))
next_port-Serves_example =
    next_port-Serves (set_ports new_port_allocator (low ∷ [])) 0
      (set_ports-IsValid low [] low-AllRanges)

-- Five ports of the low range are taken when the high range is configured.
abbrev used : PortAllocator
used = record { ranges = low ∷ []; it = low ∷ []; next = 2005 }

abbrev addresses : List Str
addresses = codes "10.0.0.1" ∷ codes "10.0.0.2" ∷ []

abbrev unset : AddrAllocator
unset = record { addresses = []; it = [] }
