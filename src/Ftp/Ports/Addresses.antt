-- ===== src/Ftp/Ports/Addresses.antt =====
-- In which order src/ftp/addrallocator.hpp hands addresses out.
use ebftpd.Prelude.{ℕ, zero, suc, ◌+◌, ◌≡◌, refl, ap, List, [], ◌∷◌, ◌++◌, Str, length}
use native.Mathlib.Nat.{zero-add, suc-add}
use ebftpd.Ftp.Ports.{AddrAllocator, set_addrs, next_addr}

-- The addresses that n calls return.
unfoldable pub serve_addrs : ℕ → AddrAllocator → List Str
serve_addrs zero a = []
serve_addrs (suc n) a = (next_addr a).0 ∷ serve_addrs n (next_addr a).1

abbrev addr_allocator : List Str → List Str → AddrAllocator
addr_allocator xs it = record { addresses = xs; it = it }

-- At the end the next call starts over.
serve_addrs-end :
    (n : ℕ) (x : Str) (xs : List Str)
    → serve_addrs n (addr_allocator (x ∷ xs) []) ≡ serve_addrs n (addr_allocator (x ∷ xs) (x ∷ xs))
unfolding serve_addrs next_addr
serve_addrs-end zero x xs = refl
serve_addrs-end (suc n) x xs = refl

serve_addrs-rest :
    (n : ℕ) (x : Str) (xs it : List Str)
    → serve_addrs (length it + n) (addr_allocator (x ∷ xs) it)
      ≡ it ++ serve_addrs n (addr_allocator (x ∷ xs) (x ∷ xs))
unfolding serve_addrs next_addr
serve_addrs-rest n x xs [] = rw zero-add (serve_addrs-end n x xs)
serve_addrs-rest n x xs (y ∷ it) = rw suc-add (ap (◌∷◌ y) (serve_addrs-rest n x xs it))

-- After new addresses are set, calls return them all in their order, and then go on as if they
-- had just been set: each address is used once in a round.
pub serve_addrs_round :
    (a : AddrAllocator) (xs : List Str) (n : ℕ)
    → serve_addrs (length xs + n) (set_addrs a xs) ≡ xs ++ serve_addrs n (set_addrs a xs)
unfolding set_addrs
serve_addrs_round a [] n = rw zero-add
serve_addrs_round a (x ∷ xs) n = serve_addrs-rest n x xs (x ∷ xs)
