-- ===== src/Cmd/Nuking/Sums.antt =====
-- Sums and differences of signed integers.
use ebftpd.Prelude.{◌≡◌, ℤ, pos, negsuc, ◌+ℤ◌, ◌-ℤ◌, arith}

pub sub_sub : (v k o : ℤ) → (v -ℤ k) -ℤ o ≡ v -ℤ (k +ℤ o)
unfolding ◌-ℤ◌ ◌+ℤ◌
sub_sub (pos v) (pos k) (pos o) = ground arith
sub_sub (pos v) (pos k) (negsuc o) = ground arith
sub_sub (pos v) (negsuc k) (pos o) = ground arith
sub_sub (pos v) (negsuc k) (negsuc o) = ground arith
sub_sub (negsuc v) (pos k) (pos o) = ground arith
sub_sub (negsuc v) (pos k) (negsuc o) = ground arith
sub_sub (negsuc v) (negsuc k) (pos o) = ground arith
sub_sub (negsuc v) (negsuc k) (negsuc o) = ground arith

pub add_add : (v k o : ℤ) → (v +ℤ k) +ℤ o ≡ v +ℤ (k +ℤ o)
unfolding ◌+ℤ◌
add_add (pos v) (pos k) (pos o) = ground arith
add_add (pos v) (pos k) (negsuc o) = ground arith
add_add (pos v) (negsuc k) (pos o) = ground arith
add_add (pos v) (negsuc k) (negsuc o) = ground arith
add_add (negsuc v) (pos k) (pos o) = ground arith
add_add (negsuc v) (pos k) (negsuc o) = ground arith
add_add (negsuc v) (negsuc k) (pos o) = ground arith
add_add (negsuc v) (negsuc k) (negsuc o) = ground arith

pub sub_add : (v k : ℤ) → (v -ℤ k) +ℤ k ≡ v
unfolding ◌-ℤ◌ ◌+ℤ◌
sub_add (pos v) (pos k) = ground arith
sub_add (pos v) (negsuc k) = ground arith
sub_add (negsuc v) (pos k) = ground arith
sub_add (negsuc v) (negsuc k) = ground arith

pub sub_zero : (v : ℤ) → v -ℤ pos 0 ≡ v
unfolding ◌-ℤ◌
sub_zero (pos v) = ground arith
sub_zero (negsuc v) = ground arith

pub zero_add : (v : ℤ) → pos 0 +ℤ v ≡ v
unfolding ◌+ℤ◌
zero_add (pos v) = ground arith
zero_add (negsuc v) = ground arith

pub add_zero : (v : ℤ) → v +ℤ pos 0 ≡ v
unfolding ◌+ℤ◌
add_zero (pos v) = ground arith
add_zero (negsuc v) = ground arith

pub swap_last : (v k o : ℤ) → (v +ℤ k) +ℤ o ≡ (v +ℤ o) +ℤ k
unfolding ◌+ℤ◌
swap_last (pos v) (pos k) (pos o) = ground arith
swap_last (pos v) (pos k) (negsuc o) = ground arith
swap_last (pos v) (negsuc k) (pos o) = ground arith
swap_last (pos v) (negsuc k) (negsuc o) = ground arith
swap_last (negsuc v) (pos k) (pos o) = ground arith
swap_last (negsuc v) (pos k) (negsuc o) = ground arith
swap_last (negsuc v) (negsuc k) (pos o) = ground arith
swap_last (negsuc v) (negsuc k) (negsuc o) = ground arith
