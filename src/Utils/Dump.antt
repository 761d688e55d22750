-- ===== src/Utils/Dump.antt =====
-- src/utils.rs: the checksum and the time difference.
use pipop_core.Base.{ℕ, ◌+◌, ◌%◌, ◌^◌, ◌≡◌, ◌∙◌, [], ◌∷◌, ◌++◌, Bytes, arith}
use Prim.Native.Nat.{max}
use pipop_core.Utils.{checksum, checksum_loop, duration_ms}

abbrev pub sum : Bytes → ℕ
sum [] = 0
sum (b ∷ bs) = b + sum bs

sum-append : (xs ys : Bytes) → sum (xs ++ ys) ≡ sum xs + sum ys
sum-append [] ys = omega arith
sum-append (b ∷ xs) ys = omega (arith, sum-append xs ys)

checksum_loop-sum : (bs : Bytes) (acc : ℕ) → checksum_loop acc bs % 2 ^ 16 ≡ (acc + sum bs) % 2 ^ 16
unfolding checksum_loop
checksum_loop-sum [] acc = omega arith
checksum_loop-sum (b ∷ bs) acc = checksum_loop-sum bs ((acc + b) % 2 ^ 32 % 0x1_0000) ∙ omega arith

-- The checksum is the sum of the bytes modulo 2^16, and of two pieces of data it is the sum of
-- their checksums modulo 2^16.
pub checksum_lem :
    (xs ys : Bytes)
    → (checksum xs ≡ sum xs % 2 ^ 16) × (checksum (xs ++ ys) ≡ (checksum xs + checksum ys) % 2 ^ 16)
unfolding checksum
checksum_lem xs ys = (
  omega (arith, checksum_loop-sum xs 0),
  omega (
    arith,
    checksum_loop-sum xs 0,
    checksum_loop-sum ys 0,
    checksum_loop-sum (xs ++ ys) 0,
    sum-append xs ys,
  ),
)

-- The difference is never negative, and with the earlier stamp it gives the later of the two.
pub duration_ms_lem : (a b : ℕ) → (duration_ms a b + a ≡ max a b)
unfolding duration_ms
duration_ms_lem a b = ground arith
