-- ===== src/Utils/Numbers.antt =====
-- src/utils.rs: the readers give back what the writers wrote.
use pipop_core.Base.{
  ℕ, zero, suc, ◌+◌, ◌*◌, ◌/◌, ◌%◌, ◌^◌, ◌≤◌, ◌<◌, ◌≡◌, refl, ap, ◌∙◌, [], ◌∷◌, ◌++◌, Bytes, ok,
  err, take, drop, length, arith,
}
use pipop_core.Io.{read_exact, eof_error}
use pipop_core.External.{BigEndian}
use pipop_core.Utils.{
  read_u16_be, read_u32_be, read_u64_be, write_u16_be, write_u32_be, write_u64_be,
}
use pipop_core.Utils.Words.{u16_of_lem, u32_of_lem, u64_of_lem}

-- `read_exact` takes the first `n` bytes where there are so many.
pub read_exact-take :
    (n : ℕ) (bs : Bytes) → n ≤ length bs → read_exact n bs ≡ ok (take n bs, drop n bs)
unfolding read_exact
read_exact-take zero bs h = refl
read_exact-take (suc n) [] h = absurd (omega arith)
read_exact-take (suc n) (b ∷ bs) h = rw (read_exact-take n bs (omega arith))

-- It fails on a shorter input.
pub read_exact_eof : (n : ℕ) (bs : Bytes) → length bs < n → read_exact n bs ≡ err eof_error
unfolding read_exact
read_exact_eof zero bs h = absurd (omega arith)
read_exact_eof (suc n) [] h = refl
read_exact_eof (suc n) (b ∷ bs) h = rw (read_exact_eof n bs (omega arith))

pub digits_u32 :
    (n : ℕ)
    → n < 2 ^ 32
    → n / 2 ^ 24 % 2 ^ 8 * 2 ^ 24
        + n / 2 ^ 16 % 2 ^ 8 * 2 ^ 16
        + n / 2 ^ 8 % 2 ^ 8 * 2 ^ 8
        + n % 2 ^ 8
      ≡ n
digits_u32 n h = omega arith

pub digits_u64 :
    (n : ℕ)
    → n < 2 ^ 64
    → n / 2 ^ 56 % 2 ^ 8 * 2 ^ 56
        + n / 2 ^ 48 % 2 ^ 8 * 2 ^ 48
        + n / 2 ^ 40 % 2 ^ 8 * 2 ^ 40
        + n / 2 ^ 32 % 2 ^ 8 * 2 ^ 32
        + n / 2 ^ 24 % 2 ^ 8 * 2 ^ 24
        + n / 2 ^ 16 % 2 ^ 8 * 2 ^ 16
        + n / 2 ^ 8 % 2 ^ 8 * 2 ^ 8
        + n % 2 ^ 8
      ≡ n
digits_u64 n h = omega arith

-- Reading a `u16` gives back the number that `write_u16_be` wrote, and leaves the bytes behind it.
pub read_u16_be-write_u16_be :
    (n : ℕ) (rest : Bytes) → n < 2 ^ 16 → read_u16_be (write_u16_be n ++ rest) ≡ ok (n, rest)
unfolding read_u16_be write_u16_be
read_u16_be-write_u16_be n rest h =
    let v : n / 2 ^ 8 % 2 ^ 8 * 2 ^ 8 + n % 2 ^ 8 ≡ n = omega arith in
    ap (λ (t : ℕ). ok (t, rest)) (u16_of_lem _ _ (omega arith) (omega arith) ∙ v)

-- Reading a `u32` gives back the number of 32 bits that `write_u32_be` wrote, and leaves the bytes
-- behind it.
pub read_u32_be-write_u32_be :
    (n : ℕ) (rest : Bytes) → n < 2 ^ 32 → read_u32_be (write_u32_be n ++ rest) ≡ ok (n, rest)
unfolding read_u32_be write_u32_be
read_u32_be-write_u32_be n rest h =
    ap (λ (t : ℕ). ok (t, rest))
      (u32_of_lem _ _ _ _ (omega arith) (omega arith) (omega arith) (omega arith) ∙ digits_u32 n h)

-- Reading a `u64` gives back the number of 64 bits that `write_u64_be` wrote, and leaves the bytes
-- behind it.
pub read_u64_be-write_u64_be :
    (n : ℕ) (rest : Bytes) → n < 2 ^ 64 → read_u64_be (write_u64_be n ++ rest) ≡ ok (n, rest)
unfolding read_u64_be write_u64_be
read_u64_be-write_u64_be n rest h =
    ap (λ (t : ℕ). ok (t, rest))
      (u64_of_lem _ _ _ _ _ _ _ _ (omega arith) (omega arith) (omega arith) (omega arith)
          (omega arith) (omega arith) (omega arith) (omega arith)
        ∙ digits_u64 n h)

-- The three readers fail at the end of the input.
pub read_u16_be_eof : (bs : Bytes) → length bs < 2 → read_u16_be bs ≡ err eof_error
unfolding read_u16_be
read_u16_be_eof bs h = rw (read_exact_eof 2 bs h)

pub read_u32_be_eof : (bs : Bytes) → length bs < 4 → read_u32_be bs ≡ err eof_error
unfolding read_u32_be
read_u32_be_eof bs h = rw (read_exact_eof 4 bs h)

pub read_u64_be_eof : (bs : Bytes) → length bs < 8 → read_u64_be bs ≡ err eof_error
unfolding read_u64_be
read_u64_be_eof bs h = rw (read_exact_eof 8 bs h)

-- The crate `byteorder` and the functions of this file write the same bytes.
module _ (be : BigEndian) where
  pub write_u16_same : (n : ℕ) → n < 2 ^ 16 → be.write_u16 n ≡ write_u16_be n
  unfolding write_u16_be
  write_u16_same n h =
      let e : n / 2 ^ 8 ≡ n / 2 ^ 8 % 2 ^ 8 = omega arith in
      be.write_u16_lem n h ∙ ap (λ (t : ℕ). t ∷ n % 2 ^ 8 ∷ []) e

  pub write_u32_same : (n : ℕ) → n < 2 ^ 32 → be.write_u32 n ≡ write_u32_be n
  unfolding write_u32_be
  write_u32_same n h =
      let e : n / 2 ^ 24 ≡ n / 2 ^ 24 % 2 ^ 8 = omega arith in
      be.write_u32_lem n h
      ∙ ap (λ (t : ℕ). t ∷ n / 2 ^ 16 % 2 ^ 8 ∷ n / 2 ^ 8 % 2 ^ 8 ∷ n % 2 ^ 8 ∷ []) e
