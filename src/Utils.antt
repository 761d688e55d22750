-- ===== src/Utils.antt =====
-- src/utils.rs: numbers in big-endian order, the checksum, the hex dump and chunks.
pub mod Words
pub mod Numbers
pub mod Chunks
pub mod Dump
use pipop_core.Base.{
  ℕ, zero, suc, ◌+◌, ◌-◌, ◌*◌, ◌/◌, ◌%◌, ◌^◌, Option, none, some, List, [], ◌∷◌, ◌++◌, map, Bytes,
  Text, bit_or, ltb, if◌then◌else◌, length, take, drop, text, decimal, hex,
}
use pipop_core.Io.{IoError, Reader, read_exact, pure, ◌>>=◌}

-- `(x as u<w>) << k`
abbrev pub shl : ℕ → ℕ → ℕ → ℕ
shl w x k = x * 2 ^ k % 2 ^ w

-- `x as u8`
abbrev pub as_u8 : ℕ → ℕ
as_u8 x = x % 2 ^ 8

-- `((b[0] as u16) << 8) | (b[1] as u16)`, and the same for four and for eight bytes. A buffer has
-- the length of the number by its type.
unfoldable pub u16_of : Bytes → ℕ
u16_of (a ∷ b ∷ []) = bit_or (shl 16 a 8) b
u16_of _ = 0

unfoldable pub u32_of : Bytes → ℕ
u32_of (a ∷ b ∷ c ∷ d ∷ []) = bit_or (bit_or (bit_or (shl 32 a 24) (shl 32 b 16)) (shl 32 c 8)) d
u32_of _ = 0

unfoldable pub u64_of : Bytes → ℕ
u64_of (a ∷ b ∷ c ∷ d ∷ e ∷ f ∷ g ∷ h ∷ []) =
    bit_or
      (bit_or
        (bit_or
          (bit_or (bit_or (bit_or (bit_or (shl 64 a 56) (shl 64 b 48)) (shl 64 c 40)) (shl 64 d 32))
            (shl 64 e 24))
          (shl 64 f 16))
        (shl 64 g 8))
      h
u64_of _ = 0

unfoldable pub read_u16_be : Reader IoError ℕ
unfolding u16_of read_exact
read_u16_be = do buf ← read_exact 2; pure (u16_of buf)

unfoldable pub read_u32_be : Reader IoError ℕ
unfolding u32_of read_exact
read_u32_be = do buf ← read_exact 4; pure (u32_of buf)

unfoldable pub read_u64_be : Reader IoError ℕ
unfolding u64_of read_exact
read_u64_be = do buf ← read_exact 8; pure (u64_of buf)

unfoldable pub write_u16_be : ℕ → Bytes
write_u16_be value = as_u8 (value / 2 ^ 8) ∷ as_u8 value ∷ []

unfoldable pub write_u32_be : ℕ → Bytes
write_u32_be value =
    as_u8 (value / 2 ^ 24) ∷ as_u8 (value / 2 ^ 16) ∷ as_u8 (value / 2 ^ 8) ∷ as_u8 value ∷ []

unfoldable pub write_u64_be : ℕ → Bytes
write_u64_be value =
    as_u8 (value / 2 ^ 56)
    ∷ as_u8 (value / 2 ^ 48)
    ∷ as_u8 (value / 2 ^ 40)
    ∷ as_u8 (value / 2 ^ 32)
    ∷ as_u8 (value / 2 ^ 24)
    ∷ as_u8 (value / 2 ^ 16)
    ∷ as_u8 (value / 2 ^ 8)
    ∷ as_u8 value
    ∷ []

-- The loop of `checksum`: `sum` is a `u32`.
unfoldable pub checksum_loop : ℕ → Bytes → ℕ
checksum_loop sum [] = sum
checksum_loop sum (byte ∷ rest) = checksum_loop ((sum + byte) % 2 ^ 32 % 0x1_0000) rest

unfoldable pub checksum : Bytes → ℕ
unfolding checksum_loop
checksum data_bytes = checksum_loop 0 data_bytes % 2 ^ 16

-- `iter().map(|b| format!("{:02X}", b)).collect::<Vec<_>>().join(" ")`
unfoldable pub hex_join : Bytes → Text
unfolding hex text
hex_join [] = []
hex_join (b ∷ []) = hex 2 b
hex_join (b ∷ c ∷ rest) = hex 2 b ++ (text " " ++ hex_join (c ∷ rest))

unfoldable pub bytes_to_hex : Bytes → Text
unfolding hex_join decimal text
bytes_to_hex bs =
    if ltb 128 (length bs)
    then hex_join (take 32 bs)
      ++ (text " ... ["
          ++ (decimal (length bs - 64)
              ++ (text " bytes omitted] ... " ++ hex_join (drop (length bs - 32) bs))))
    else hex_join bs

-- Milliseconds between two time stamps.
unfoldable pub duration_ms : ℕ → ℕ → ℕ
duration_ms start end = if ltb start end then end - start else 0

-- `slice::chunks`, with fuel. A chunk is never empty, so the slice's length is enough.
module _ {T : Type 0} where
  unfoldable pub chunk_loop : ℕ → ℕ → List T → List (List T)
  chunk_loop chunk_size zero xs = []
  chunk_loop chunk_size (suc fuel) [] = []
  chunk_loop chunk_size (suc fuel) (x ∷ xs) =
      take chunk_size (x ∷ xs) ∷ chunk_loop chunk_size fuel (drop chunk_size (x ∷ xs))

  -- `none` is the panic of `chunks` at a chunk size of 0.
  unfoldable pub chunk_vector : List T → ℕ → Option (List (List T))
  unfolding chunk_loop
  chunk_vector xs zero = none
  chunk_vector xs (suc n) = some (chunk_loop (suc n) (length xs) xs)
