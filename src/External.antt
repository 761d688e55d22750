-- ===== src/External.antt =====
-- The crates that the program calls and does not contain: `byteorder` and `rand`.
use pipop_core.Base.{ℕ, ◌+◌, ◌*◌, ◌/◌, ◌%◌, ◌^◌, ◌<◌, ◌≡◌, [], ◌∷◌, Bytes}

-- `byteorder::BigEndian`, as `WriteBytesExt` appends it to a `Vec<u8>` and as `ByteOrder` reads it
-- from a buffer. The laws state that the most significant byte comes first.
pub record BigEndian : Type 0 where
  pub write_u16 : ℕ → Bytes
  pub write_u32 : ℕ → Bytes
  pub write_u64 : ℕ → Bytes
  pub read_u16 : Bytes → ℕ
  pub read_u32 : Bytes → ℕ
  pub read_u64 : Bytes → ℕ
  pub write_u16_lem : (n : ℕ) → n < 2 ^ 16 → write_u16 n ≡ n / 2 ^ 8 ∷ n % 2 ^ 8 ∷ []
  pub write_u32_lem :
      (n : ℕ)
      → n < 2 ^ 32
      → write_u32 n ≡ n / 2 ^ 24 ∷ n / 2 ^ 16 % 2 ^ 8 ∷ n / 2 ^ 8 % 2 ^ 8 ∷ n % 2 ^ 8 ∷ []
  pub write_u64_lem :
      (n : ℕ)
      → n < 2 ^ 64
      → write_u64 n
        ≡ n / 2 ^ 56
          ∷ n / 2 ^ 48 % 2 ^ 8
          ∷ n / 2 ^ 40 % 2 ^ 8
          ∷ n / 2 ^ 32 % 2 ^ 8
          ∷ n / 2 ^ 24 % 2 ^ 8
          ∷ n / 2 ^ 16 % 2 ^ 8
          ∷ n / 2 ^ 8 % 2 ^ 8
          ∷ n % 2 ^ 8
          ∷ []
  pub read_u16_lem : (a b : ℕ) → read_u16 (a ∷ b ∷ []) ≡ a * 2 ^ 8 + b
  pub read_u32_lem :
      (a b c d : ℕ) → read_u32 (a ∷ b ∷ c ∷ d ∷ []) ≡ a * 2 ^ 24 + b * 2 ^ 16 + c * 2 ^ 8 + d
  pub read_u64_lem :
      (a b c d e f g h : ℕ)
      → read_u64 (a ∷ b ∷ c ∷ d ∷ e ∷ f ∷ g ∷ h ∷ [])
        ≡ a * 2 ^ 56
          + b * 2 ^ 48
          + c * 2 ^ 40
          + d * 2 ^ 32
          + e * 2 ^ 24
          + f * 2 ^ 16
          + g * 2 ^ 8
          + h

-- `rand::thread_rng().gen::<u32>()`: the numbers of one run, in the order in which they are drawn.
pub record Random : Type 0 where
  pub draw : ℕ → ℕ
  pub draw_lt : (i : ℕ) → draw i < 2 ^ 32
